-- ===== src/Replay/Kernel.antt =====
-- What the kernel writes, the replay of a run accepts.
use rfsn_agent_full.Base.{
  All, All-append, String, ◌≡◌, refl, inl, inr, Bool, true, false, Option, none, some, List, [],
  ◌∷◌, str_eq,
}
use Prim.Native.String.{count}
use rfsn_agent_full.Base.Float.{Floats}
use rfsn_agent_full.Ledger.{Body, append, seal}
use rfsn_agent_full.Ledger.Chain.{digest_nonempty}
use rfsn_agent_full.Kernel.Policy.{Policy}
use rfsn_agent_full.Kernel.State.{Proposal, Outcome}
use rfsn_agent_full.Kernel.Simulate.{SimResult}
use rfsn_agent_full.Kernel.Risk.{RiskBreakdown}
use rfsn_agent_full.Kernel.Decide.{Decision}
use rfsn_agent_full.Kernel.Validate.{ValidationResult}
use rfsn_agent_full.Kernel.Verify.{VerificationResult}
use rfsn_agent_full.Kernel.Commit.{commit_ledger, append_kernel_event}
use rfsn_agent_full.Kernel.Settle.{Request, escalate, note_escalation}
use rfsn_agent_full.Kernel.Core.{
  StepReason, EventMeta, HardKernel, Extern, StepResult, Store, Content, Meta, TierPolicy,
}
use rfsn_agent_full.Kernel.Control.{new_kernel}
use rfsn_agent_full.Kernel.Reject.{reject_by_tier, reject_by_validation, reject_by_decision}
use rfsn_agent_full.Kernel.Step.{after_execution, commit_execution, run_steps}
use rfsn_agent_full.Kernel.Step.Course.{
  Course, by_tier, by_validation, by_decision, executed, course,
}
use rfsn_agent_full.Kernel.Step.Audit.{tighten_unless-store}
use rfsn_agent_full.Replay.{replay_verify}
use rfsn_agent_full.Replay.Sound.{IsDecidedBody, IsSoundLine, IsClean, replay_verify-IsClean}

module _ (F : Floats) {W : Type 0} (x : Extern F.Float W)
    (digest_length : (s : String) → count (x.sha256 s) ≡ 64) where
  open F use {Float}

  abbrev IsSoundStore : Store Float → Type 0
  IsSoundStore s = All (IsSoundLine x.sha256) s.1

  append-IsSoundStore :
      (b : Body (Content Float)) (m : Meta Float) (s : Store Float)
      → IsDecidedBody b
      → IsSoundStore s
      → IsSoundStore (append x.sha256 x.canon x.sign x.now b m s).1
  unfolding append seal
  append-IsSoundStore b m (l, file) decided h =
      All-append (IsSoundLine x.sha256) file _ h ((refl, decided), tt)

  append_kernel_event-IsSoundStore :
      (e : EventMeta Float) (t : String) (k : HardKernel Float)
      → IsSoundStore k.store
      → IsSoundStore (append_kernel_event x e t k).store
  unfolding append_kernel_event
  append_kernel_event-IsSoundStore e t k h = append-IsSoundStore _ _ k.store (inr refl) h

  reject-IsSoundStore :
      (p : Proposal) (sim : Option (SimResult Float)) (risk : Option (RiskBreakdown Float))
      (reason : StepReason Float) (run_id : String) (k : HardKernel Float)
      → IsSoundStore k.store
      → IsSoundStore (commit_ledger x p sim risk "REJECT" reason none none run_id k).1.store
  unfolding commit_ledger
  reject-IsSoundStore p sim risk reason run_id k h = append-IsSoundStore _ _ k.store (inr refl) h

  approve-IsSoundStore :
      (p : Proposal) (sim : Option (SimResult Float)) (risk : Option (RiskBreakdown Float))
      (reason : StepReason Float) (o : Outcome Float) (v : Option (VerificationResult Float))
      (run_id : String) (k : HardKernel Float)
      → IsSoundStore k.store
      → IsSoundStore (commit_ledger x p sim risk "APPROVE" reason (some o) v run_id k).1.store
  unfolding commit_ledger
  approve-IsSoundStore p sim risk reason o v run_id k h =
      append-IsSoundStore _ _ k.store
        (inl (refl, digest_nonempty x.sha256 digest_length (x.outcome_text o))) h

  note_escalation-IsSoundStore :
      (b : Bool) (e : EventMeta Float) (k : HardKernel Float)
      → IsSoundStore k.store
      → IsSoundStore (note_escalation x b e k).store
  unfolding note_escalation
  note_escalation-IsSoundStore true e k h = h
  note_escalation-IsSoundStore false e k h = append_kernel_event-IsSoundStore e _ k h

  execution-IsSoundStore :
      (q : Request Float) (p : Proposal) (v : ValidationResult) (sim : SimResult Float)
      → (risk : RiskBreakdown Float) (d : Decision Float) (o : Outcome Float) (k : HardKernel Float)
      → IsSoundStore k.store
      → IsSoundStore (after_execution F x q p v sim risk d o k).1.store
  unfolding after_execution commit_execution escalate
  execution-IsSoundStore q p v sim risk d o k h =
      approve-IsSoundStore _ _ _ _ _ _ _ _
        (rw ((tighten_unless-store F x _ _ _).0) (note_escalation-IsSoundStore _ _ _ h))

  Course-IsSoundStore :
      (q : Request Float) (k : HardKernel Float) (w : W)
      (out : StepResult Float × HardKernel Float × W)
      → Course F x q k w out
      → IsSoundStore k.store
      → IsSoundStore out.1.store
  unfolding reject_by_tier reject_by_validation reject_by_decision
  Course-IsSoundStore q k w out (by_tier reason e) h =
      reject-IsSoundStore _ _ _ _ _ _ (append_kernel_event-IsSoundStore _ _ _ h)
  Course-IsSoundStore q k w out (by_validation e) h = reject-IsSoundStore _ _ _ _ _ _ h
  Course-IsSoundStore q k w out (by_decision e) h = reject-IsSoundStore _ _ _ _ _ _ h
  Course-IsSoundStore q k w out (executed c) h = execution-IsSoundStore _ _ _ _ _ _ _ _ h

  run_steps-IsSoundStore :
      (qs : List (Request Float)) (k : HardKernel Float) (w : W)
      → IsSoundStore k.store
      → IsSoundStore (run_steps F x qs k w).0.store
  unfolding run_steps
  run_steps-IsSoundStore [] k w h = h
  run_steps-IsSoundStore (q ∷ qs) k w h =
      run_steps-IsSoundStore qs _ _ (Course-IsSoundStore q k w _ (course F x q k w) h)

  -- With digests of 64 characters, a kernel that starts on an empty ledger leaves, whatever steps it
  -- is asked for, a ledger that the replay of any run accepts: every record of the run is matched.
  pub run_steps-replay_verify :
      (policy : Policy Float) (tiers : TierPolicy) (qs : List (Request Float)) (w : W)
      (record_type run_id_of : Meta Float → Option String) (run_id : String)
      → str_eq run_id "" ≡ false
      → IsClean x.sha256 (
          replay_verify x.sha256 record_type run_id_of [] run_id
            (run_steps F x qs (new_kernel F policy tiers []) w).0.store.1)
  unfolding new_kernel
  run_steps-replay_verify policy tiers qs w record_type run_id_of run_id named =
      replay_verify-IsClean x.sha256 record_type run_id_of run_id _ named
        (run_steps-IsSoundStore qs (new_kernel F policy tiers []) w tt)
