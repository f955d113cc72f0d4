-- ===== src/Kernel/Step/Synced.antt =====
-- The chain of the kernel's ledger: what it writes, `verify_chain` passes.
use rfsn_agent_full.Base.{String, ◌≡◌, Bool, true, false, Option, List, [], ◌∷◌}
use Prim.Native.String.{count}
use rfsn_agent_full.Base.Float.{Floats}
use rfsn_agent_full.Ledger.{Line, verify_chain}
use rfsn_agent_full.Ledger.Chain.{IsSynced, append-IsSynced, init-IsSynced, verify_chain-IsChain}
use rfsn_agent_full.Kernel.Policy.{Policy}
use rfsn_agent_full.Kernel.State.{Proposal, Outcome}
use rfsn_agent_full.Kernel.Simulate.{SimResult}
use rfsn_agent_full.Kernel.Risk.{RiskBreakdown}
use rfsn_agent_full.Kernel.Decide.{Decision}
use rfsn_agent_full.Kernel.Validate.{ValidationResult}
use rfsn_agent_full.Kernel.Verify.{VerificationResult}
use rfsn_agent_full.Kernel.Commit.{commit_ledger, append_kernel_event}
use rfsn_agent_full.Kernel.Settle.{Request, escalate, note_escalation}
use rfsn_agent_full.Kernel.Core.{
  StepReason, EventMeta, HardKernel, Extern, StepResult, Store, Content, Meta, TierPolicy,
}
use rfsn_agent_full.Kernel.Control.{new_kernel}
use rfsn_agent_full.Kernel.Reject.{reject_by_tier, reject_by_validation, reject_by_decision}
use rfsn_agent_full.Kernel.Step.{after_execution, commit_execution, run_steps}
use rfsn_agent_full.Kernel.Step.Course.{
  Course, by_tier, by_validation, by_decision, executed, course,
}
use rfsn_agent_full.Kernel.Step.Audit.{tighten_unless-store}

module _ (F : Floats) {W : Type 0} (x : Extern F.Float W)
    (digest_length : (s : String) → count (x.sha256 s) ≡ 64) where
  open F use {Float}

  -- The ledger object of the kernel and its file are in step.
  abbrev pub IsInStep : Store Float → Type 0
  IsInStep = IsSynced x.sha256 x.canon digest_length

  append_kernel_event-IsInStep :
      (e : EventMeta Float) (t : String) (k : HardKernel Float)
      → IsInStep k.store
      → IsInStep (append_kernel_event x e t k).store
  unfolding append_kernel_event
  append_kernel_event-IsInStep e t k =
      append-IsSynced x.sha256 x.canon digest_length x.sign x.now _ _ k.store

  commit_ledger-IsInStep :
      (p : Proposal) (sim : Option (SimResult Float)) (risk : Option (RiskBreakdown Float))
      → (decision : String) (reason : StepReason Float) (o : Option (Outcome Float))
      → (v : Option (VerificationResult Float)) (run_id : String) (k : HardKernel Float)
      → IsInStep k.store
      → IsInStep (commit_ledger x p sim risk decision reason o v run_id k).1.store
  unfolding commit_ledger
  commit_ledger-IsInStep p sim risk decision reason o v run_id k =
      append-IsSynced x.sha256 x.canon digest_length x.sign x.now _ _ k.store

  note_escalation-IsInStep :
      (b : Bool) (e : EventMeta Float) (k : HardKernel Float)
      → IsInStep k.store
      → IsInStep (note_escalation x b e k).store
  unfolding note_escalation
  note_escalation-IsInStep true e k h = h
  note_escalation-IsInStep false e k h = append_kernel_event-IsInStep e _ k h

  execution-IsInStep :
      (q : Request Float) (p : Proposal) (v : ValidationResult) (sim : SimResult Float)
      → (risk : RiskBreakdown Float) (d : Decision Float) (o : Outcome Float) (k : HardKernel Float)
      → IsInStep k.store
      → IsInStep (after_execution F x q p v sim risk d o k).1.store
  unfolding after_execution commit_execution escalate
  execution-IsInStep q p v sim risk d o k h =
      commit_ledger-IsInStep _ _ _ _ _ _ _ _ _
        (rw ((tighten_unless-store F x _ _ _).0) (note_escalation-IsInStep _ _ _ h))

  Course-IsInStep :
      (q : Request Float) (k : HardKernel Float) (w : W)
      (out : StepResult Float × HardKernel Float × W)
      → Course F x q k w out
      → IsInStep k.store
      → IsInStep out.1.store
  unfolding reject_by_tier reject_by_validation reject_by_decision
  Course-IsInStep q k w out (by_tier reason e) h =
      commit_ledger-IsInStep _ _ _ _ _ _ _ _ _ (append_kernel_event-IsInStep _ _ _ h)
  Course-IsInStep q k w out (by_validation e) h = commit_ledger-IsInStep _ _ _ _ _ _ _ _ _ h
  Course-IsInStep q k w out (by_decision e) h = commit_ledger-IsInStep _ _ _ _ _ _ _ _ _ h
  Course-IsInStep q k w out (executed c) h = execution-IsInStep _ _ _ _ _ _ _ _ h

  run_steps-IsInStep :
      (qs : List (Request Float)) (k : HardKernel Float) (w : W)
      → IsInStep k.store
      → IsInStep (run_steps F x qs k w).0.store
  unfolding run_steps
  run_steps-IsInStep [] k w h = h
  run_steps-IsInStep (q ∷ qs) k w h =
      run_steps-IsInStep qs _ _ (Course-IsInStep q k w _ (course F x q k w) h)

  -- With digests of 64 characters, a kernel that is opened on a ledger which passes `verify_chain`
  -- leaves a ledger that passes it, whatever steps it is asked for.
  pub run_steps-verify_chain :
      (policy : Policy Float) (tiers : TierPolicy) (file : List (Line (Content Float) (Meta Float)))
      → (qs : List (Request Float)) (w : W) → (verify_chain x.sha256 x.canon file).ok ≡ true
      → (verify_chain x.sha256 x.canon
          (run_steps F x qs (new_kernel F policy tiers file) w).0.store.1).ok
        ≡ true
  unfolding new_kernel
  run_steps-verify_chain policy tiers file qs w h =
      (verify_chain-IsChain x.sha256 x.canon digest_length _).1
        (run_steps-IsInStep qs (new_kernel F policy tiers file) w
          (init-IsSynced x.sha256 x.canon digest_length file h)).chain
