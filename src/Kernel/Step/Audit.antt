-- ===== src/Kernel/Step/Audit.antt =====
-- What the steps of the kernel leave in its ledger.
use rfsn_agent_full.Base.{
  if◌then◌else◌, Bool-cases, length, length-append, ℕ, ◌+◌, ◌≤◌, String, ◌≡◌, refl, sym, ap, ◌∙◌,
  inl, inr, Bool, true, false, List, [], ◌∷◌, ◌++◌, arith, str_eq,
}
use rfsn_agent_full.Base.Float.{Floats}
use rfsn_agent_full.Ledger.{Line, entry, append, seal}
use mathlib.Core.List.{append_assoc, append-nil}
use rfsn_agent_full.Kernel.State.{Proposal, Outcome}
use rfsn_agent_full.Kernel.Simulate.{SimResult}
use rfsn_agent_full.Kernel.Risk.{RiskBreakdown}
use rfsn_agent_full.Kernel.Decide.{Decision}
use rfsn_agent_full.Kernel.Validate.{ValidationResult}
use rfsn_agent_full.Kernel.Commit.{commit_ledger, append_kernel_event}
use rfsn_agent_full.Kernel.Verify.{Violation, VerificationResult, is_failure_cluster}
use rfsn_agent_full.Kernel.Settle.{
  Request, escalate, note_escalation, tighten_unless, tighten_for, adaptive_tighten,
}
use rfsn_agent_full.Kernel.Core.{EventMeta, HardKernel, Extern, StepResult, Store, Content, Meta}
use rfsn_agent_full.Kernel.Reject.{reject_by_tier, reject_by_validation, reject_by_decision}
use rfsn_agent_full.Kernel.Step.{after_execution, commit_execution, run_steps}
use rfsn_agent_full.Kernel.Step.Course.{
  Course, by_tier, by_validation, by_decision, executed, course,
}

-- The records that say that a step was executed.
abbrev pub approval : {B M : Type 0} → Line B M → ℕ
approval (entry r) = if str_eq r.body.decision "APPROVE" then 1 else 0
approval _ = 0

abbrev pub approvals : {B M : Type 0} → List (Line B M) → ℕ
approvals [] = 0
approvals (line ∷ lines) = approval line + approvals lines

approvals-append :
    {B M : Type 0} (a b : List (Line B M)) → approvals (a ++ b) ≡ approvals a + approvals b
approvals-append [] b = omega arith
approvals-append (line ∷ a) b = omega (arith, approvals-append a b)

module _ (F : Floats) {W : Type 0} (x : Extern F.Float W) where
  open F use {Float}

  tighten_for-store :
      (vs : List (Violation Float)) (k : HardKernel Float)
      → ((tighten_for F vs k).store ≡ k.store) × ((tighten_for F vs k).steps_done ≡ k.steps_done)
  unfolding tighten_for adaptive_tighten
  tighten_for-store [] k = (refl, refl)
  tighten_for-store (v ∷ vs) k = elim (Bool-cases (is_failure_cluster v)) [
    | inl hit ↦ simp hit (tighten_for-store vs (adaptive_tighten F k))
    | inr miss ↦ simp miss (tighten_for-store vs k)
  ]

  pub tighten_unless-store :
      (b : Bool) (vs : List (Violation Float)) (k : HardKernel Float)
      → ((tighten_unless F b vs k).store ≡ k.store)
        × ((tighten_unless F b vs k).steps_done ≡ k.steps_done)
  unfolding tighten_unless
  tighten_unless-store true vs k = (refl, refl)
  tighten_unless-store false vs k = tighten_for-store vs k

  -- From one kernel to the next the file only grew, by at least `n` lines, and the executed steps
  -- grew by the approvals among the new lines.
  pub record IsLogged (n : ℕ) (k k' : HardKernel Float) : Type 0 where
    pub new : List (Line (Content Float) (Meta Float))
    pub extends : k'.store.1 ≡ k.store.1 ++ new
    pub enough : n ≤ length new
    pub counted : k'.steps_done ≡ k.steps_done + approvals new

  -- Growth in two parts.
  pub IsLogged-trans :
      (n m : ℕ) (k k' k'' : HardKernel Float)
      → IsLogged n k k'
      → IsLogged m k' k''
      → IsLogged (n + m) k k''
  IsLogged-trans n m k k' k'' a b = record {
    new = a.new ++ b.new;
    extends = b.extends ∙ ap (λ f. f ++ b.new) a.extends ∙ append_assoc k.store.1 a.new b.new;
    enough = omega (arith, length-append a.new b.new, a.enough, b.enough);
    counted = omega (arith, approvals-append a.new b.new, a.counted, b.counted);
  }

  note_escalation-IsLogged :
      (b : Bool) (e : EventMeta Float) (k : HardKernel Float)
      → IsLogged 0 k (note_escalation x b e k)
  unfolding note_escalation append_kernel_event append seal
  note_escalation-IsLogged true e k = record {
    new = [];
    extends = sym (append-nil k.store.1);
    enough = omega arith;
    counted = omega arith;
  }
  note_escalation-IsLogged false e k = record {
    new = entry _ ∷ [];
    extends = refl;
    enough = omega arith;
    counted = omega arith;
  }

  -- The commit of an executed step, on a kernel with the store and the count of `k`.
  commit_execution-IsLogged :
      (q : Request Float) (p : Proposal) (v : ValidationResult) (sim : SimResult Float)
      → (risk : RiskBreakdown Float) (d : Decision Float) (o : Outcome Float)
      → (verification : VerificationResult Float) (k k' : HardKernel Float)
      → (k'.store ≡ k.store) × (k'.steps_done ≡ k.steps_done)
      → IsLogged 1 k (commit_execution F x q p v sim risk d o verification k').1
  unfolding commit_execution commit_ledger append seal
  commit_execution-IsLogged q p v sim risk d o verification k k' (same, count) =
      let r = entry (commit_execution F x q p v sim risk d o verification k').0.ledger_record in
      record {
        new = r ∷ [];
        extends = ap (λ (s : Store Float). s.1 ++ r ∷ []) same;
        enough = omega arith;
        counted = omega (arith, count);
      }

  escalate-IsLogged :
      (q : Request Float) (kinds : List String) (k : HardKernel Float)
      → IsLogged 0 k (escalate x q kinds k)
  unfolding escalate
  escalate-IsLogged q kinds k =
      let l = note_escalation-IsLogged _ _ _ in
      record { new = l.new; extends = l.extends; enough = l.enough; counted = l.counted }

  -- The commit of an executed step, after the tightening.
  execution-IsLogged :
      (q : Request Float) (p : Proposal) (v : ValidationResult) (sim : SimResult Float)
      → (risk : RiskBreakdown Float) (d : Decision Float) (o : Outcome Float) (k : HardKernel Float)
      → IsLogged 1 k (after_execution F x q p v sim risk d o k).1
  unfolding after_execution
  execution-IsLogged q p v sim risk d o k =
      let l = escalate-IsLogged q _ _ in
      let c =
        IsLogged-trans 0 1 _ _ _ l
          (commit_execution-IsLogged _ _ _ _ _ _ _ _ _ _ (tighten_unless-store _ _ _)) in
      record { new = c.new; extends = c.extends; enough = c.enough; counted = c.counted }

  Course-IsLogged :
      (q : Request Float) (k : HardKernel Float) (w : W)
      (out : StepResult Float × HardKernel Float × W)
      → Course F x q k w out
      → IsLogged 1 k out.1
  unfolding reject_by_tier reject_by_validation reject_by_decision commit_ledger append_kernel_event
      append seal
  Course-IsLogged q k w out (by_tier reason e) = record {
    new = entry _ ∷ entry _ ∷ [];
    extends = append_assoc k.store.1 _ _;
    enough = omega arith;
    counted = omega arith;
  }
  Course-IsLogged q k w out (by_validation e) = record {
    new = entry _ ∷ [];
    extends = refl;
    enough = omega arith;
    counted = omega arith;
  }
  Course-IsLogged q k w out (by_decision e) = record {
    new = entry _ ∷ [];
    extends = refl;
    enough = omega arith;
    counted = omega arith;
  }
  Course-IsLogged q k w out (executed c) =
      let l = execution-IsLogged q _ _ _ _ _ _ _ in
      record { new = l.new; extends = l.extends; enough = l.enough; counted = l.counted }

  -- Every step that is asked for leaves at least one line in the ledger, no step removes or changes
  -- a line, and the executed steps are exactly the approvals among the new lines.
  pub run_steps-IsLogged :
      (qs : List (Request Float)) (k : HardKernel Float) (w : W)
      → IsLogged (length qs) k (run_steps F x qs k w).0
  unfolding run_steps
  run_steps-IsLogged [] k w = record {
    new = [];
    extends = sym (append-nil k.store.1);
    enough = omega arith;
    counted = omega arith;
  }
  run_steps-IsLogged (q ∷ qs) k w =
      let l =
        IsLogged-trans 1 (length qs) _ _ _ (Course-IsLogged q k w _ (course F x q k w))
          (run_steps-IsLogged qs _ _) in
      record {
        new = l.new;
        extends = l.extends;
        enough = omega (arith, l.enough);
        counted = l.counted;
      }
