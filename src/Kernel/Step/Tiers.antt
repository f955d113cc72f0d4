-- ===== src/Kernel/Step/Tiers.antt =====
-- The tiers of the runs under the steps of the kernel.
use rfsn_agent_full.Base.{
  Bool-cases, ◌≤◌, max, String, ◌≡◌, refl, ◌∙◌, ◌⊎◌, inl, inr, Bool, true, false, Option, List, [],
  ◌∷◌, arith, str_eq, eq_refl,
}
use rfsn_agent_full.Base.Float.{Floats}
use rfsn_agent_full.Kernel.Verify.{Violation, VerificationResult, is_failure_cluster}
use rfsn_agent_full.Kernel.RunState.{
  RunState, Runs, key_of, get_run, set_run, tier_of, tier_of-set_run, tier_of-get_run,
}
use rfsn_agent_full.Kernel.Tier.Escalation.{pick_next_tier-le}
use rfsn_agent_full.Kernel.State.{Proposal, Outcome}
use rfsn_agent_full.Kernel.Simulate.{SimResult}
use rfsn_agent_full.Kernel.Risk.{RiskBreakdown}
use rfsn_agent_full.Kernel.Decide.{Decision}
use rfsn_agent_full.Kernel.Validate.{ValidationResult}
use rfsn_agent_full.Kernel.Commit.{commit_ledger, append_kernel_event}
use rfsn_agent_full.Kernel.Settle.{
  Request, escalate, note_escalation, tighten_unless, tighten_for, adaptive_tighten,
}
use rfsn_agent_full.Kernel.Core.{StepReason, EventMeta, HardKernel, Extern, StepResult}
use rfsn_agent_full.Kernel.Reject.{reject_by_tier, reject_by_validation, reject_by_decision}
use rfsn_agent_full.Kernel.Step.{after_execution, commit_execution, kernel_step}
use rfsn_agent_full.Kernel.Step.Course.{
  Course, by_tier, by_validation, by_decision, executed, course,
}

module _ (F : Floats) {W : Type 0} (x : Extern F.Float W) where
  open F use {Float}

  note_escalation-runs :
      (b : Bool) (e : EventMeta Float) (k : HardKernel Float)
      → (note_escalation x b e k).run_state ≡ k.run_state
  unfolding note_escalation append_kernel_event
  note_escalation-runs true e k = refl
  note_escalation-runs false e k = refl

  tighten_for-runs :
      (vs : List (Violation Float)) (k : HardKernel Float)
      → (tighten_for F vs k).run_state ≡ k.run_state
  unfolding tighten_for adaptive_tighten
  tighten_for-runs [] k = refl
  tighten_for-runs (v ∷ vs) k = elim (Bool-cases (is_failure_cluster v)) [
    | inl hit ↦ simp hit (tighten_for-runs vs (adaptive_tighten F k))
    | inr miss ↦ simp miss (tighten_for-runs vs k)
  ]

  tighten_unless-runs :
      (b : Bool) (vs : List (Violation Float)) (k : HardKernel Float)
      → (tighten_unless F b vs k).run_state ≡ k.run_state
  unfolding tighten_unless
  tighten_unless-runs true vs k = refl
  tighten_unless-runs false vs k = tighten_for-runs vs k

  -- From one table of runs to the next the run's own tier rose or stayed, up to 3 or where it was,
  -- and every other run kept its tier.
  pub record IsRaised (run_id : String) (runs runs' : Runs) : Type 0 where
    pub rises : tier_of run_id runs ≤ tier_of run_id runs'
    pub capped : tier_of run_id runs' ≤ max (tier_of run_id runs) 3
    pub others :
        (other : String)
        → (str_eq (key_of run_id) (key_of other) ≡ true)
          ⊎ (tier_of other runs' ≡ tier_of other runs)

  IsRaised-trans :
      (run_id : String) (a b c : Runs)
      → IsRaised run_id a b
      → IsRaised run_id b c
      → IsRaised run_id a c
  IsRaised-trans run_id a b c h h' = record {
    rises = omega (arith, h.rises, h'.rises);
    capped = omega (arith, h.capped, h'.capped);
    others = λ other. elim (h.others other) [
      | inl same ↦ inl same
      | inr e ↦ elim (h'.others other) [ inl same ↦ inl same | inr e' ↦ inr (e' ∙ e) ]
    ];
  }

  get_run-IsRaised : (run_id : String) (runs : Runs) → IsRaised run_id runs (get_run run_id runs).0
  get_run-IsRaised run_id runs =
      let e = tier_of-get_run run_id run_id runs in
      record {
        rises = omega (arith, e);
        capped = omega (arith, e);
        others = λ other. inr (tier_of-get_run run_id other runs);
      }

  set_run-IsRaised :
      (run_id : String) (rs : RunState) (runs : Runs)
      → tier_of run_id runs ≤ rs.tier
      → rs.tier ≤ max (tier_of run_id runs) 3
      → IsRaised run_id runs (set_run run_id rs runs)
  set_run-IsRaised run_id rs runs low high =
      let e : tier_of run_id (set_run run_id rs runs) ≡ rs.tier =
        rw (tier_of-set_run run_id run_id rs runs, eq_refl (key_of run_id)) refl in
      record {
        rises = omega (arith, e, low);
        capped = omega (arith, e, high);
        others = λ other. elim (Bool-cases (str_eq (key_of run_id) (key_of other))) [
          | inl same ↦ inl same
          | inr differs ↦ inr (rw (tier_of-set_run run_id other rs runs, differs) refl)
        ];
      }

  escalate-IsRaised :
      (q : Request Float) (kinds : List String) (k : HardKernel Float)
      → IsRaised q.run_id k.run_state (escalate x q kinds k).run_state
  unfolding escalate
  escalate-IsRaised q kinds k =
      let tier = tier_of q.run_id k.run_state in
      let (low, high) = pick_next_tier-le tier kinds k.tier_policy.rules in
      let same = tier_of-get_run q.run_id q.run_id k.run_state in
      rw (note_escalation-runs _ _ _) (
        IsRaised-trans q.run_id _ _ _ (get_run-IsRaised q.run_id k.run_state)
          (set_run-IsRaised q.run_id _ _ (omega (arith, same, low)) (omega (arith, same, high))))

  commit_ledger-IsRaised :
      (p : Proposal) (sim : Option (SimResult Float)) (risk : Option (RiskBreakdown Float))
      → (decision : String) (reason : StepReason Float) (o : Option (Outcome Float))
      → (v : Option (VerificationResult Float)) (run_id : String) (runs : Runs)
        (k : HardKernel Float)
      → k.run_state ≡ runs
      → IsRaised run_id runs (commit_ledger x p sim risk decision reason o v run_id k).1.run_state
  unfolding commit_ledger
  commit_ledger-IsRaised p sim risk decision reason o v run_id runs k e =
      rw e (get_run-IsRaised run_id runs)

  execution-IsRaised :
      (q : Request Float) (p : Proposal) (v : ValidationResult) (sim : SimResult Float)
      → (risk : RiskBreakdown Float) (d : Decision Float) (o : Outcome Float) (k : HardKernel Float)
      → IsRaised q.run_id k.run_state (after_execution F x q p v sim risk d o k).1.run_state
  unfolding after_execution commit_execution
  execution-IsRaised q p v sim risk d o k =
      IsRaised-trans q.run_id _ _ _ (escalate-IsRaised q _ _)
        (commit_ledger-IsRaised _ _ _ _ _ _ _ q.run_id _ _ (tighten_unless-runs _ _ _))

  Course-IsRaised :
      (q : Request Float) (k : HardKernel Float) (w : W)
      (out : StepResult Float × HardKernel Float × W)
      → Course F x q k w out
      → IsRaised q.run_id k.run_state out.1.run_state
  unfolding reject_by_tier reject_by_validation reject_by_decision append_kernel_event
  Course-IsRaised q k w out c =
      IsRaised-trans q.run_id _ _ _ (get_run-IsRaised q.run_id k.run_state)
        (elim c as (λ o _. IsRaised q.run_id (get_run q.run_id k.run_state).0 o.1.run_state) [
          | by_tier reason e ↦ commit_ledger-IsRaised _ _ _ _ _ _ _ q.run_id _ _ refl
          | by_validation e ↦ commit_ledger-IsRaised _ _ _ _ _ _ _ q.run_id _ _ refl
          | by_decision e ↦ commit_ledger-IsRaised _ _ _ _ _ _ _ q.run_id _ _ refl
          | executed e ↦ execution-IsRaised q _ _ _ _ _ _ _
        ])

  -- A step never lowers the tier of its run, raises it to 3 at most, and leaves the tier of every
  -- other run.
  pub kernel_step-IsRaised :
      (q : Request Float) (k : HardKernel Float) (w : W)
      → IsRaised q.run_id k.run_state (kernel_step F x q k w).1.run_state
  kernel_step-IsRaised q k w = Course-IsRaised q k w _ (course F x q k w)
