-- ===== src/Kernel/Step/Bounds.antt =====
-- The bounds that the kernel keeps on its own counters.
use rfsn_agent_full.Base.{
  Bool-cases, if_both, length, ℕ, ◌+◌, ◌≤◌, ◌<◌, String, ◌≡◌, refl, inl, inr, Bool, true, false,
  List, [], ◌∷◌, arith,
}
use rfsn_agent_full.Base.Float.{Floats}
use rfsn_agent_full.Kernel.Policy.{Policy, get_or}
use rfsn_agent_full.Kernel.State.{
  Proposal, Outcome, SystemState, record_action, record_success, record_failure, advance_step,
  record_action_window,
}
use rfsn_agent_full.Kernel.Simulate.{SimResult}
use rfsn_agent_full.Kernel.Validate.{gate_error, validate}
use rfsn_agent_full.Kernel.Verify.{Violation, is_failure_cluster}
use rfsn_agent_full.Kernel.Commit.{commit_ledger, append_kernel_event}
use rfsn_agent_full.Kernel.Settle.{
  Request, outcome_of, escalate, note_escalation, tighten_unless, tighten_for, adaptive_tighten,
  settle_state, count_failures,
}
use rfsn_agent_full.Kernel.Core.{EventMeta, HardKernel, Extern, StepResult}
use rfsn_agent_full.Kernel.Reject.{reject_by_tier, reject_by_validation, reject_by_decision}
use rfsn_agent_full.Kernel.Step.{after_execution, commit_execution, kernel_step, run_steps}
use rfsn_agent_full.Kernel.Step.Course.{
  proposal_of, sim_of, validation_of, Course, by_tier, by_validation, by_decision, executed, course,
}

module _ (F : Floats) {W : Type 0} (x : Extern F.Float W) where
  open F use {Float}

  abbrev pub budget_of : Policy Float → ℕ
  budget_of policy = get_or policy.max_total_steps 100

  -- Fewer than three failures in a row are pending, the window has at most twenty actions, the
  -- safety level is at most 2, and the steps are within the policy's budget.
  pub record IsBounded (k : HardKernel Float) : Type 0 where
    pub failures : k.consecutive_failures ≤ 2
    pub window : length k.state.recent_actions ≤ 20
    pub safety : k.state.safety_level ≤ 2
    pub budget : k.state.step_count ≤ budget_of k.policy

  note_escalation-IsBounded :
      (b : Bool) (e : EventMeta Float) (k : HardKernel Float)
      → IsBounded k
      → IsBounded (note_escalation x b e k)
  unfolding note_escalation append_kernel_event
  note_escalation-IsBounded true e k h = h
  note_escalation-IsBounded false e k h = record {
    failures = h.failures;
    window = h.window;
    safety = h.safety;
    budget = h.budget;
  }

  escalate-IsBounded :
      (q : Request Float) (kinds : List String) (k : HardKernel Float)
      → IsBounded k
      → IsBounded (escalate x q kinds k)
  unfolding escalate
  escalate-IsBounded q kinds k h =
      note_escalation-IsBounded _ _ _
        (record { failures = h.failures; window = h.window; safety = h.safety; budget = h.budget })

  adaptive_tighten-IsBounded :
      (k : HardKernel Float) → IsBounded k → IsBounded (adaptive_tighten F k)
  unfolding adaptive_tighten
  adaptive_tighten-IsBounded k h = record {
    failures = h.failures;
    window = h.window;
    safety = omega arith;
    budget = h.budget;
  }

  tighten_for-IsBounded :
      (vs : List (Violation Float)) (k : HardKernel Float)
      → IsBounded k
      → IsBounded (tighten_for F vs k)
  unfolding tighten_for
  tighten_for-IsBounded [] k h = h
  tighten_for-IsBounded (v ∷ vs) k h =
      tighten_for-IsBounded vs _
        (if_both IsBounded (is_failure_cluster v) (adaptive_tighten-IsBounded k h) h)

  tighten_unless-IsBounded :
      (b : Bool) (vs : List (Violation Float)) (k : HardKernel Float)
      → IsBounded k
      → IsBounded (tighten_unless F b vs k)
  unfolding tighten_unless
  tighten_unless-IsBounded true vs k h = h
  tighten_unless-IsBounded false vs k h = tighten_for-IsBounded vs k h

  -- An executed step was below the budget.
  below_budget :
      (q : Request Float) (k : HardKernel Float)
      → (validation_of F x q k).ok ≡ true
      → k.state.step_count < budget_of k.policy
  unfolding validate gate_error
  below_budget q k h = ground arith

  count_failures-le : (b : Bool) (n : ℕ) → n ≤ 2 → (count_failures b n).0 ≤ 2
  unfolding count_failures
  count_failures-le b n h = ground arith

  settle_state-window :
      (p : Proposal) (sim : SimResult Float) (o : Outcome Float) (s : SystemState Float)
      → (length (settle_state F p sim o s).recent_actions ≤ 20)
        × ((settle_state F p sim o s).safety_level ≡ s.safety_level)
        × ((settle_state F p sim o s).step_count ≡ s.step_count + 1)
  unfolding settle_state record_success record_failure record_action advance_step
  settle_state-window p sim o s = elim (Bool-cases o.success) [
    | inl e ↦ rw e (record_action_window p.action s, refl, refl)
    | inr e ↦ rw e (record_action_window p.action s, refl, refl)
  ]

  Course-IsBounded :
      (q : Request Float) (k : HardKernel Float) (w : W)
      (out : StepResult Float × HardKernel Float × W)
      → Course F x q k w out
      → IsBounded k
      → IsBounded out.1
  unfolding reject_by_tier reject_by_validation reject_by_decision after_execution commit_execution
      commit_ledger append_kernel_event record_action
  Course-IsBounded q k w out (by_tier reason e) h = record {
    failures = h.failures;
    window = h.window;
    safety = h.safety;
    budget = h.budget;
  }
  Course-IsBounded q k w out (by_validation e) h = record {
    failures = h.failures;
    window = h.window;
    safety = h.safety;
    budget = h.budget;
  }
  Course-IsBounded q k w out (by_decision e) h = record {
    failures = h.failures;
    window = record_action_window (proposal_of F x q).action k.state;
    safety = h.safety;
    budget = h.budget;
  }
  Course-IsBounded q k w out (executed c) h =
      let o = outcome_of F (x.execute (proposal_of F x q) w).0 in
      let (window, safety, steps) =
        settle_state-window (proposal_of F x q) (sim_of F x q k) o k.state in
      let b = tighten_unless-IsBounded _ _ _ (
        escalate-IsBounded q _ _ (record {
          failures = count_failures-le o.success k.consecutive_failures h.failures;
          window = window;
          safety = rw safety h.safety;
          budget = omega (arith, steps, below_budget q k c.valid);
        })) in
      record { failures = b.failures; window = b.window; safety = b.safety; budget = b.budget }

  -- Every step keeps the bounds.
  pub kernel_step-IsBounded :
      (q : Request Float) (k : HardKernel Float) (w : W)
      → IsBounded k
      → IsBounded (kernel_step F x q k w).1
  kernel_step-IsBounded q k w = Course-IsBounded q k w _ (course F x q k w)

  -- Whatever steps are asked for, a kernel that is within its bounds keeps them: fewer than three pending failures, at
  -- most twenty recent actions, a safety level of at most 2, and no more steps than the budget of its
  -- policy.
  pub run_steps-IsBounded :
      (qs : List (Request Float)) (k : HardKernel Float) (w : W)
      → IsBounded k
      → IsBounded (run_steps F x qs k w).0
  unfolding run_steps
  run_steps-IsBounded [] k w h = h
  run_steps-IsBounded (q ∷ qs) k w h = run_steps-IsBounded qs _ _ (kernel_step-IsBounded q k w h)
