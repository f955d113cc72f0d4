-- ===== src/Kernel/Step/Safety.antt =====
-- The gates of the kernel: what a step that they stop leaves as it was.
use rfsn_agent_full.Base.{
  is_some, ◌≤◌, ◌≡◌, refl, ◌∙◌, ◌⊎◌, inl, inr, ap, String, true, false, none, List, [], ◌∷◌, arith,
}
use rfsn_agent_full.Base.Float.{Floats}
use rfsn_agent_full.Kernel.Validate.{gate_error, validate}
use rfsn_agent_full.Kernel.State.{record_action}
use rfsn_agent_full.Kernel.Commit.{commit_ledger, append_kernel_event}
use rfsn_agent_full.Kernel.Settle.{Request}
use rfsn_agent_full.Kernel.Core.{HardKernel, Extern, StepResult, commit_phase, approved_in}
use rfsn_agent_full.Kernel.Reject.{reject_by_tier, reject_by_validation, reject_by_decision}
use rfsn_agent_full.Kernel.Step.{after_execution, commit_execution, kernel_step, run_steps}
use rfsn_agent_full.Kernel.RunState.{get_run, tier_of, tier_of-get_run}
use rfsn_agent_full.Kernel.Step.Course.{
  proposal_of, validation_of, Course, by_tier, by_validation, by_decision, executed, IsCleared,
  course,
}

module _ (F : Floats) {W : Type 0} (x : Extern F.Float W) where
  open F use {Float}

  -- A step that was not executed: the world is as it was, the result has no outcome and no approval,
  -- and of the kernel nothing is changed but the ledger, the table of runs and, of its state, the
  -- recent actions.
  pub record IsStopped (k : HardKernel Float) (w : W)
      (out : StepResult Float × HardKernel Float × W) : Type 0 where
    pub world : out.2 ≡ w
    pub outcome : out.0.outcome ≡ none
    pub unapproved : approved_in out.0.decision ≡ false
    pub kernel :
        out.1 ≡ record k { store = out.1.store; run_state = out.1.run_state; state = out.1.state }
    pub state : out.1.state ≡ record k.state { recent_actions = out.1.state.recent_actions }
    pub tiers : (run_id : String) → tier_of run_id out.1.run_state ≡ tier_of run_id k.run_state

  -- The run of a step is entered at the start, and looked up again for the record.
  tiers_entered :
      (q : Request Float) (k : HardKernel Float) (run_id : String)
      → tier_of run_id (get_run q.run_id (get_run q.run_id k.run_state).0).0
        ≡ tier_of run_id k.run_state
  tiers_entered q k run_id =
      tier_of-get_run q.run_id run_id (get_run q.run_id k.run_state).0
      ∙ tier_of-get_run q.run_id run_id k.run_state

  IsStopped-or_executed :
      (q : Request Float) (k : HardKernel Float) (w : W)
      (out : StepResult Float × HardKernel Float × W)
      → Course F x q k w out
      → (IsCleared F x q k
          × (out.0.phase ≡ commit_phase)
          × (out.2 ≡ (x.execute (proposal_of F x q) w).1))
        ⊎ IsStopped k w out
  unfolding reject_by_tier reject_by_validation reject_by_decision after_execution commit_execution
      commit_ledger append_kernel_event record_action
  IsStopped-or_executed q k w out (by_tier reason e) = inr (record {
    world = refl;
    outcome = refl;
    unapproved = refl;
    kernel = refl;
    state = refl;
    tiers = tiers_entered q k;
  })
  IsStopped-or_executed q k w out (by_validation e) = inr (record {
    world = refl;
    outcome = refl;
    unapproved = refl;
    kernel = refl;
    state = refl;
    tiers = tiers_entered q k;
  })
  IsStopped-or_executed q k w out (by_decision e) = inr (record {
    world = refl;
    outcome = refl;
    unapproved = refl;
    kernel = refl;
    state = refl;
    tiers = tiers_entered q k;
  })
  IsStopped-or_executed q k w out (executed h) = inl (h, refl, refl)

  pub kernel_step-IsCleared :
      (q : Request Float) (k : HardKernel Float) (w : W)
      → (IsCleared F x q k
          × ((kernel_step F x q k w).0.phase ≡ commit_phase)
          × ((kernel_step F x q k w).2 ≡ (x.execute (proposal_of F x q) w).1))
        ⊎ IsStopped k w (kernel_step F x q k w)
  kernel_step-IsCleared q k w = IsStopped-or_executed q k w _ (course F x q k w)

  gated :
      (q : Request Float) (k : HardKernel Float)
      → is_some (gate_error (proposal_of F x q) k.state k.policy) ≡ true
      → (validation_of F x q k).ok ≡ false
  unfolding validate
  gated q k h = ground arith

  pub kernel_step-gated :
      (q : Request Float) (k : HardKernel Float) (w : W)
      → is_some (gate_error (proposal_of F x q) k.state k.policy) ≡ true
      → IsStopped k w (kernel_step F x q k w)
  kernel_step-gated q k w h = elim (kernel_step-IsCleared q k w) [
    | inl (cleared, _, _) ↦ absurd (ground (arith, gated q k h, cleared.valid))
    | inr stopped ↦ stopped
  ]

  locked_gate :
      (q : Request Float) (k : HardKernel Float)
      → 2 ≤ k.state.safety_level
      → is_some (gate_error (proposal_of F x q) k.state k.policy) ≡ true
  unfolding gate_error
  locked_gate q k h = ground arith

  -- From a safety level of 2 or more no sequence of steps changes the world, executes a step or
  -- changes the safety level.
  pub run_steps-locked :
      (qs : List (Request Float)) (k : HardKernel Float) (w : W)
      → 2 ≤ k.state.safety_level
      → ((run_steps F x qs k w).1 ≡ w)
        × ((run_steps F x qs k w).0.steps_done ≡ k.steps_done)
        × ((run_steps F x qs k w).0.state.safety_level ≡ k.state.safety_level)
  unfolding run_steps
  run_steps-locked [] k w h = (refl, refl, refl)
  run_steps-locked (q ∷ qs) k w h =
      let stopped = kernel_step-gated q k w (locked_gate q k h) in
      let level_kept = ap (λ s. s.safety_level) stopped.state in
      let (world, done, level) =
        run_steps-locked qs (kernel_step F x q k w).1 (kernel_step F x q k w).2
          (rw (level_kept) h) in
      (world ∙ stopped.world, done ∙ ap (λ h. h.steps_done) stopped.kernel, level ∙ level_kept)
