-- ===== src/Tests/KernelSteps.antt =====
-- The steps of the kernel on concrete inputs.
use rfsn_agent_full.Base.{ℕ, ◌≤◌, ◌≡◌, refl, true, [], ◌∷◌, arith}
use rfsn_agent_full.Base.Dict.{get}
use rfsn_agent_full.Base.Float.{min_float, max_float}
use rfsn_agent_full.Ledger.{verify_chain, verify_from}
use rfsn_agent_full.Kernel.Control.{new_kernel, default_tier_policy}
use rfsn_agent_full.Kernel.Guard.{tier_rejection}
use rfsn_agent_full.Kernel.Normalize.{normalize, allowed_params_of}
use rfsn_agent_full.Kernel.Registry.{is_valid_action, is_disabled, is_unsafe, spec_of}
use rfsn_agent_full.Kernel.RunState.{get_run}
use rfsn_agent_full.Kernel.Tier.{tier_allows_step, first_forbidden, step_touches, dedupe}
use rfsn_agent_full.Kernel.Validate.{gate_error, validate, action_errors}
use rfsn_agent_full.Kernel.Simulate.{
  simulate, success_prob_of, predict_failure_mode, estimate_cost, detect_drift, detect_loop,
}
use rfsn_agent_full.Kernel.Simulate.History.{lookup}
use rfsn_agent_full.Kernel.Settle.{priors_of}
use rfsn_agent_full.Kernel.Risk.{risk_score}
use rfsn_agent_full.Kernel.Decide.{decide}
use rfsn_agent_full.Kernel.Step.{kernel_step, decide_and_execute, run_steps}
use rfsn_agent_full.Kernel.Step.Course.{proposal_of}
use rfsn_agent_full.Kernel.Step.Safety.{IsStopped, run_steps-locked}
use rfsn_agent_full.Kernel.Step.Bounds.{IsBounded, run_steps-IsBounded}
use rfsn_agent_full.Kernel.Step.Audit.{IsLogged, run_steps-IsLogged}
use rfsn_agent_full.Kernel.Step.Synced.{run_steps-verify_chain}
use rfsn_agent_full.Kernel.Step.Tiers.{IsRaised, kernel_step-IsRaised}
use rfsn_agent_full.Kernel.Step.Loop.{kernel_step-repeats}
use rfsn_agent_full.Kernel.Core.{HardKernel}
use rfsn_agent_full.Kernel.Simulate.Loop.{repeats}
use rfsn_agent_full.Kernel.Policy.{loop_max_of}
use rfsn_agent_full.Tests.Fixtures.{
  decimals, listing, kernel, locked_kernel, search_step, unknown_step, request, no_policy,
}

-- The search passes every gate and is executed.
search_runs : (kernel_step decimals listing (request search_step) kernel []).2 ≡ "repo_search" ∷ []
unfolding kernel_step tier_rejection new_kernel get_run get tier_allows_step first_forbidden
    step_touches dedupe validate gate_error is_valid_action spec_of normalize is_disabled is_unsafe
    action_errors allowed_params_of decide_and_execute simulate success_prob_of predict_failure_mode
    estimate_cost detect_drift detect_loop lookup priors_of risk_score decide min_float max_float
search_runs = refl

run_steps-locked_example :
    ((run_steps decimals listing
        (request search_step ∷ request unknown_step ∷ [])
        locked_kernel
        []).1
      ≡ [])
    × ((run_steps decimals listing
          (request search_step ∷ request unknown_step ∷ [])
          locked_kernel
          []).0.steps_done
        ≡ locked_kernel.steps_done)
    × ((run_steps decimals listing
          (request search_step ∷ request unknown_step ∷ [])
          locked_kernel
          []).0.state.safety_level
        ≡ locked_kernel.state.safety_level)
run_steps-locked_example =
    run_steps-locked decimals listing (request search_step ∷ request unknown_step ∷ [])
      locked_kernel [] (omega arith)

kernel-IsBounded : IsBounded decimals listing kernel
unfolding new_kernel
kernel-IsBounded = record {
  failures = omega arith;
  window = omega arith;
  safety = omega arith;
  budget = omega arith;
}

run_steps-IsBounded_example :
    IsBounded decimals listing
      (run_steps decimals listing (request search_step ∷ request search_step ∷ []) kernel []).0
run_steps-IsBounded_example =
    run_steps-IsBounded decimals listing (request search_step ∷ request search_step ∷ []) kernel []
      kernel-IsBounded

run_steps-IsLogged_example :
    IsLogged decimals listing 2 kernel
      (run_steps decimals listing (request search_step ∷ request unknown_step ∷ []) kernel []).0
run_steps-IsLogged_example =
    run_steps-IsLogged decimals listing (request search_step ∷ request unknown_step ∷ []) kernel []

run_steps-verify_chain_example :
    (verify_chain listing.sha256 listing.canon
      (run_steps decimals listing
        (request search_step ∷ request unknown_step ∷ [])
        (new_kernel decimals no_policy default_tier_policy [])
        []).0.store.1).ok
    ≡ true
run_steps-verify_chain_example =
    run_steps-verify_chain decimals listing (λ _. refl) no_policy default_tier_policy []
      (request search_step ∷ request unknown_step ∷ []) [] (unfold verify_chain verify_from in refl)

kernel_step-IsRaised_example :
    IsRaised decimals listing "r1" kernel.run_state
      (kernel_step decimals listing (request search_step) kernel []).1.run_state
kernel_step-IsRaised_example = kernel_step-IsRaised decimals listing (request search_step) kernel []

-- The kernel after four searches in a row.
abbrev looping_kernel : HardKernel ℕ
looping_kernel = record kernel {
  state = record kernel.state {
    recent_actions = "repo_search" ∷ "repo_search" ∷ "repo_search" ∷ "repo_search" ∷ [];
  };
}

loop_max_is_lower : decimals.gtb (decimals.dec 95 2) (loop_max_of decimals kernel.policy) ≡ true
unfolding new_kernel
loop_max_is_lower = refl

search_repeats :
    4
    ≤ repeats decimals
        (proposal_of decimals listing (request search_step)).action
        looping_kernel.state
unfolding normalize
search_repeats = omega arith

kernel_step-repeats_example :
    IsStopped decimals listing looping_kernel []
      (kernel_step decimals listing (request search_step) looping_kernel [])
kernel_step-repeats_example =
    kernel_step-repeats decimals listing (request search_step) looping_kernel [] refl
      loop_max_is_lower search_repeats
