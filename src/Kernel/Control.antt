-- ===== src/Kernel/Control.antt =====
-- rfsn_kernel/kernel.py: how a kernel starts, and what is done to it between the steps.
use rfsn_agent_full.Base.{if◌then◌else◌, ◌+◌, String, Bool, true, false, Option, List, [], ◌∷◌}
use rfsn_agent_full.Base.Float.{Floats}
use rfsn_agent_full.Base.Int.{ℤ, pos}
use rfsn_agent_full.Base.Text.{codes}
use rfsn_agent_full.Kernel.Guard.{no_budgets}
use rfsn_agent_full.Ledger.{Line, init}
use rfsn_agent_full.Kernel.Policy.{Policy, get_or}
use rfsn_agent_full.Kernel.State.{SystemState}
use rfsn_agent_full.Kernel.Simulate.History.{OutcomeHistory}
use rfsn_agent_full.Kernel.RunState.{get_run, set_run, clear}
use rfsn_agent_full.Kernel.Core.{Content, Meta, TierPolicy, HardKernel}

-- `_DEFAULT_TIER_POLICY`
abbrev pub default_tier_policy : TierPolicy
default_tier_policy = record {
  tiers =
      (
        0,
        record {
          budgets = no_budgets;
          allow = record { edit_tests = false; edit_deps = false; edit_ci = false };
        },
      )
      ∷ (
        1,
        record {
          budgets = no_budgets;
          allow = record { edit_tests = true; edit_deps = false; edit_ci = false };
        },
      )
      ∷ (
        2,
        record {
          budgets = no_budgets;
          allow = record { edit_tests = true; edit_deps = true; edit_ci = false };
        },
      )
      ∷ (
        3,
        record {
          budgets = no_budgets;
          allow = record { edit_tests = true; edit_deps = true; edit_ci = true };
        },
      )
      ∷ [];
  classifiers = record {
    tests_globs = codes "**/tests/**" ∷ [];
    deps_globs = codes "**/requirements.txt" ∷ codes "**/pyproject.toml" ∷ [];
    ci_globs = codes "**/.github/workflows/**" ∷ [];
  };
  rules = record {
    to_tier_1 = "tests_failed" ∷ [];
    to_tier_2 =
        "deps_install_failed" ∷ "import_error_missing_module" ∷ "build_system_missing_dependency"
        ∷ [];
    to_tier_3 = "ci_failed" ∷ "ci_config_invalid" ∷ "ci_env_mismatch" ∷ [];
  };
}

module _ (F : Floats) where
  open F use {Float, dec}

  -- A new `SystemState`.
  abbrev fresh_state : ℤ → String → SystemState Float
  fresh_state seed policy_hash = record {
    memory_version = "0";
    env_hash = "";
    rng_seed = seed;
    safety_level = 0;
    resource_state = [];
    step_count = 0;
    iter_count = 0;
    total_cost = dec 0 0;
    recent_failures = 0;
    recent_actions = [];
    drift_variance = dec 0 0;
    policy_hash = policy_hash;
  }

  fresh_history : Policy Float → OutcomeHistory Float
  fresh_history policy = record { max_entries = get_or policy.history_max 500; stats = [] }

  -- `HardKernel.__init__`, on the file that the ledger finds and the tier policy that was loaded.
  unfoldable pub new_kernel :
      Policy Float → TierPolicy → List (Line (Content Float) (Meta Float)) → HardKernel Float
  unfolding fresh_history
  new_kernel policy tier_policy file = record {
    policy = policy;
    store = (init file, file);
    history = fresh_history policy;
    state = fresh_state (get_or policy.rng_seed (pos 42)) (get_or policy.policy_hash "");
    tier_policy = tier_policy;
    run_state = [];
    steps_done = 0;
    consecutive_failures = 0;
  }

  -- `reset_for_run`: `consecutive_failures` and the policy stay.
  unfoldable pub reset_for_run :
      String
      → Option ℤ
      → String
      → String
      → Option String
      → Bool
      → HardKernel Float
      → HardKernel Float
  unfolding fresh_history
  reset_for_run run_id seed env_hash memory_version policy_hash reset_history k =
      let rng_seed = get_or seed (get_or k.policy.rng_seed (pos 42)) in
      let fresh = fresh_state rng_seed (get_or policy_hash (get_or k.policy.policy_hash "")) in
      let (runs, rs) = get_run run_id k.run_state in
      record k {
        state = record fresh {
          memory_version = memory_version;
          env_hash = env_hash;
          resource_state = ("run_id", run_id) ∷ [];
        };
        history = if reset_history then fresh_history k.policy else k.history;
        run_state = set_run run_id (record rs { tier = 0; failure_kinds = [] }) runs;
      }

  -- `reset_for_iteration`
  unfoldable pub reset_for_iteration : HardKernel Float → HardKernel Float
  reset_for_iteration k = record k {
    state = record k.state { iter_count = k.state.iter_count + 1; recent_actions = [] };
  }

  -- `end_run`
  unfoldable pub end_run : String → HardKernel Float → HardKernel Float
  end_run run_id k = record k { run_state = clear run_id k.run_state }
