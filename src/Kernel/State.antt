-- ===== src/Kernel/State.antt =====
-- rfsn_kernel/state.py: proposals, the state of the kernel, and the outcomes of executions.
--
-- A proposal's parameters are those that the kernel reads, `none` where the key is missing; texts
-- that are looked into are lists of code points. Times are left to the caller.
use rfsn_agent_full.Base.{
  ltb, if◌then◌else◌, length, last_n, length-last_n, ℕ, ◌+◌, ◌-◌, ◌≤◌, String, Bool, Option, none,
  some, List, [], ◌∷◌, ◌++◌, arith,
}
use rfsn_agent_full.Base.Int.{ℤ}
use rfsn_agent_full.Base.Text.{Text}
use rfsn_agent_full.Base.Dict.{Dict}

pub record Params : Type 0 where
  pub pattern : Option Text
  pub path : Option Text
  pub line_start : Option ℤ
  pub line_end : Option ℤ
  pub max_depth : Option ℤ
  pub patch : Option Text
  pub template_id : Option String
  pub template : Option Text
  pub workdir_id : Option Text
  pub timeout_s : Option ℕ

-- `Proposal`
pub record Proposal : Type 0 where
  pub action : String
  pub params : Params
  pub context_hash : String
  pub planner_hash : String
  pub intent : String
  pub bundle_id : String

-- `proposal.params.get("patch", "") or ""`
abbrev pub text_or_empty : Option Text → Text
text_or_empty none = []
text_or_empty (some t) = t

-- `Outcome`
pub record Outcome (Float : Type 0) : Type 0 where
  pub success : Bool
  pub exit_code : ℤ
  pub payload : Text
  pub logs : Text
  pub duration_sec : Float
  pub error : Option Text
  pub state_delta_hash : String

-- `SystemState`
pub record SystemState (Float : Type 0) : Type 0 where
  pub memory_version : String
  pub env_hash : String
  pub rng_seed : ℤ
  pub safety_level : ℕ
  pub resource_state : Dict String
  pub step_count : ℕ
  pub iter_count : ℕ
  pub total_cost : Float
  pub recent_failures : ℕ
  pub recent_actions : List String
  pub drift_variance : Float
  pub policy_hash : String

module _ {Float : Type 0} where
  -- `record_action`, with its default `max_history`
  unfoldable pub record_action : String → SystemState Float → SystemState Float
  record_action action s =
      let actions = s.recent_actions ++ action ∷ [] in
      record s { recent_actions = if ltb 20 (length actions) then last_n 20 actions else actions }

  unfoldable pub record_failure : SystemState Float → SystemState Float
  record_failure s = record s { recent_failures = s.recent_failures + 1 }

  -- `max(0, n - 1)` is the subtraction that stops at 0.
  unfoldable pub record_success : SystemState Float → SystemState Float
  record_success s = record s { recent_failures = s.recent_failures - 1 }

  unfoldable pub advance_step : SystemState Float → SystemState Float
  advance_step s = record s { step_count = s.step_count + 1 }

  -- The window of recent actions never holds more than twenty.
  pub record_action_window :
      (a : String) (s : SystemState Float) → length (record_action a s).recent_actions ≤ 20
  unfolding record_action
  record_action_window a s = ground (arith, length-last_n 20 (s.recent_actions ++ a ∷ []))
