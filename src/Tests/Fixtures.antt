-- ===== src/Tests/Fixtures.antt =====
-- Concrete parameters and data for the witnesses and the tests.
use rfsn_agent_full.Base.{
  ltb, leb, ℕ, ◌+◌, ◌-◌, ◌*◌, ◌/◌, ◌^◌, String, Bool, true, false, ◌&&◌, none, some, List, [], ◌∷◌,
  str_eq,
}
use rfsn_agent_full.Base.Float.{Floats}
use rfsn_agent_full.Base.Int.{pos}
use rfsn_agent_full.Base.Text.{Unicode, codes, eq_text}
use rfsn_agent_full.Ledger.{zeros}
use rfsn_agent_full.Kernel.Policy.{Policy}
use rfsn_agent_full.Kernel.State.{Params, Outcome}
use rfsn_agent_full.Kernel.Normalize.{RawStep}
use rfsn_agent_full.Kernel.Settle.{Request}
use rfsn_agent_full.Kernel.Core.{HardKernel, Extern, returned, raised, Execution}
use rfsn_agent_full.Kernel.Control.{new_kernel, default_tier_policy}

-- Numbers with four decimals.
abbrev pub decimals : Floats
decimals = record {
  Float = ℕ;
  dec = λ n d. n * 10000 / 10 ^ d;
  add = λ a b. a + b;
  sub = λ a b. a - b;
  mul = λ a b. a * b / 10000;
  div = λ a b. a * 10000 / b;
  gtb = λ a b. ltb b a;
  lte = λ a b. leb a b;
  round4 = λ a. a;
}

abbrev pub ascii : Unicode
ascii = record {
  lower = λ t. t;
  fold_case = λ t. t;
  is_decimal = λ c. leb 48 c && leb c 57;
  is_word = λ c. leb 97 c && leb c 122;
}

abbrev pub succeeded : Outcome ℕ
succeeded = record {
  success = true;
  exit_code = pos 0;
  payload = [];
  logs = codes "ok";
  duration_sec = 10000;
  error = none;
  state_delta_hash = "";
}

-- A world that lists the actions that were executed; `run_tests` raises.
abbrev pub end_of : Bool → Execution ℕ
end_of true = raised (codes "tests failed")
end_of false = returned succeeded

abbrev pub listing : Extern ℕ (List String)
listing = record {
  sha256 = λ _. zeros;
  canon = λ b. b.decision;
  sign = λ _ m. m;
  event_text = λ _. "event";
  proposal_text = λ p. p.action;
  state_text = λ _. "state";
  outcome_text = λ _. "outcome";
  planner_hash_of = λ r. r.type_of;
  unicode = ascii;
  fnmatch = eq_text;
  failure_kind_of = λ _. none;
  now = 0;
  execute = λ p w. (end_of (str_eq p.action "run_tests"), p.action ∷ w);
}

abbrev pub no_params : Params
no_params = record {
  pattern = none;
  path = none;
  line_start = none;
  line_end = none;
  max_depth = none;
  patch = none;
  template_id = none;
  template = none;
  workdir_id = none;
  timeout_s = none;
}

abbrev pub no_policy : Policy ℕ
no_policy = record {
  risk_max = none;
  success_min = none;
  loop_max = none;
  drift_max = none;
  w_exec = none;
  w_env = none;
  w_unc = none;
  w_cost = none;
  w_loop = none;
  risk_lambda = none;
  max_step_duration = none;
  max_total_cost = none;
  rng_seed = none;
  policy_hash = none;
  max_safety_level = none;
  fail_cluster_threshold = none;
  history_max = none;
  max_total_steps = none;
  max_lines_per_read = none;
  max_patch_files = none;
  max_patch_total_lines = none;
  max_added_lines = none;
  max_deleted_lines = none;
  forbid_test_edits = false;
  forbid_ci_edits = false;
  forbid_dep_manifest_edits = false;
  allow_unsafe_tools = [];
  blocked_read_prefixes = [];
  blocked_read_suffixes = [];
  allowed_test_templates = [];
  allowed_command_templates = [];
}

abbrev pub search_step : RawStep
search_step = record {
  type_of = "repo_search";
  fields = record no_params { pattern = some (codes "todo") };
  paths = [];
  files = [];
}

abbrev pub unknown_step : RawStep
unknown_step = record search_step { type_of = "format_disk" }

abbrev pub request : RawStep → Request ℕ
request raw = record {
  raw_step = raw;
  context = "ctx";
  intent = "";
  bundle_id = "";
  run_id = "r1";
  evidence = none;
}

abbrev pub kernel : HardKernel ℕ
kernel = new_kernel decimals no_policy default_tier_policy []

abbrev pub locked_kernel : HardKernel ℕ
locked_kernel = record kernel { state = record kernel.state { safety_level = 2 } }
