-- ===== src/Kernel/Normalize.antt =====
-- rfsn_kernel/normalize.py: from the planner's raw step to a proposal. The planner's hash, a digest
-- of the raw step's JSON text, is a parameter. The step's id is passed through and left out here.
use rfsn_agent_full.Base.{
  if◌then◌else◌, any, String, ◌≡◌, false, Option, none, some, List, [], str_eq,
}
use rfsn_agent_full.Base.Text.{Text}
use rfsn_agent_full.Kernel.State.{Params, Proposal}
use rfsn_agent_full.Kernel.Tier.{Step}
use rfsn_agent_full.Kernel.Registry.{ToolSpec, spec_of}

-- A raw step: its type, the keys that a tool may take, and the two lists that only the tier gate
-- reads.
pub record RawStep : Type 0 where
  pub type_of : String
  pub fields : Params
  pub paths : List Text
  pub files : List Text

-- The step as the tier gate reads it.
abbrev pub gate_view : RawStep → Step
gate_view raw = record {
  type_of = raw.type_of;
  path = raw.fields.path;
  paths = raw.paths;
  files = raw.files;
  patch = raw.fields.patch;
}

abbrev params_of : Option ToolSpec → List String
params_of none = []
params_of (some s) = s.allowed_params

-- `_ALLOWED_PARAMS.get(action, set())`
unfoldable pub allowed_params_of : String → List String
allowed_params_of action = params_of (spec_of action)

abbrev pub keep {ℓ} : {A : Type ℓ} → List String → String → Option A → Option A
keep allowed k v = if any (λ a. str_eq a k) allowed then v else none

abbrev pub strip_params : List String → Params → Params
strip_params allowed q = record {
  pattern = keep allowed "pattern" q.pattern;
  path = keep allowed "path" q.path;
  line_start = keep allowed "line_start" q.line_start;
  line_end = keep allowed "line_end" q.line_end;
  max_depth = keep allowed "max_depth" q.max_depth;
  patch = keep allowed "patch" q.patch;
  template_id = keep allowed "template_id" q.template_id;
  template = keep allowed "template" q.template;
  workdir_id = keep allowed "workdir_id" q.workdir_id;
  timeout_s = keep allowed "timeout_s" q.timeout_s;
}

unfoldable pub normalize : (RawStep → String) → RawStep → String → String → String → Proposal
normalize planner_hash_of raw intent context_hash bundle_id = record {
  action = raw.type_of;
  params = strip_params (allowed_params_of raw.type_of) raw.fields;
  context_hash = context_hash;
  planner_hash = planner_hash_of raw;
  intent = intent;
  bundle_id = bundle_id;
}

-- Only a tool whose registry entry takes a patch can carry one past normalization: any other step's
-- patch is gone, whatever the planner wrote.
pub normalize-patch :
    (h : RawStep → String) (raw : RawStep) (intent ctx bundle : String)
    → any (λ a. str_eq a "patch") (allowed_params_of raw.type_of) ≡ false
    → (normalize h raw intent ctx bundle).params.patch ≡ none
unfolding normalize
normalize-patch h raw intent ctx bundle e = rw e
