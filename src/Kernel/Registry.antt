-- ===== src/Kernel/Registry.antt =====
-- rfsn_kernel/tool_registry.py: the canonical tools. The descriptions, which only people read, are
-- left out; `max_input_size` and the two path flags have their defaults at every tool.
use rfsn_agent_full.Base.{
  is_some, String, Bool, true, false, not, Option, none, some, List, [], ◌∷◌,
}
use rfsn_agent_full.Base.Dict.{Dict, get}

pub data RiskLevel : Type 0 where
  low medium high : RiskLevel

-- `ToolSpec`
pub record ToolSpec : Type 0 where
  pub name : String
  pub safe : Bool
  pub enabled : Bool
  pub risk_level : RiskLevel
  pub requires_sandbox : Bool
  pub requires_patch_gate : Bool
  pub allowed_params : List String

abbrev spec : String → Bool → Bool → RiskLevel → Bool → Bool → List String → ToolSpec
spec name safe enabled risk_level sandbox gate params = record {
  name = name;
  safe = safe;
  enabled = enabled;
  risk_level = risk_level;
  requires_sandbox = sandbox;
  requires_patch_gate = gate;
  allowed_params = params;
}

-- `CANONICAL_TOOLS`
abbrev pub canonical_tools : Dict ToolSpec
canonical_tools =
    (
      "repo_search",
      spec "repo_search" true true low false false
          ("pattern" ∷ "timeout_s" ∷ "max_results" ∷ "path_glob" ∷ []),
    )
    ∷ (
      "repo_read_range",
      spec "repo_read_range" true true low false false
          ("path" ∷ "line_start" ∷ "line_end" ∷ "timeout_s" ∷ []),
    )
    ∷ ("read_file", spec "read_file" true true low false false ("path" ∷ "timeout_s" ∷ []))
    ∷ (
      "list_files",
      spec "list_files" true true low false false ("path" ∷ "glob" ∷ "max_results" ∷ []),
    )
    ∷ (
      "detect_project",
      spec "detect_project" true true low false false ("path" ∷ "timeout_s" ∷ []),
    )
    ∷ (
      "detect_workdirs",
      spec "detect_workdirs" true true low false false ("max_depth" ∷ "timeout_s" ∷ []),
    )
    ∷ ("apply_patch", spec "apply_patch" true true high false true ("patch" ∷ "timeout_s" ∷ []))
    ∷ (
      "apply_semantic_patch",
      spec "apply_semantic_patch" true false high false true
          ("path" ∷ "search" ∷ "replace" ∷ "timeout_s" ∷ []),
    )
    ∷ (
      "run_tests",
      spec "run_tests" true true medium true false
          ("template_id" ∷ "template_params" ∷ "workdir_id" ∷ "timeout_s" ∷ []),
    )
    ∷ (
      "run_cmd_template",
      spec "run_cmd_template" true true medium true false
          ("template" ∷ "workdir_id" ∷ "timeout_s" ∷ "env" ∷ []),
    )
    ∷ (
      "format_fix",
      spec "format_fix" true true low false false ("template" ∷ "workdir_id" ∷ "timeout_s" ∷ []),
    )
    ∷ (
      "ensure_deps",
      spec "ensure_deps" true true medium false false
          ("manifest" ∷ "workdir_id" ∷ "timeout_s" ∷ []),
    )
    ∷ (
      "generate_repo_map",
      spec "generate_repo_map" true true low false false
          ("path" ∷ "max_depth" ∷ "include_globs" ∷ []),
    )
    ∷ (
      "trace_execution",
      spec "trace_execution" false false high true false
          ("path" ∷ "entry_point" ∷ "args" ∷ "timeout_s" ∷ []),
    )
    ∷ []

unfoldable pub spec_of : String → Option ToolSpec
unfolding get
spec_of = get canonical_tools

abbrev spec_test : (ToolSpec → Bool) → Option ToolSpec → Bool
spec_test f none = false
spec_test f (some s) = f s

-- `proposal.action in VALID_ACTIONS`
unfoldable pub is_valid_action : String → Bool
is_valid_action a = is_some (spec_of a)

-- `proposal.action in _DISABLED_TOOLS`
unfoldable pub is_disabled : String → Bool
is_disabled a = spec_test (λ s. not s.enabled) (spec_of a)

-- `proposal.action in _UNSAFE_TOOLS`
unfoldable pub is_unsafe : String → Bool
is_unsafe a = spec_test (λ s. not s.safe) (spec_of a)
