-- ===== src/Kernel/Policy.antt =====
-- The policy dictionary of the kernel: a field for each key that the modelled code reads, `none`
-- where the key is missing. The accessors have the defaults of the code.
use rfsn_agent_full.Base.{ℕ, String, Bool, Option, none, some, List}
use rfsn_agent_full.Base.Float.{Floats}
use rfsn_agent_full.Base.Int.{ℤ}
use rfsn_agent_full.Base.Text.{Text}

pub record Policy (Float : Type 0) : Type 0 where
  pub risk_max : Option Float
  pub success_min : Option Float
  pub loop_max : Option Float
  pub drift_max : Option Float
  pub w_exec : Option Float
  pub w_env : Option Float
  pub w_unc : Option Float
  pub w_cost : Option Float
  pub w_loop : Option Float
  pub risk_lambda : Option Float
  pub max_step_duration : Option Float
  pub max_total_cost : Option Float
  pub rng_seed : Option ℤ
  pub policy_hash : Option String
  pub max_safety_level : Option ℕ
  pub fail_cluster_threshold : Option ℕ
  pub history_max : Option ℕ
  pub max_total_steps : Option ℕ
  pub max_lines_per_read : Option ℕ
  pub max_patch_files : Option ℕ
  pub max_patch_total_lines : Option ℕ
  pub max_added_lines : Option ℕ
  pub max_deleted_lines : Option ℕ
  pub forbid_test_edits : Bool
  pub forbid_ci_edits : Bool
  pub forbid_dep_manifest_edits : Bool
  pub allow_unsafe_tools : List String
  pub blocked_read_prefixes : List Text
  pub blocked_read_suffixes : List Text
  pub allowed_test_templates : List String
  pub allowed_command_templates : List Text

-- `policy.get(key, default)`
abbrev pub get_or {ℓ} : {A : Type ℓ} → Option A → A → A
get_or none d = d
get_or (some a) d = a

module _ (F : Floats) where
  open F use {Float, dec}

  abbrev pub risk_max_of : Policy Float → Float
  risk_max_of p = get_or p.risk_max (dec 65 2)

  abbrev pub success_min_of : Policy Float → Float
  success_min_of p = get_or p.success_min (dec 15 2)

  abbrev pub loop_max_of : Policy Float → Float
  loop_max_of p = get_or p.loop_max (dec 8 1)

  abbrev pub drift_max_of : Policy Float → Float
  drift_max_of p = get_or p.drift_max (dec 85 2)
