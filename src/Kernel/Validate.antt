-- ===== src/Kernel/Validate.antt =====
-- rfsn_kernel/validate.py: the hard bounds on a proposal. An error is its code; the message text is
-- left out. The lower case, the folding of `re.IGNORECASE` and the decimal digits of Unicode are
-- parameters.
pub mod Patch
use rfsn_agent_full.Base.{
  ltb, leb, ◌==◌, if◌then◌else◌, ltb→lt, lt→ltb, leb→le, bool_tests, Bool-cases, Option-cases,
  is_some, str_eq_of, of_str_eq, &&_true, length, get_elem?, take, drop, last_n, any, all, All,
  length-append, length-drop, length-take-le, length-last_n, All-append, get_elem?-append_left,
  get_elem?-append_length, get_elem?-take, length-take, get_elem?-none, get_elem?-some, ℕ, zero,
  suc, ◌+◌, ◌-◌, ◌*◌, ◌/◌, ◌%◌, ◌^◌, ◌≤◌, ◌<◌, min, max, String, ◌≡◌, refl, sym, ap, ◌∙◌, ◌≢◌, ◌↔◌,
  ◌⊎◌, inl, inr, Bool, true, false, not, ◌&&◌, ◌||◌, Option, none, some, List, [], ◌∷◌, ◌++◌, map,
  arith, str_eq, eq_iff, eq_refl,
}
use rfsn_agent_full.Base.Int.{ℤ, pos, negsuc, pos_part, neg_part}
use rfsn_agent_full.Base.Text.{
  Text, codes, starts_with, ends_with, has_sub, eq_text, strip, drop_text, mem_text,
}
use rfsn_agent_full.Kernel.Policy.{Policy, get_or}
use rfsn_agent_full.Kernel.State.{Params, Proposal, SystemState, text_or_empty}
use rfsn_agent_full.Kernel.Registry.{is_valid_action, is_disabled, is_unsafe}
use rfsn_agent_full.Kernel.Validate.Patch.{
  blocked_read_path, extract_patch_touched_paths, LineStats, diff_line_stats, is_test_path,
  is_ci_path, basename, dep_manifests, Atom, search_atoms, banned_patterns, plus_blob,
}

pub data ErrorCode : Type 0 where
  unknown_action tool_disabled unsafe_tool_blocked safety_locked step_budget_exhausted : ErrorCode
  pattern_too_long missing_path path_traversal path_blocked_by_policy : ErrorCode
  read_range_too_large invalid_depth empty_patch patch_too_many_files : ErrorCode
  patch_too_many_added patch_too_many_deleted patch_too_large : ErrorCode
  forbid_test_edits forbid_ci_edits forbid_dep_manifest_edits : ErrorCode
  patch_content_banned : List Atom → ErrorCode
  unknown_test_template missing_test_template missing_template : ErrorCode
  unknown_command_template invalid_workdir_id format_fix_template_required : ErrorCode

-- `ValidationResult`
pub record ValidationResult : Type 0 where
  pub ok : Bool
  pub errors : List ErrorCode

abbrev pub found : Bool → ErrorCode → List ErrorCode
found true e = e ∷ []
found false e = []

abbrev pub no_errors : List ErrorCode → Bool
no_errors [] = true
no_errors (e ∷ es) = false

abbrev pub mem_str : String → List String → Bool
mem_str a = any (λ b. str_eq b a)

depth_outside : ℤ → Bool
depth_outside (pos n) = ltb n 1 || ltb 8 n
depth_outside (negsuc n) = true

over : Option ℕ → ℕ → Bool
over limit n = let m = get_or limit 0 in ltb 0 m && ltb m n

is_dep_manifest : (Text → Text) → Text → Bool
is_dep_manifest lower path = mem_text (lower (basename path)) dep_manifests

banned_errors : Text → List (List Atom) → List ErrorCode
banned_errors blob [] = []
banned_errors blob (pat ∷ pats) =
    found (search_atoms pat blob) (patch_content_banned pat) ++ banned_errors blob pats

template_test : Option String → List String → List ErrorCode
template_test none [] = missing_test_template ∷ []
template_test (some t) [] = found (str_eq t "") missing_test_template
template_test none (x ∷ xs) = unknown_test_template ∷ []
template_test (some t) (x ∷ xs) =
    found (str_eq t "" || not (mem_str t (x ∷ xs))) unknown_test_template

not_listed : Text → List Text → Bool
not_listed t [] = false
not_listed t (x ∷ xs) = not (mem_text t (x ∷ xs))

-- `re.fullmatch(r"workdir_\d+", wid)`
is_workdir_id : (ℕ → Bool) → Text → Bool
is_workdir_id is_decimal wid =
    let digits = drop_text 8 wid in
    starts_with wid (codes "workdir_") && not (eq_text digits []) && all is_decimal digits

validated : Option ErrorCode → List ErrorCode → ValidationResult
validated (some e) errors = record { ok = false; errors = e ∷ [] }
validated none errors = record { ok = no_errors errors; errors = errors }

module _ {Float : Type 0} where
  -- The checks 1 to 3 of `validate`, each of which ends it: the error of the first that fails.
  unfoldable pub gate_error : Proposal → SystemState Float → Policy Float → Option ErrorCode
  gate_error p s policy =
      if not (is_valid_action p.action)
      then some unknown_action
      else if is_disabled p.action
      then some tool_disabled
      else if is_unsafe p.action && not (mem_str p.action policy.allow_unsafe_tools)
      then some unsafe_tool_blocked
      else if leb 2 s.safety_level
      then some safety_locked
      else if leb (get_or policy.max_total_steps 100) s.step_count
      then some step_budget_exhausted
      else none

  -- The path checks that both reading actions share.
  unfoldable pub path_errors : Option Text → Policy Float → List ErrorCode
  path_errors path policy =
      let p = text_or_empty path in
      if eq_text p []
      then missing_path ∷ []
      else if has_sub p (codes "..") || starts_with p (codes "/")
      then path_traversal ∷ []
      else if blocked_read_path p policy.blocked_read_prefixes policy.blocked_read_suffixes
      then path_blocked_by_policy ∷ []
      else []

  -- `le - ls + 1 > max_lpr`, without the subtraction.
  unfoldable pub range_errors : Params → Policy Float → List ErrorCode
  range_errors q policy =
      let ls = get_or q.line_start (pos 1) in
      let le = get_or q.line_end ls in
      let max_lpr = get_or policy.max_lines_per_read 300 in
      found (ltb (max_lpr + pos_part ls + neg_part le) (pos_part le + 1 + neg_part ls))
        read_range_too_large

  module _ (lower fold_case : Text → Text) where
    -- The branch of `validate` for `apply_patch`.
    unfoldable pub patch_errors : Text → Policy Float → List ErrorCode
    unfolding over is_dep_manifest banned_errors
    patch_errors patch policy =
        let touched = extract_patch_touched_paths patch in
        let stats = diff_line_stats patch in
        if eq_text (strip patch) []
        then empty_patch ∷ []
        else found (over policy.max_patch_files (length touched)) patch_too_many_files
          ++ (found (over policy.max_added_lines stats.added) patch_too_many_added
              ++ (found (over policy.max_deleted_lines stats.deleted) patch_too_many_deleted
                  ++ (found (over policy.max_patch_total_lines stats.total) patch_too_large
                      ++ (found (policy.forbid_test_edits && any is_test_path touched)
                            forbid_test_edits
                          ++ (found (policy.forbid_ci_edits && any is_ci_path touched)
                                forbid_ci_edits
                              ++ (found
                                    (policy.forbid_dep_manifest_edits
                                      && any (is_dep_manifest lower) touched)
                                    forbid_dep_manifest_edits
                                  ++ banned_errors (fold_case (plus_blob patch))
                                      banned_patterns))))))

  module _ (is_decimal : ℕ → Bool) where
    -- The branch for the two actions that run command templates.
    unfoldable pub template_errors : String → Params → Policy Float → List ErrorCode
    unfolding is_workdir_id not_listed
    template_errors action q policy =
        let tmpl = strip (text_or_empty q.template) in
        let wid = text_or_empty q.workdir_id in
        found (eq_text tmpl []) missing_template
        ++ (found (not_listed tmpl policy.allowed_command_templates) unknown_command_template
            ++ (found (not (eq_text wid []) && not (is_workdir_id is_decimal wid))
                  invalid_workdir_id
                ++ found
                    (str_eq action "format_fix"
                      && not (eq_text tmpl [])
                      && not (ends_with tmpl (codes "_fix")))
                    format_fix_template_required))

    -- Check 4 of `validate`: the errors of the action's own parameters.
    unfoldable pub action_errors :
        (Text → Text) → (Text → Text) → Proposal → Policy Float → List ErrorCode
    unfolding depth_outside template_test
    action_errors lower fold_case p policy =
        let q = p.params in
        if str_eq p.action "repo_search"
        then found (ltb 500 (length (text_or_empty q.pattern))) pattern_too_long
        else if str_eq p.action "repo_read_range"
        then path_errors q.path policy ++ range_errors q policy
        else if str_eq p.action "read_file"
        then path_errors q.path policy
        else if str_eq p.action "detect_workdirs"
        then found (depth_outside (get_or q.max_depth (pos 4))) invalid_depth
        else if str_eq p.action "apply_patch"
        then patch_errors lower fold_case (text_or_empty q.patch) policy
        else if str_eq p.action "run_tests"
        then template_test q.template_id policy.allowed_test_templates
        else if str_eq p.action "run_cmd_template" || str_eq p.action "format_fix"
        then template_errors p.action q policy
        else []

    unfoldable pub validate :
        (Text → Text)
        → (Text → Text)
        → Proposal
        → SystemState Float
        → Policy Float
        → ValidationResult
    unfolding validated
    validate lower fold_case p s policy =
        validated (gate_error p s policy) (action_errors lower fold_case p policy)
