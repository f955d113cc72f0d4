-- ===== src/Tests/Gates.antt =====
-- The gate for patches on concrete diffs.
use rfsn_agent_full.Base.{String, ◌≡◌, refl, Bool, true, false, none, List, [], ◌∷◌, ◌++◌}
use rfsn_agent_full.Base.Text.{Text, codes, has_sub, words}
use rfsn_agent_full.Gate.{
  header_name, add_sorted, with_header, with_name, with_mode, with_change, analyse_line,
  analyse_lines, diff_analysis,
}
use rfsn_agent_full.Gate.Decide.{
  default_policy, fragment_reasons, path_reasons, join_lines, pattern_reasons, gate_reasons,
  patch_risk_gate,
}
use rfsn_agent_full.Gate.Headerless.{without_paths, patch_risk_gate-without_paths}
use rfsn_agent_full.Minimize.{minimize_lines, edits, minimize_lines_keeps}
use rfsn_agent_full.Tests.Fixtures.{ascii}

abbrev plain_search : String → Text → Bool
plain_search p t = has_sub t (codes p)

abbrev headed_diff : Text
headed_diff = codes "diff --git a/ci/x b/ci/x" ++ 10 ∷ codes "+y"

abbrev headerless_diff : Text
headerless_diff = codes "+++ b/ci/x" ++ 10 ∷ codes "+y"

-- The gate rejects the change of a restricted file when the diff has git's header line.
headed_diff-rejected :
    (patch_risk_gate ascii plain_search default_policy none none none headed_diff).is_allowed
    ≡ false
unfolding patch_risk_gate gate_reasons diff_analysis analyse_lines analyse_line with_header
    with_name with_mode with_change header_name add_sorted words fragment_reasons path_reasons
    join_lines pattern_reasons
headed_diff-rejected = refl

headerless_diff-allowed :
    (patch_risk_gate ascii plain_search default_policy none none none headerless_diff).is_allowed
    ≡ true
unfolding patch_risk_gate gate_reasons diff_analysis analyse_lines analyse_line with_header
    with_name with_mode with_change header_name add_sorted words fragment_reasons path_reasons
    join_lines pattern_reasons
headerless_diff-allowed = refl

abbrev small_diff : Text
small_diff = codes "diff --git a/x.py b/x.py" ++ 10 ∷ codes "+y"

patch_risk_gate-without_paths_example :
    patch_risk_gate ascii plain_search default_policy none none none headerless_diff
    ≡ patch_risk_gate ascii plain_search
        (without_paths default_policy)
        none
        none
        none
        headerless_diff
unfolding header_name
patch_risk_gate-without_paths_example =
    patch_risk_gate-without_paths ascii plain_search default_policy none none none headerless_diff
      (refl, (refl, tt))

-- The header of a second file stands in the hunk without a change before it.
abbrev two_files : List Text
two_files =
    codes "+++ b/x"
    ∷ codes "@@ -1 +1 @@"
    ∷ codes " same"
    ∷ codes "+++ b/y"
    ∷ codes "@@ -2 +2 @@"
    ∷ codes "+new"
    ∷ []

-- It is dropped with that hunk, so the change is made to the first file.
two_files_minimized :
    minimize_lines two_files [] false ≡ codes "+++ b/x" ∷ codes "@@ -2 +2 @@" ∷ codes "+new" ∷ []
unfolding minimize_lines
two_files_minimized = refl

-- The deletion of the line "-- note" stands as "--- note", and its hunk is dropped.
dashes_minimized : minimize_lines (codes "@@ -1 +0,0 @@" ∷ codes "--- note" ∷ []) [] false ≡ []
unfolding minimize_lines
dashes_minimized = refl

minimize_lines_keeps_example : edits (minimize_lines two_files [] false) ≡ edits two_files
minimize_lines_keeps_example = minimize_lines_keeps two_files
