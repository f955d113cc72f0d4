-- ===== src/Gate/Accepts.antt =====
-- Which patches the gate lets through.
use rfsn_agent_full.Base.{
  ltb, if◌then◌else◌, length, any, all, ℕ, String, ◌≡◌, refl, ◌∙◌, Bool, true, false, not, ◌&&◌,
  ◌||◌, Option, List, [], ◌∷◌, ◌++◌,
}
use rfsn_agent_full.Base.Text.{Text, Unicode, has_sub, mem_text}
use rfsn_agent_full.Gate.{DiffStats, diff_analysis}
use rfsn_agent_full.Gate.Decide.{
  GatePolicy, test_only_banned_patterns, Reason, too_large, too_many_files, too_many_new_files,
  too_many_added, too_many_deleted, large_test_deletions, restricted_path, dependency_file,
  banned_in_code, banned_in_test, reason_if, basename_from, fragment_reasons, path_reasons,
  join_lines, pattern_reasons, is_nil, value_or, gate_reasons, patch_risk_gate,
}

is_nil-append {ℓ} : {A : Type ℓ} (xs ys : List A) → is_nil (xs ++ ys) ≡ (is_nil xs && is_nil ys)
is_nil-append [] ys = refl
is_nil-append (x ∷ xs) ys = refl

is_nil-reason_if : (b : Bool) (r : Reason) → is_nil (reason_if b r) ≡ not b
is_nil-reason_if true r = refl
is_nil-reason_if false r = refl

-- A file that the policy does not protect.
abbrev pub is_free_path : GatePolicy → Text → Bool
is_free_path pol path =
    not (mem_text (basename_from [] path) pol.blocked_dependency_files)
    && not (any (has_sub path) pol.banned_path_fragments)

not_or : (a b : Bool) → (not a && not b) ≡ not (a || b)
not_or true b = refl
not_or false b = refl

is_nil-fragment_reasons :
    (path : Text) (frags : List Text)
    → is_nil (fragment_reasons path frags) ≡ not (any (has_sub path) frags)
unfolding fragment_reasons
is_nil-fragment_reasons path [] = refl
is_nil-fragment_reasons path (f ∷ fs) =
    is_nil-append (reason_if (has_sub path f) (restricted_path path f)) (fragment_reasons path fs)
    ∙ rw
        (
          is_nil-reason_if (has_sub path f) (restricted_path path f),
          is_nil-fragment_reasons path fs,
        )
        (not_or (has_sub path f) (any (has_sub path) fs))

and_assoc : (a b c : Bool) → (a && (b && c)) ≡ ((a && b) && c)
and_assoc true b c = refl
and_assoc false b c = refl

is_nil-path_reasons :
    (pol : GatePolicy) (paths : List Text)
    → is_nil (path_reasons pol paths) ≡ all (is_free_path pol) paths
unfolding path_reasons
is_nil-path_reasons pol [] = refl
is_nil-path_reasons pol (p ∷ ps) =
    let dep = mem_text (basename_from [] p) pol.blocked_dependency_files in
    is_nil-append (reason_if dep (dependency_file p)) _
    ∙ rw
        (
          is_nil-reason_if dep (dependency_file p),
          is_nil-append (fragment_reasons p pol.banned_path_fragments) (path_reasons pol ps),
          is_nil-fragment_reasons p pol.banned_path_fragments,
          is_nil-path_reasons pol ps,
        )
        (and_assoc (not dep) _ _)

is_nil-pattern_reasons :
    (search : String → Text → Bool) (reason : String → Reason) (blob : Text) (ps : List String)
    → is_nil (pattern_reasons search reason blob ps) ≡ not (any (λ p. search p blob) ps)
unfolding pattern_reasons
is_nil-pattern_reasons search reason blob [] = refl
is_nil-pattern_reasons search reason blob (p ∷ ps) =
    is_nil-append (reason_if (search p blob) (reason p)) (pattern_reasons search reason blob ps)
    ∙ rw (is_nil-reason_if (search p blob) (reason p), is_nil-pattern_reasons search reason blob ps)
        (not_or (search p blob) (any (λ q. search q blob) ps))

-- The patch keeps every limit.
abbrev pub is_acceptable : (String → Text → Bool) → GatePolicy → ℕ → ℕ → ℕ → DiffStats → Bool
is_acceptable search pol max_bytes max_files max_new_files s =
    not (ltb max_bytes s.size_bytes)
    && (not (ltb max_files (length s.files_touched))
        && (not (ltb max_new_files s.new_files)
            && (all (is_free_path pol) s.files_touched
                && (not (ltb 0 pol.max_added_lines && ltb pol.max_added_lines s.added_lines)
                    && (not
                          (ltb 0 pol.max_deleted_lines && ltb pol.max_deleted_lines s.deleted_lines)
                        && (not (any (λ p. search p (join_lines s.plus_lines)) pol.banned_patterns)
                            && ((is_nil s.plus_lines_test
                                  || not (
                                      any (λ p. search p (join_lines s.plus_lines_test))
                                        test_only_banned_patterns))
                                && not (ltb 50 s.deleted_test_lines))))))))

reason_then :
    (b : Bool) (r : Reason) (rs : List Reason) {x : Bool}
    → is_nil rs ≡ x
    → is_nil (reason_if b r ++ rs) ≡ (not b && x)
reason_then true r rs e = refl
reason_then false r rs e = e

reasons_then :
    (qs rs : List Reason) {x y : Bool}
    → is_nil qs ≡ x
    → is_nil rs ≡ y
    → is_nil (qs ++ rs) ≡ (x && y)
reasons_then qs rs e f = is_nil-append qs rs ∙ rw (e, f) refl

test_reasons :
    (b : Bool) (rs : List Reason) {x : Bool}
    → is_nil rs ≡ x
    → is_nil (if b then [] else rs) ≡ (b || x)
test_reasons true rs e = refl
test_reasons false rs e = e

-- The order of the gate's reasons: six single tests, the paths and two lists of patterns.
nine_reasons :
    (b1 b2 b3 b5 b6 b9 : Bool) (paths patterns tests : List Reason) {x y z : Bool}
    → is_nil paths ≡ x
    → is_nil patterns ≡ y
    → is_nil tests ≡ z
    → is_nil (
        reason_if b1 too_large
        ++ (reason_if b2 too_many_files
            ++ (reason_if b3 too_many_new_files
                ++ (paths
                    ++ (reason_if b5 too_many_added
                        ++ (reason_if b6 too_many_deleted
                            ++ (patterns ++ (tests ++ reason_if b9 large_test_deletions))))))))
      ≡ (not b1 && (not b2 && (not b3 && (x && (not b5 && (not b6 && (y && (z && not b9))))))))
nine_reasons b1 b2 b3 b5 b6 b9 paths patterns tests p q t =
    let t8 = tests ++ reason_if b9 large_test_deletions in
    let t7 = patterns ++ t8 in
    let t6 = reason_if b6 too_many_deleted ++ t7 in
    let t5 = reason_if b5 too_many_added ++ t6 in
    let t4 = paths ++ t5 in
    let t3 = reason_if b3 too_many_new_files ++ t4 in
    let t2 = reason_if b2 too_many_files ++ t3 in
    reason_then b1 too_large t2 (
      reason_then b2 too_many_files t3 (
        reason_then b3 too_many_new_files t4 (
          reasons_then paths t5 p (
            reason_then b5 too_many_added t6 (
              reason_then b6 too_many_deleted t7 (
                reasons_then patterns t8 q (
                  reasons_then tests (reason_if b9 large_test_deletions) t
                    (is_nil-reason_if b9 large_test_deletions))))))))

-- The gate allows a patch exactly when, of the diff's statistics, the size, the files and the new
-- files are within the limits, no file touched is a blocked dependency file or has a banned
-- fragment in its path, the added and the deleted lines are within their limits where there are
-- any, no banned pattern is in the added lines, no pattern that is banned in tests is in the lines
-- added to tests, and at most fifty lines that name a test are deleted.
pub patch_risk_gate-is_acceptable :
    (u : Unicode) (search : String → Text → Bool) (pol : GatePolicy)
    (max_bytes max_files max_new_files : Option ℕ) (diff : Text)
    → (patch_risk_gate u search pol max_bytes max_files max_new_files diff).is_allowed
      ≡ is_acceptable search pol
          (value_or max_bytes pol.max_patch_bytes)
          (value_or max_files pol.max_files_touched)
          (value_or max_new_files pol.max_new_files)
          (diff_analysis u diff)
unfolding patch_risk_gate gate_reasons
patch_risk_gate-is_acceptable u search pol max_bytes max_files max_new_files diff =
    let s = diff_analysis u diff in
    let files = length s.files_touched in
    let added = ltb 0 pol.max_added_lines && ltb pol.max_added_lines s.added_lines in
    let deleted = ltb 0 pol.max_deleted_lines && ltb pol.max_deleted_lines s.deleted_lines in
    let code = join_lines s.plus_lines in
    let tests = join_lines s.plus_lines_test in
    let no_tests = is_nil s.plus_lines_test in
    let in_tests = pattern_reasons search banned_in_test tests test_only_banned_patterns in
    nine_reasons (ltb (value_or max_bytes pol.max_patch_bytes) s.size_bytes)
      (ltb (value_or max_files pol.max_files_touched) files)
      (ltb (value_or max_new_files pol.max_new_files) s.new_files) added deleted
      (ltb 50 s.deleted_test_lines) (path_reasons pol s.files_touched)
      (pattern_reasons search banned_in_code code pol.banned_patterns)
      (if no_tests then [] else in_tests) (is_nil-path_reasons pol s.files_touched)
      (is_nil-pattern_reasons search banned_in_code code pol.banned_patterns)
      (test_reasons no_tests in_tests
        (is_nil-pattern_reasons search banned_in_test tests test_only_banned_patterns))
