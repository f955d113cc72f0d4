-- ===== src/Kernel/Validate/Patch.antt =====
-- What rfsn_kernel/validate.py reads off a patch and a path. Lower case and the decimal digits of
-- Unicode are parameters where they are used.
use rfsn_agent_full.Base.{
  ◌==◌, if◌then◌else◌, length, drop, any, ℕ, ◌+◌, String, ◌≡◌, refl, Bool, true, false, not, ◌&&◌,
  ◌||◌, List, [], ◌∷◌, ◌++◌, map, arith,
}
use rfsn_agent_full.Base.Text.{
  Text, codes, starts_with, ends_with, has_sub, eq_text, strip, lstrip_slash, drop_while, is_space,
  splitlines, drop_text, mem_text,
}

-- `s.split()`: `word` is the word so far, reversed.
abbrev end_word : Text → List Text → List Text
end_word [] rest = rest
end_word word rest = mathlib.Core.List.reverse word ∷ rest

abbrev words_from : Text → Text → List Text
words_from word [] = end_word word []
words_from word (c ∷ s) =
    let next = end_word word (words_from [] s) in
    let more = words_from (c ∷ word) s in if is_space c then next else more

abbrev pub split : Text → List Text
split s = words_from [] s

-- `s.replace("\\", "/")`
abbrev pub slashes : Text → Text
slashes s = map (λ c. if c == 92 then b'/' else c) s

-- `while s.startswith("./"): s = s[2:]`
abbrev pub strip_dots : Text → Text
strip_dots [] = []
strip_dots (c ∷ []) = c ∷ []
strip_dots (c ∷ d ∷ s) =
    let rest = strip_dots s in if c == b'.' && d == b'/' then rest else c ∷ d ∷ s

abbrev pub clean_path : Text → Text
clean_path p = lstrip_slash (strip_dots (slashes p))

abbrev is_empty : Text → Bool
is_empty s = eq_text s []

-- `_blocked_read_path`
unfoldable pub blocked_read_path : Text → List Text → List Text → Bool
blocked_read_path path prefixes suffixes =
    let norm = clean_path path in
    any (λ pref. let p = clean_path pref in not (is_empty p) && starts_with norm p) prefixes
    || any (λ s. not (is_empty s) && ends_with norm s) suffixes

-- `path.startswith("a/") or path.startswith("b/")`, dropped
abbrev pub unprefixed : Text → Text
unprefixed p =
    lstrip_slash
      (if starts_with p (codes "a/") || starts_with p (codes "b/") then drop_text 2 p else p)

abbrev add_path : Text → List Text → List Text
add_path p ps = if is_empty p || mem_text p ps then ps else ps ++ p ∷ []

abbrev git_path : Text → List Text → List Text
git_path part ps =
    let p = unprefixed part in if eq_text p (codes "/dev/null") then ps else add_path p ps

git_header : List Text → List Text → List Text
git_header (_ ∷ _ ∷ a ∷ b ∷ _) ps = git_path b (git_path a ps)
git_header _ ps = ps

-- `line.split(maxsplit=1)[1]`, or nothing where there is one part only.
abbrev second_part : Text → Text
second_part line = drop_while is_space (drop_while (λ c. not (is_space c)) line)

file_header : Text → List Text → List Text
file_header line ps =
    let rest = second_part line in
    let p = strip rest in
    if is_empty rest
      || eq_text p (codes "a/dev/null")
      || eq_text p (codes "b/dev/null")
      || eq_text p (codes "/dev/null")
    then ps
    else add_path (unprefixed p) ps

touch_line : Text → List Text → List Text
touch_line raw ps =
    let line = strip raw in
    if starts_with line (codes "diff --git ")
    then git_header (split line) ps
    else if starts_with line (codes "+++ ") || starts_with line (codes "--- ")
    then file_header line ps
    else ps

touched_from : List Text → List Text → List Text
touched_from [] ps = ps
touched_from (raw ∷ lns) ps = touched_from lns (touch_line raw ps)

-- `_extract_patch_touched_paths`: the set, in the order in which its paths are met.
unfoldable pub extract_patch_touched_paths : Text → List Text
unfolding git_header file_header touch_line touched_from
extract_patch_touched_paths patch = touched_from (splitlines patch) []

pub record LineStats : Type 0 where
  pub added : ℕ
  pub deleted : ℕ
  pub total : ℕ

is_header : Text → Bool
is_header line =
    starts_with line (codes "diff --git ")
    || starts_with line (codes "+++ ")
    || starts_with line (codes "--- ")
    || starts_with line (codes "@@")

-- A line by what it begins with: a header, an added line, a deleted line, or neither.
count_line : Bool → Bool → Bool → LineStats → LineStats
count_line true plus minus r = r
count_line false true minus r = record r { added = r.added + 1; total = r.total + 1 }
count_line false false true r = record r { deleted = r.deleted + 1; total = r.total + 1 }
count_line false false false r = r

unfoldable pub stats_of : List Text → LineStats
unfolding is_header count_line
stats_of [] = record { added = 0; deleted = 0; total = 0 }
stats_of (line ∷ lns) =
    count_line (is_header line) (starts_with line (codes "+")) (starts_with line (codes "-"))
      (stats_of lns)

-- `_diff_line_stats`
unfoldable pub diff_line_stats : Text → LineStats
unfolding stats_of
diff_line_stats patch = stats_of (splitlines patch)

count_line_total :
    (h p m : Bool) (r : LineStats)
    → r.total ≡ r.added + r.deleted
    → (count_line h p m r).total ≡ (count_line h p m r).added + (count_line h p m r).deleted
unfolding count_line
count_line_total true p m r e = e
count_line_total false true m r e = omega arith
count_line_total false false true r e = omega arith
count_line_total false false false r e = e

stats_total :
    (lns : List Text) → (stats_of lns).total ≡ (stats_of lns).added + (stats_of lns).deleted
unfolding stats_of
stats_total [] = refl
stats_total (line ∷ lns) = count_line_total _ _ _ (stats_of lns) (stats_total lns)

-- Every line that counts towards the total counts as an added or as a deleted one, and as one only.
pub diff_line_stats_total :
    (patch : Text)
    → (diff_line_stats patch).total
      ≡ (diff_line_stats patch).added + (diff_line_stats patch).deleted
unfolding diff_line_stats
diff_line_stats_total patch = stats_total (splitlines patch)

abbrev norm_path : Text → Text
norm_path p = lstrip_slash (slashes p)

unfoldable pub is_test_path : Text → Bool
is_test_path path =
    let p = norm_path path in
    starts_with p (codes "tests/")
    || has_sub (b'/' ∷ p) (codes "/tests/")
    || starts_with p (codes "test/")
    || ends_with p (codes "_test.py")
    || ends_with p (codes "test.py")

unfoldable pub is_ci_path : Text → Bool
is_ci_path path =
    let p = norm_path path in
    starts_with p (codes ".github/workflows/")
    || starts_with p (codes "ci/")
    || starts_with p (codes "scripts/")

-- `p.split("/")[-1]`
abbrev basename_from : Text → Text → Text
basename_from name [] = name
basename_from name (c ∷ s) =
    let rest = basename_from s s in
    let same = basename_from name s in if c == b'/' then rest else same

abbrev pub basename : Text → Text
basename p = basename_from p p

-- `_DEP_MANIFESTS`
abbrev pub dep_manifests : List Text
dep_manifests = map codes (
    "pyproject.toml" ∷ "poetry.lock" ∷ "requirements.txt" ∷ "requirements-dev.txt"
    ∷ "requirements.in" ∷ "constraints.txt" ∷ "setup.py" ∷ "setup.cfg" ∷ "pipfile" ∷ "pipfile.lock"
    ∷ "package.json" ∷ "package-lock.json" ∷ "yarn.lock" ∷ "pnpm-lock.yaml" ∷ "go.mod" ∷ "go.sum"
    ∷ "cargo.toml" ∷ "cargo.lock" ∷ [])

-- A regular expression of the list of bans: literals, `\s*` and `\s+`. The literal behind white
-- space begins with none, so the greedy match is the only one.
pub data Atom : Type 0 where
  lit : String → Atom
  some_space any_space : Atom

match_here : List Atom → Text → Bool
match_here [] s = true
match_here (lit t ∷ atoms) s =
    starts_with s (codes t) && match_here atoms (drop (length (codes t)) s)
match_here (any_space ∷ atoms) s = match_here atoms (drop_while is_space s)
match_here (some_space ∷ atoms) [] = false
match_here (some_space ∷ atoms) (c ∷ s) = is_space c && match_here atoms (drop_while is_space s)

-- `re.search`
unfoldable pub search_atoms : List Atom → Text → Bool
unfolding match_here
search_atoms atoms [] = match_here atoms []
search_atoms atoms (c ∷ s) = match_here atoms (c ∷ s) || search_atoms atoms s

-- `_BANNED_PATCH_PATTERNS`
abbrev pub banned_patterns : List (List Atom)
banned_patterns =
    (lit "pytest.skip" ∷ [])
    ∷ (lit "unittest.skip" ∷ [])
    ∷ (lit "@skip" ∷ [])
    ∷ (lit "@pytest.mark.skip" ∷ [])
    ∷ (lit "xfail" ∷ [])
    ∷ (lit "remove" ∷ some_space ∷ lit "test" ∷ [])
    ∷ (lit "disable" ∷ some_space ∷ lit "test" ∷ [])
    ∷ (lit "__import__" ∷ any_space ∷ lit "(" ∷ [])
    ∷ (lit "eval" ∷ any_space ∷ lit "(" ∷ [])
    ∷ (lit "exec" ∷ any_space ∷ lit "(" ∷ [])
    ∷ (lit "subprocess." ∷ [])
    ∷ (lit "os.system(" ∷ [])
    ∷ []

-- The added lines without their sign, each behind a line feed but for the first.
plus_lines : List Text → List Text
plus_lines [] = []
plus_lines (line ∷ lns) =
    let rest = plus_lines lns in
    if starts_with line (codes "+") && not (starts_with line (codes "+++"))
    then drop_text 1 line ∷ rest
    else rest

join_lines : List Text → Text
join_lines [] = []
join_lines (x ∷ []) = x
join_lines (x ∷ y ∷ ys) = x ++ (10 ∷ join_lines (y ∷ ys))

unfoldable pub plus_blob : Text → Text
unfolding plus_lines join_lines
plus_blob patch = join_lines (plus_lines (splitlines patch))
