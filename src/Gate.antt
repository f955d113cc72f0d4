-- ===== src/Gate.antt =====
-- rfsn_swebench/gate.py: the statistics of a diff.
--
-- The lower case of Unicode is a parameter.
pub mod Accepts
pub mod Headerless
pub mod Headed
pub mod Counts
pub mod Allowed
pub mod Decide
use rfsn_agent_full.Base.{
  ltb, leb, ◌==◌, if◌then◌else◌, ltb→lt, lt→ltb, leb→le, bool_tests, Bool-cases, if_both,
  Option-cases, is_some, str_eq_of, of_str_eq, &&_true, length, get_elem?, take, drop, last_n, any,
  all, All, length-append, length-drop, length-take-le, length-last_n, All-append,
  get_elem?-append_left, get_elem?-append_length, get_elem?-take, length-take, get_elem?-none,
  get_elem?-some, ℕ, zero, suc, ◌+◌, ◌-◌, ◌*◌, ◌/◌, ◌%◌, ◌^◌, ◌≤◌, ◌<◌, min, max, String, ◌≡◌, refl,
  sym, ap, ◌∙◌, ◌≢◌, ◌↔◌, ◌⊎◌, inl, inr, Bool, true, false, not, ◌&&◌, ◌||◌, Option, none, some,
  List, [], ◌∷◌, ◌++◌, map, arith, str_eq, eq_iff, eq_refl,
}
use rfsn_agent_full.Base.Text.{
  Text, Unicode, codes, starts_with, has_sub, eq_text, mem_text, drop_text, splitlines, words,
}
use mathlib.Core.List.{reverse}

-- `DiffStats`
pub record DiffStats : Type 0 where
  pub size_bytes : ℕ
  pub files_touched : List Text
  pub new_files : ℕ
  pub added_lines : ℕ
  pub deleted_lines : ℕ
  pub deleted_test_lines : ℕ
  pub plus_lines : List Text
  pub plus_lines_test : List Text
  pub plus_lines_source : List Text

abbrev pub no_stats : ℕ → DiffStats
no_stats size = record {
  size_bytes = size;
  files_touched = [];
  new_files = 0;
  added_lines = 0;
  deleted_lines = 0;
  deleted_test_lines = 0;
  plus_lines = [];
  plus_lines_test = [];
  plus_lines_source = [];
}

-- `len(s.encode("utf-8", errors="replace"))`: a surrogate is replaced by one byte.
abbrev char_size : ℕ → ℕ
char_size c =
    if ltb c 128
    then 1
    else (if ltb c 2048
        then 2
        else (if leb 55296 c && leb c 57343 then 1 else (if ltb c 65536 then 3 else 4)))

abbrev pub utf8_size : Text → ℕ
utf8_size [] = 0
utf8_size (c ∷ s) = char_size c + utf8_size s

abbrev lt_text : Text → Text → Bool
lt_text s [] = false
lt_text [] (d ∷ t) = true
lt_text (c ∷ s) (d ∷ t) = ltb c d || (c == d && lt_text s t)

-- A sorted list of different texts, with one more: `files_set.add`, sorted at the end.
unfoldable pub add_sorted : Text → List Text → List Text
add_sorted x [] = x ∷ []
add_sorted x (y ∷ ys) =
    let rest = add_sorted x ys in
    if eq_text x y then y ∷ ys else (if lt_text x y then x ∷ y ∷ ys else y ∷ rest)

-- `s.replace(t, "", 1)`, of a text that is not empty.
abbrev pub remove_first : Text → Text → Text
remove_first [] t = []
remove_first (c ∷ s) t =
    let rest = remove_first s t in
    if starts_with (c ∷ s) t then drop_text (length t) (c ∷ s) else c ∷ rest

name_in : List Text → Option Text
name_in (a ∷ b ∷ c ∷ d ∷ rest) = some (remove_first c (codes "a/"))
name_in _ = none

-- The file of a line that begins with "diff --git ", if it has four words.
unfoldable pub header_name : Text → Option Text
unfolding name_in
header_name line = if starts_with line (codes "diff --git ") then name_in (words line) else none

-- The current file and the statistics.
abbrev pub Progress : Type 0
Progress = Text × DiffStats

unfoldable pub with_header : Option Text → Progress → Progress
with_header none p = p
with_header (some name) (current, s) =
    (name, record s { files_touched = add_sorted name s.files_touched })

unfoldable pub with_name : Text → Progress → Progress
with_name line (current, s) =
    (if starts_with line (codes "+++ b/") then drop_text 6 line else current, s)

unfoldable pub with_mode : Text → Progress → Progress
with_mode line (current, s) = (
  current,
  if starts_with line (codes "new file mode") then record s { new_files = s.new_files + 1 } else s,
)

abbrev add_line : Unicode → Text → Text → DiffStats → DiffStats
add_line u current line s =
    let added = record s {
      added_lines = s.added_lines + 1;
      plus_lines = s.plus_lines ++ line ∷ [];
    } in
    if has_sub (u.lower current) (codes "test")
    then record added { plus_lines_test = s.plus_lines_test ++ line ∷ [] }
    else record added { plus_lines_source = s.plus_lines_source ++ line ∷ [] }

abbrev delete_line : Unicode → Text → DiffStats → DiffStats
delete_line u line s =
    let deleted = record s { deleted_lines = s.deleted_lines + 1 } in
    if has_sub (u.lower line) (codes "test")
    then record deleted { deleted_test_lines = s.deleted_test_lines + 1 }
    else deleted

unfoldable pub with_change : Unicode → Text → Progress → Progress
with_change u line (current, s) = (
  current,
  if starts_with line (codes "+") && not (starts_with line (codes "+++"))
      then add_line u current (drop_text 1 line) s
      else (if starts_with line (codes "-") && not (starts_with line (codes "---"))
          then delete_line u line s
          else s),
)

-- One round of the loop of `diff_analysis`.
unfoldable pub analyse_line : Unicode → Text → Progress → Progress
unfolding with_header with_name with_mode with_change
analyse_line u line p =
    with_change u line (with_mode line (with_name line (with_header (header_name line) p)))

unfoldable pub analyse_lines : Unicode → List Text → Progress → Progress
analyse_lines u [] p = p
analyse_lines u (line ∷ lines) p = analyse_lines u lines (analyse_line u line p)

-- `diff_analysis`
unfoldable pub diff_analysis : Unicode → Text → DiffStats
diff_analysis u diff = (analyse_lines u (splitlines diff) ([], no_stats (utf8_size diff))).1
