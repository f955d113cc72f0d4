-- ===== src/Gate/Headerless.antt =====
-- What the gate misses in a patch without git's own header lines.
use rfsn_agent_full.Base.{
  if◌then◌else◌, All, ℕ, ◌+◌, String, ◌≡◌, refl, ap, ◌∙◌, Bool, true, false, not, ◌&&◌, Option,
  none, List, [], ◌∷◌, ◌++◌,
}
use rfsn_agent_full.Base.Text.{Text, Unicode, has_sub, drop_text, starts_with, codes, splitlines}
use rfsn_agent_full.Gate.{
  DiffStats, Progress, header_name, with_header, with_name, with_mode, with_change, add_line,
  delete_line, analyse_line, analyse_lines, diff_analysis, no_stats, utf8_size,
}
use rfsn_agent_full.Gate.Decide.{GatePolicy, path_reasons, gate_reasons, patch_risk_gate}

if-files :
    (b : Bool) (s t r : DiffStats)
    → s.files_touched ≡ r.files_touched
    → t.files_touched ≡ r.files_touched
    → (if b then s else t).files_touched ≡ r.files_touched
if-files true s t r e f = e
if-files false s t r e f = f

add_line-files :
    (u : Unicode) (current line : Text) (s : DiffStats)
    → (add_line u current line s).files_touched ≡ s.files_touched
add_line-files u current line s =
    let added = record s {
      added_lines = s.added_lines + 1;
      plus_lines = s.plus_lines ++ line ∷ [];
    } in
    if-files (has_sub (u.lower current) (codes "test"))
      (record added { plus_lines_test = s.plus_lines_test ++ line ∷ [] })
      (record added { plus_lines_source = s.plus_lines_source ++ line ∷ [] }) s refl refl

delete_line-files :
    (u : Unicode) (line : Text) (s : DiffStats)
    → (delete_line u line s).files_touched ≡ s.files_touched
delete_line-files u line s =
    let deleted = record s { deleted_lines = s.deleted_lines + 1 } in
    if-files (has_sub (u.lower line) (codes "test"))
      (record deleted { deleted_test_lines = s.deleted_test_lines + 1 }) deleted s refl refl

pub with_change-files :
    (u : Unicode) (line : Text) (p : Progress)
    → (with_change u line p).1.files_touched ≡ p.1.files_touched
unfolding with_change
with_change-files u line (current, s) =
    let added = add_line u current (drop_text 1 line) s in
    let deleted = delete_line u line s in
    let plus = starts_with line (codes "+") && not (starts_with line (codes "+++")) in
    let minus = starts_with line (codes "-") && not (starts_with line (codes "---")) in
    if-files plus added (if minus then deleted else s) s
      (add_line-files u current (drop_text 1 line) s)
      (if-files minus deleted s s (delete_line-files u line s) refl)

pub with_mode-files :
    (line : Text) (p : Progress) → (with_mode line p).1.files_touched ≡ p.1.files_touched
unfolding with_mode
with_mode-files line (current, s) =
    if-files (starts_with line (codes "new file mode")) (record s { new_files = s.new_files + 1 }) s
      s refl refl

pub with_name-files :
    (line : Text) (p : Progress) → (with_name line p).1.files_touched ≡ p.1.files_touched
unfolding with_name
with_name-files line (current, s) = refl

with_header-none : (name : Option Text) (p : Progress) → name ≡ none → with_header name p ≡ p
unfolding with_header
with_header-none name p e = rw e refl

analyse_line-files :
    (u : Unicode) (line : Text) (p : Progress)
    → header_name line ≡ none
    → (analyse_line u line p).1.files_touched ≡ p.1.files_touched
unfolding analyse_line
analyse_line-files u line p e =
    with_change-files u line (with_mode line (with_name line (with_header (header_name line) p)))
    ∙ with_mode-files line (with_name line (with_header (header_name line) p))
    ∙ with_name-files line (with_header (header_name line) p)
    ∙ ap (λ q. q.1.files_touched) (with_header-none (header_name line) p e)

analyse_lines-files :
    (u : Unicode) (lines : List Text) (p : Progress)
    → All (λ line. header_name line ≡ none) lines
    → (analyse_lines u lines p).1.files_touched ≡ p.1.files_touched
unfolding analyse_lines
analyse_lines-files u [] p a = refl
analyse_lines-files u (line ∷ lines) p (e, a) =
    analyse_lines-files u lines (analyse_line u line p) a ∙ analyse_line-files u line p e

-- The policy without its rules on paths.
abbrev pub without_paths : GatePolicy → GatePolicy
without_paths pol = record pol { blocked_dependency_files = []; banned_path_fragments = [] }

-- For a diff in which no line is a "diff --git" line with a file name, the gate decides the same,
-- for the same reasons, as under the policy without blocked dependency files and banned path
-- fragments.
pub patch_risk_gate-without_paths :
    (u : Unicode) (search : String → Text → Bool) (pol : GatePolicy)
    (max_bytes max_files max_new_files : Option ℕ) (diff : Text)
    → All (λ line. header_name line ≡ none) (splitlines diff)
    → patch_risk_gate u search pol max_bytes max_files max_new_files diff
      ≡ patch_risk_gate u search (without_paths pol) max_bytes max_files max_new_files diff
unfolding patch_risk_gate gate_reasons path_reasons diff_analysis
patch_risk_gate-without_paths u search pol max_bytes max_files max_new_files diff a =
    rw (analyse_lines-files u (splitlines diff) ([], no_stats (utf8_size diff)) a) refl
