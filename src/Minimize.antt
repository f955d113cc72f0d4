-- ===== src/Minimize.antt =====
-- rfsn_kernel/patch_minimize.py: hunks without a change are dropped from a diff.
use rfsn_agent_full.Base.{
  ◌==◌, if◌then◌else◌, Bool-cases, ◌≡◌, refl, sym, ap, ◌∙◌, inl, inr, Bool, true, false, not, ◌&&◌,
  ◌||◌, List, [], ◌∷◌, ◌++◌, arith,
}
use rfsn_agent_full.Base.Text.{Text, codes, starts_with, splitlines}
use rfsn_agent_full.Gate.Decide.{join_lines, is_nil}
use mathlib.Core.List.{reverse, append_assoc, append-nil}

abbrev pub is_changed : Text → Bool
is_changed line =
    (starts_with line (codes "+") && not (starts_with line (codes "+++")))
    || (starts_with line (codes "-") && not (starts_with line (codes "---")))

abbrev pub is_hunk : Text → Bool
is_hunk line = starts_with line (codes "@@")

-- `flush_hunk`: what it adds to the output.
abbrev pub flush_hunk : List Text → Bool → List Text
flush_hunk hunk true = hunk
flush_hunk hunk false = []

-- The output of the loop from its state: the lines of the hunk and whether it has a change.
unfoldable pub minimize_lines : List Text → List Text → Bool → List Text
minimize_lines [] hunk has_change = flush_hunk hunk has_change
minimize_lines (line ∷ lines) hunk has_change =
    let next = minimize_lines lines (line ∷ []) false in
    let more = minimize_lines lines (hunk ++ line ∷ []) (has_change || is_changed line) in
    let outside = minimize_lines lines [] has_change in
    if is_hunk line
    then flush_hunk hunk has_change ++ next
    else (if is_nil hunk then line ∷ outside else more)

abbrev pub ends_with_newline : Text → Bool
ends_with_newline s = starts_with (reverse s) (10 ∷ [])

-- `minimize_unified_diff`
unfoldable pub minimize_unified_diff : Text → Text
minimize_unified_diff [] = []
minimize_unified_diff (c ∷ s) =
    let out = join_lines (minimize_lines (splitlines (c ∷ s)) [] false) in
    if ends_with_newline (c ∷ s) then out ++ 10 ∷ [] else out

abbrev keep : Bool → Text → List Text
keep true line = line ∷ []
keep false line = []

-- A line of which the first character is + or - and of which the next two are not that character
-- again.
abbrev pub is_edit : Text → Bool
is_edit [] = false
is_edit (c ∷ s) =
    (c == b'+' && not (starts_with s (codes "++")))
    || (c == b'-' && not (starts_with s (codes "--")))

is_changed-is_edit : (line : Text) → is_changed line ≡ is_edit line
is_changed-is_edit [] = refl
is_changed-is_edit (c ∷ s) = ground arith

-- The edited lines, in order.
abbrev pub edits : List Text → List Text
edits [] = []
edits (l ∷ ls) = keep (is_edit l) l ++ edits ls

-- The lines that the program takes for changes.
abbrev pub changes : List Text → List Text
changes [] = []
changes (l ∷ ls) = keep (is_changed l) l ++ changes ls

changes-append : (xs ys : List Text) → changes (xs ++ ys) ≡ changes xs ++ changes ys
changes-append [] ys = refl
changes-append (x ∷ xs) ys =
    ap (λ r. keep (is_changed x) x ++ r) (changes-append xs ys)
    ∙ sym (append_assoc (keep (is_changed x) x) (changes xs) (changes ys))

is_hunk-is_changed : (line : Text) → is_hunk line ≡ true → is_changed line ≡ false
is_hunk-is_changed [] e = refl
is_hunk-is_changed (c ∷ s) e = ground arith

changes-flush_hunk :
    (hunk : List Text) (b : Bool)
    → (b ≡ false → changes hunk ≡ [])
    → changes (flush_hunk hunk b) ≡ changes hunk
changes-flush_hunk hunk true e = refl
changes-flush_hunk hunk false e = sym (e refl)

unchanged_snoc :
    (hunk : List Text) (line : Text) (b : Bool)
    → (b ≡ false → changes hunk ≡ [])
    → (b || is_changed line) ≡ false
    → changes (hunk ++ line ∷ []) ≡ []
unchanged_snoc hunk line true e h = ground arith
unchanged_snoc hunk line false e h = changes-append hunk (line ∷ []) ∙ rw (e refl, h) refl

changes-line :
    (line : Text) (lines hunk : List Text) (b : Bool)
    → ((h : List Text) (d : Bool)
        → (d ≡ false → changes h ≡ [])
        → changes (minimize_lines lines h d) ≡ changes h ++ changes lines)
    → (b ≡ false → changes hunk ≡ [])
    → changes (
        if is_nil hunk
        then line ∷ minimize_lines lines [] b
        else minimize_lines lines (hunk ++ line ∷ []) (b || is_changed line))
      ≡ changes hunk ++ (keep (is_changed line) line ++ changes lines)
changes-line line lines [] b ih e = ap (λ r. keep (is_changed line) line ++ r) (ih [] b (λ _. refl))
changes-line line lines (x ∷ xs) b ih e =
    let kept = keep (is_changed line) line in
    ih ((x ∷ xs) ++ line ∷ []) (b || is_changed line) (unchanged_snoc (x ∷ xs) line b e)
    ∙ ap (λ r. r ++ changes lines)
        (changes-append (x ∷ xs) (line ∷ []) ∙ ap (λ r. changes (x ∷ xs) ++ r) (append-nil kept))
    ∙ append_assoc (changes (x ∷ xs)) kept (changes lines)

minimize_lines-changes :
    (lines hunk : List Text) (b : Bool)
    → (b ≡ false → changes hunk ≡ [])
    → changes (minimize_lines lines hunk b) ≡ changes hunk ++ changes lines
unfolding minimize_lines
minimize_lines-changes [] hunk b e = changes-flush_hunk hunk b e ∙ sym (append-nil (changes hunk))
minimize_lines-changes (line ∷ lines) hunk b e = elim (Bool-cases (is_hunk line)) [
  | inl t ↦ rw t (
      changes-append (flush_hunk hunk b) (minimize_lines lines (line ∷ []) false)
      ∙ ap (λ r. r ++ changes (minimize_lines lines (line ∷ []) false))
          (changes-flush_hunk hunk b e)
      ∙ ap (λ r. changes hunk ++ r)
          (minimize_lines-changes lines (line ∷ []) false (λ _. rw (is_hunk-is_changed line t) refl)
            ∙ rw (is_hunk-is_changed line t) refl))
  | inr f ↦ rw f (changes-line line lines hunk b (minimize_lines-changes lines) e)
]

changes-edits : (ls : List Text) → changes ls ≡ edits ls
changes-edits [] = refl
changes-edits (l ∷ ls) = rw (is_changed-is_edit l, changes-edits ls) refl

-- From the loop's initial state, the lines kept of a diff hold, in order and as often, exactly its
-- lines that begin with + but not +++, or with - but not ---.
pub minimize_lines_keeps : (lines : List Text) → edits (minimize_lines lines [] false) ≡ edits lines
minimize_lines_keeps lines =
    sym (changes-edits (minimize_lines lines [] false))
    ∙ minimize_lines-changes lines [] false (λ _. refl)
    ∙ changes-edits lines
