-- ===== src/Gate/Counts.antt =====
-- The lines that a diff adds and deletes, by their first characters, and what the statistics hold.
use rfsn_agent_full.Base.{
  ◌==◌, if◌then◌else◌, Bool-cases, if_both, length, length-append, ℕ, ◌+◌, ◌≡◌, refl, sym, ap, ◌∙◌,
  inl, inr, false, not, ◌&&◌, Option, none, some, List, [], ◌∷◌, ◌++◌, arith,
}
use rfsn_agent_full.Base.Text.{Text, Unicode, codes, has_sub, starts_with}
use rfsn_agent_full.Gate.{
  DiffStats, Progress, header_name, with_header, with_name, with_mode, with_change, add_line,
  delete_line, analyse_line, analyse_lines,
}
use mathlib.Core.List.{append_assoc, append-nil}

-- The text of a line behind its sign `c`, if it has that sign and not three of them.
abbrev signed : ℕ → Text → Text → List Text
signed c two [] = []
signed c two (d ∷ s) = if d == c && not (starts_with s two) then s ∷ [] else []

abbrev pub signed_texts : ℕ → Text → List Text → List Text
signed_texts c two [] = []
signed_texts c two (l ∷ ls) = signed c two l ++ signed_texts c two ls

-- The texts of the lines that begin with + but not +++.
abbrev pub plus_texts : List Text → List Text
plus_texts = signed_texts b'+' (codes "++")

-- The texts of the lines that begin with - but not ---.
abbrev pub minus_texts : List Text → List Text
minus_texts = signed_texts b'-' (codes "--")

-- The three fields of the statistics that a line changes.
abbrev Counted : DiffStats → List Text → List Text → DiffStats → Type 0
Counted s plus minus s' =
    (s'.plus_lines ≡ s.plus_lines ++ plus)
    × (s'.added_lines ≡ s.added_lines + length plus)
    × (s'.deleted_lines ≡ s.deleted_lines + length minus)

Counted-none : (s : DiffStats) → Counted s [] [] s
Counted-none s = (sym (append-nil s.plus_lines), omega arith, omega arith)

add_line-Counted :
    (u : Unicode) (current line : Text) (s : DiffStats)
    → Counted s (line ∷ []) [] (add_line u current line s)
add_line-Counted u current line s =
    if_both (Counted s (line ∷ []) []) (has_sub (u.lower current) (codes "test"))
      (refl, refl, omega arith) (refl, refl, omega arith)

delete_line-Counted :
    (u : Unicode) (line text : Text) (s : DiffStats)
    → Counted s [] (text ∷ []) (delete_line u line s)
delete_line-Counted u line text s =
    if_both (Counted s [] (text ∷ [])) (has_sub (u.lower line) (codes "test"))
      (sym (append-nil s.plus_lines), omega arith, refl)
      (sym (append-nil s.plus_lines), omega arith, refl)

with_change-Counted :
    (u : Unicode) (line : Text) (p : Progress)
    → Counted p.1
        (signed b'+' (codes "++") line)
        (signed b'-' (codes "--") line)
        (with_change u line p).1
unfolding with_change
with_change-Counted u [] (current, s) = Counted-none s
with_change-Counted u (c ∷ line) (current, s) = elim (Bool-cases (c == b'+')) [
  | inl plus ↦
      let not_minus : (c == b'-') ≡ false = ground arith in
      elim (Bool-cases (starts_with line (codes "++"))) [
        | inl three ↦ rw (plus, not_minus, three) (Counted-none s)
        | inr one ↦ rw (plus, not_minus, one) (add_line-Counted u current line s)
      ]
  | inr not_plus ↦ elim (Bool-cases (c == b'-')) [
    | inl minus ↦ elim (Bool-cases (starts_with line (codes "--"))) [
      | inl three ↦ rw (not_plus, minus, three) (Counted-none s)
      | inr one ↦ rw (not_plus, minus, one) (delete_line-Counted u (c ∷ line) line s)
    ]
    | inr neither ↦ rw (not_plus, neither) (Counted-none s)
  ]
]

abbrev IsUncounted : DiffStats → DiffStats → Type 0
IsUncounted s s' =
    (s'.plus_lines ≡ s.plus_lines)
    × (s'.added_lines ≡ s.added_lines)
    × (s'.deleted_lines ≡ s.deleted_lines)

with_header-IsUncounted :
    (name : Option Text) (p : Progress) → IsUncounted p.1 (with_header name p).1
unfolding with_header
with_header-IsUncounted none p = (refl, refl, refl)
with_header-IsUncounted (some name) (current, s) = (refl, refl, refl)

-- The steps of a round before the last leave the three fields.
opening-IsUncounted :
    (line : Text) (p : Progress) → IsUncounted p.1 (with_mode line (with_name line p)).1
unfolding with_mode with_name
opening-IsUncounted line (current, s) =
    if_both (IsUncounted s) (starts_with line (codes "new file mode")) (refl, refl, refl)
      (refl, refl, refl)

analyse_line-Counted :
    (u : Unicode) (line : Text) (p : Progress)
    → Counted p.1
        (signed b'+' (codes "++") line)
        (signed b'-' (codes "--") line)
        (analyse_line u line p).1
unfolding analyse_line
analyse_line-Counted u line p =
    let q = with_header (header_name line) p in
    let r = with_mode line (with_name line q) in
    let (a, b, c) = with_header-IsUncounted (header_name line) p in
    let (a', b', c') = opening-IsUncounted line q in
    let (a'', b'', c'') = with_change-Counted u line r in
    (
      a'' ∙ ap (λ t. t ++ signed b'+' (codes "++") line) (a' ∙ a),
      omega (arith, b, b', b''),
      omega (arith, c, c', c''),
    )

pub analyse_lines-Counted :
    (u : Unicode) (lines : List Text) (p : Progress)
    → Counted p.1 (plus_texts lines) (minus_texts lines) (analyse_lines u lines p).1
unfolding analyse_lines
analyse_lines-Counted u [] (current, s) = Counted-none s
analyse_lines-Counted u (line ∷ lines) p =
    let q = analyse_line u line p in
    let (a, b, c) = analyse_line-Counted u line p in
    let (a', b', c') = analyse_lines-Counted u lines q in
    (
      a' ∙ ap (λ r. r ++ plus_texts lines) a ∙ append_assoc p.1.plus_lines _ _,
      omega (arith, b, b', length-append (signed b'+' (codes "++") line) (plus_texts lines)),
      omega (arith, c, c', length-append (signed b'-' (codes "--") line) (minus_texts lines)),
    )
