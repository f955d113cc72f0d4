-- ===== src/Gate/Headed.antt =====
-- The files that git's header lines name are among those touched.
use rfsn_agent_full.Base.{
  Bool-cases, All, ◌≡◌, refl, sym, ap, ◌∙◌, inl, inr, true, ◌||◌, Option, none, some, List, [], ◌∷◌,
  ◌++◌, arith,
}
use rfsn_agent_full.Base.Text.{
  Text, Unicode, codes, eq_text, eq_text_sound, eq_text_refl, mem_text, IsInWord, words,
  words-append, words-some,
}
use rfsn_agent_full.Gate.{
  Progress, lt_text, add_sorted, header_name, name_in, with_header, with_name, with_mode,
  analyse_line, analyse_lines,
}
use rfsn_agent_full.Gate.Headerless.{with_change-files, with_mode-files, with_name-files}

-- "diff --git a/NAME b/OTHER"
abbrev pub git_line : Text → Text → Text
git_line name other = codes "diff --git a/" ++ (name ++ 32 ∷ (codes "b/" ++ other))

name_in_git :
    (name v : Text) (vs : List Text)
    → name_in (codes "diff" ∷ codes "--git" ∷ (codes "a/" ++ name) ∷ v ∷ vs) ≡ some name
unfolding name_in
name_in_git name v vs = refl

pub header_name-git_line :
    (name other : Text) → All IsInWord name → header_name (git_line name other) ≡ some name
unfolding header_name
header_name-git_line name other a =
    let last = codes "b/" ++ other in
    let third = codes "a/" ++ name in
    let (v, vs, e) = words-some b'b' (b'/' ∷ other) refl in
    let w3 : words (third ++ 32 ∷ last) ≡ third ∷ v ∷ vs =
      words-append b'a' (b'/' ∷ name) last (refl, (refl, a)) ∙ ap (λ r. third ∷ r) e in
    let w2 : words (codes "--git" ++ 32 ∷ (third ++ 32 ∷ last)) ≡ codes "--git" ∷ third ∷ v ∷ vs =
      words-append b'-' (codes "-git") (third ++ 32 ∷ last)
        (refl, (refl, (refl, (refl, (refl, tt)))))
      ∙ ap (λ r. codes "--git" ∷ r) w3 in
    let w1 : words (git_line name other) ≡ codes "diff" ∷ codes "--git" ∷ third ∷ v ∷ vs =
      words-append b'd' (codes "iff") (codes "--git" ++ 32 ∷ (third ++ 32 ∷ last))
        (refl, (refl, (refl, (refl, tt))))
      ∙ ap (λ r. codes "diff" ∷ r) w2 in
    ap name_in w1 ∙ name_in_git name v vs

mem_text-add_sorted :
    (x y : Text) (ys : List Text)
    → (eq_text x y || mem_text x ys) ≡ true
    → mem_text x (add_sorted y ys) ≡ true
unfolding add_sorted
mem_text-add_sorted x y [] h = h
mem_text-add_sorted x y (z ∷ zs) h = elim (Bool-cases (eq_text y z)) [
  | inl same ↦
      let e : y ≡ z = eq_text_sound y z same in
      let h' : (eq_text x z || mem_text x (z ∷ zs)) ≡ true = rw e at h in
      rw same (ground (arith, h'))
  | inr other ↦ elim (Bool-cases (lt_text y z)) [
    | inl before ↦ rw (other, before) h
    | inr behind ↦ elim (Bool-cases (eq_text x z)) [
      | inl here ↦ rw (other, behind) (ground (arith, here))
      | inr later ↦ rw (other, behind, later) (mem_text-add_sorted x y zs (rw later at h))
    ]
  ]
]

with_header-mem :
    (x : Text) (name : Option Text) (p : Progress)
    → mem_text x p.1.files_touched ≡ true
    → mem_text x (with_header name p).1.files_touched ≡ true
unfolding with_header
with_header-mem x none p h = h
with_header-mem x (some name) (current, s) h =
    mem_text-add_sorted x name s.files_touched (ground (arith, h))

analyse_line-header :
    (u : Unicode) (line : Text) (p : Progress)
    → (analyse_line u line p).1.files_touched ≡ (with_header (header_name line) p).1.files_touched
unfolding analyse_line
analyse_line-header u line p =
    let q = with_header (header_name line) p in
    with_change-files u line (with_mode line (with_name line q))
    ∙ with_mode-files line (with_name line q)
    ∙ with_name-files line q

analyse_lines-kept :
    (u : Unicode) (x : Text) (lines : List Text) (p : Progress)
    → mem_text x p.1.files_touched ≡ true
    → mem_text x (analyse_lines u lines p).1.files_touched ≡ true
unfolding analyse_lines
analyse_lines-kept u x [] p h = h
analyse_lines-kept u x (line ∷ lines) p h =
    analyse_lines-kept u x lines (analyse_line u line p)
      (rw (analyse_line-header u line p) (with_header-mem x (header_name line) p h))

with_header_named :
    (x : Text) (p : Progress) → mem_text x (with_header (some x) p).1.files_touched ≡ true
unfolding with_header
with_header_named x (current, s) =
    mem_text-add_sorted x x s.files_touched (ground (arith, eq_text_refl x))

pub analyse_lines-git_line :
    (u : Unicode) (name other : Text) (lines : List Text) (p : Progress)
    → All IsInWord name
    → mem_text (git_line name other) lines ≡ true
    → mem_text name (analyse_lines u lines p).1.files_touched ≡ true
unfolding analyse_lines
analyse_lines-git_line u name other [] p a h = cc h
analyse_lines-git_line u name other (line ∷ lines) p a h =
    elim (Bool-cases (eq_text (git_line name other) line)) [
      | inl same ↦
          let named : header_name line ≡ some name =
            ap header_name (sym (eq_text_sound (git_line name other) line same))
            ∙ header_name-git_line name other a in
          analyse_lines-kept u name lines (analyse_line u line p)
            (rw (analyse_line-header u line p, named) (with_header_named name p))
      | inr other_line ↦
          analyse_lines-git_line u name other lines (analyse_line u line p) a (rw other_line at h)
    ]
