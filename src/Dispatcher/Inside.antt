-- ===== src/Dispatcher/Inside.antt =====
-- Which paths lie below the root of a workspace, by the names of their parts.
use rfsn_agent_full.Base.{
  ◌==◌, Bool-cases, All, All-append, ℕ, ◌≡◌, refl, sym, ap, ◌∙◌, ◌≢◌, inl, inr, true, false, ◌||◌,
  List, [], ◌∷◌, ◌++◌, arith,
}
use rfsn_agent_full.Base.Text.{Text, codes, starts_with, ends_with, eq_text, mem_text}
use rfsn_agent_full.Dispatcher.{split_slash, is_unsafe_path, join_path}
use mathlib.Core.List.{reverse, reverse-cons, append_assoc}
use mathlib.Core.Path.{subst}

abbrev pub IsPart : ℕ → Type 0
IsPart c = (c == b'/') ≡ false

-- The name of a file or directory: it has no slash and is not "..".
abbrev pub IsName : Text → Type 0
IsName name = All IsPart name × (name ≢ codes "..")

-- Names joined by slashes.
abbrev pub slashed : List Text → Text
slashed [] = []
slashed (p ∷ []) = p
slashed (p ∷ q ∷ ps) = p ++ b'/' ∷ slashed (q ∷ ps)

abbrev pub IsRelative : Text → Type 0
IsRelative path = (rest : Text) → path ≢ b'/' ∷ rest

-- A path that is the root `ws`, a slash where the root does not end with one or is empty, and
-- relative names.
pub data IsInside (ws : Text) : Text → Type 0 where
  below :
      (names : List Text)
      → All IsName names
      → IsRelative (slashed names)
      → IsInside ws (ws ++ b'/' ∷ slashed names)
  at_end :
      (names : List Text)
      → All IsName names
      → IsRelative (slashed names)
      → (eq_text ws [] || ends_with ws (codes "/")) ≡ true
      → IsInside ws (ws ++ slashed names)

split_slash_cons : (part s : Text) → (p : Text) × (ps : List Text) × (split_slash part s ≡ p ∷ ps)
split_slash_cons part [] = (reverse part, [], refl)
split_slash_cons part (c ∷ s) = elim (Bool-cases (c == b'/')) [
  | inl slash ↦ rw slash (reverse part, split_slash [] s, refl)
  | inr other ↦ rw other (split_slash_cons (c ∷ part) s)
]

slashed-split_slash : (part s : Text) → slashed (split_slash part s) ≡ reverse part ++ s
slashed-split_slash part [] = sym (mathlib.Core.List.append-nil (reverse part))
slashed-split_slash part (c ∷ s) = elim (Bool-cases (c == b'/')) [
  | inl slash ↦
      let (p, ps, e) = split_slash_cons [] s in
      let c_is : c ≡ b'/' = ground arith in
      let joined : slashed (reverse part ∷ split_slash [] s)
          ≡ reverse part ++ b'/' ∷ slashed (split_slash [] s) =
        rw e refl in
      rw slash (
        joined
        ∙ ap (λ r. reverse part ++ b'/' ∷ r) (slashed-split_slash [] s)
        ∙ ap (λ (d : ℕ). reverse part ++ d ∷ s) (sym c_is))
  | inr other ↦ rw other (
      slashed-split_slash (c ∷ part) s
      ∙ ap (λ r. r ++ s) (reverse-cons c part)
      ∙ append_assoc (reverse part) (c ∷ []) s)
]

All-reverse : (xs : Text) → All IsPart xs → All IsPart (reverse xs)
All-reverse [] a = tt
All-reverse (x ∷ xs) (p, a) =
    subst (All IsPart) (sym (reverse-cons x xs))
      (All-append IsPart (reverse xs) (x ∷ []) (All-reverse xs a) (p, tt))

split_slash_parts : (part s : Text) → All IsPart part → All (All IsPart) (split_slash part s)
split_slash_parts part [] a = (All-reverse part a, tt)
split_slash_parts part (c ∷ s) a = elim (Bool-cases (c == b'/')) [
  | inl slash ↦ rw slash (All-reverse part a, split_slash_parts [] s tt)
  | inr other ↦ rw other (split_slash_parts (c ∷ part) s (other, a))
]

names_of : (ps : List Text) → All (All IsPart) ps → mem_text (codes "..") ps ≡ false → All IsName ps
names_of [] a h = tt
names_of (p ∷ ps) (here, a) h = ((here, λ e. absurd (cc h)), names_of ps a (ground (arith, h)))

-- A path that is_unsafe_path accepts leads from the root to a place inside.
pub join_path-IsInside :
    (ws path : Text) → is_unsafe_path path ≡ false → IsInside ws (join_path ws path)
unfolding is_unsafe_path join_path
join_path-IsInside ws path safe =
    let names = split_slash [] path in
    let same : slashed names ≡ path = slashed-split_slash [] path in
    let relative : starts_with path (codes "/") ≡ false = ground (arith, safe) in
    let good = names_of names (split_slash_parts [] path tt) (ground (arith, safe)) in
    let from_root : IsRelative (slashed names) = λ rest e. cc (relative, sym same ∙ e) in
    rw relative (elim (Bool-cases (eq_text ws [] || ends_with ws (codes "/"))) [
      | inl ended ↦
          rw ended (subst (λ p. IsInside ws (ws ++ p)) same (at_end names good from_root ended))
      | inr plain ↦
          rw plain (subst (λ p. IsInside ws (ws ++ b'/' ∷ p)) same (below names good from_root))
    ])
