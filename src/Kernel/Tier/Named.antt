-- ===== src/Kernel/Tier/Named.antt =====
-- The paths that a step names, described by its fields and by the header lines of its patch.
use rfsn_agent_full.Base.{
  ◌==◌, Bool-cases, any, All, ℕ, ◌≡◌, refl, sym, ap, ◌∙◌, inl, inr, Bool, true, false, ◌||◌, Option,
  none, some, List, [], ◌∷◌, ◌++◌, arith,
}
use rfsn_agent_full.Base.Text.{
  Text, codes, starts_with, eq_text, eq_text_sound, eq_text_refl, strip, splitlines, drop_text,
  mem_text, mem_text-append_left, mem_text-append_right, IsInWord,
}
use rfsn_agent_full.Kernel.Tier.{
  Step, header_paths, after_b, git_paths_of, git_paths, or_else, paths_from_patch, option_list,
  patch_paths,
}
use rfsn_agent_full.Kernel.Tier.Gate.{named_paths}
use mathlib.Core.List.{reverse, reverse-cons, append_assoc, append-nil}

-- "+++ b/REST" and "--- a/REST"
abbrev pub new_line : Text → Text
new_line rest = codes "+++ b/" ++ rest

abbrev pub old_line : Text → Text
old_line rest = codes "--- a/" ++ rest

abbrev pub is_header : Text → Bool
is_header line = starts_with line (codes "+++ b/") || starts_with line (codes "--- a/")

-- "diff --git a/OLD b/NEW"
abbrev pub git_line : Text → Text → Text
git_line old new = codes "diff --git a/" ++ (old ++ 32 ∷ b'b' ∷ b'/' ∷ new)

-- The paths that the lines of a patch name: those of its +++ and --- lines, and in a patch that has
-- none of them those of its "diff --git" lines, with an old name that has no white space.
pub data IsNamedBy (lines : List Text) : Text → Type 0 where
  new_file : (rest : Text) → mem_text (new_line rest) lines ≡ true → IsNamedBy lines (strip rest)
  old_file : (rest : Text) → mem_text (old_line rest) lines ≡ true → IsNamedBy lines (strip rest)
  git_old :
      (c d : ℕ) (old new : Text)
      → any is_header lines ≡ false
      → All IsInWord (c ∷ old)
      → mem_text (git_line (c ∷ old) (d ∷ new)) lines ≡ true
      → IsNamedBy lines (strip (c ∷ old))
  git_new :
      (c d : ℕ) (old new : Text)
      → any is_header lines ≡ false
      → All IsInWord (c ∷ old)
      → mem_text (git_line (c ∷ old) (d ∷ new)) lines ≡ true
      → IsNamedBy lines (strip (d ∷ new))

pub data IsNamed (s : Step) (p : Text) : Type 0 where
  at_path : s.path ≡ some p → IsNamed s p
  in_paths : mem_text p s.paths ≡ true → IsNamed s p
  in_files : mem_text p s.files ≡ true → IsNamed s p
  in_patch : (patch : Text) → s.patch ≡ some patch → IsNamedBy (splitlines patch) p → IsNamed s p

header_paths-new_line :
    (rest : Text) (lines : List Text)
    → mem_text (new_line rest) lines ≡ true
    → mem_text (strip rest) (header_paths lines) ≡ true
unfolding header_paths
header_paths-new_line rest [] h = cc h
header_paths-new_line rest (l ∷ lines) h = elim (Bool-cases (eq_text (new_line rest) l)) [
  | inl same ↦
      rw (← eq_text_sound (new_line rest) l same) (ground (arith, eq_text_refl (strip rest)))
  | inr other ↦ elim (Bool-cases (is_header l)) [
    | inl header ↦ rw header (ground (arith, header_paths-new_line rest lines (rw other at h)))
    | inr plain ↦ rw plain (header_paths-new_line rest lines (rw other at h))
  ]
]

header_paths-old_line :
    (rest : Text) (lines : List Text)
    → mem_text (old_line rest) lines ≡ true
    → mem_text (strip rest) (header_paths lines) ≡ true
unfolding header_paths
header_paths-old_line rest [] h = cc h
header_paths-old_line rest (l ∷ lines) h = elim (Bool-cases (eq_text (old_line rest) l)) [
  | inl same ↦
      rw (← eq_text_sound (old_line rest) l same) (ground (arith, eq_text_refl (strip rest)))
  | inr other ↦ elim (Bool-cases (is_header l)) [
    | inl header ↦ rw header (ground (arith, header_paths-old_line rest lines (rw other at h)))
    | inr plain ↦ rw plain (header_paths-old_line rest lines (rw other at h))
  ]
]

header_paths-nil : (lines : List Text) → any is_header lines ≡ false → header_paths lines ≡ []
unfolding header_paths
header_paths-nil [] h = refl
header_paths-nil (l ∷ lines) h = elim (Bool-cases (is_header l)) [
  | inl header ↦ cc (rw header at h)
  | inr plain ↦ rw plain (header_paths-nil lines (rw plain at h))
]

after_b-git :
    (w d : ℕ) (ws old new : Text)
    → All IsInWord old
    → after_b (w ∷ ws) (old ++ 32 ∷ b'b' ∷ b'/' ∷ d ∷ new) ≡ some (reverse (w ∷ ws) ++ old, d ∷ new)
unfolding after_b
after_b-git w d ws [] new a = ap (λ r. some (r, d ∷ new)) (sym (append-nil (reverse (w ∷ ws))))
after_b-git w d ws (c ∷ old) new (p, a) =
    let other : (c == 32) ≡ false = ground (arith, p) in
    let ih = after_b-git c d (w ∷ ws) old new a in
    rw other (
      ih
      ∙ ap (λ r. some (r, d ∷ new))
          (ap (λ r. r ++ old) (reverse-cons c (w ∷ ws))
            ∙ append_assoc (reverse (w ∷ ws)) (c ∷ []) old))

git_line_found :
    (c d : ℕ) (old new : Text)
    → All IsInWord (c ∷ old)
    → after_b [] (drop_text 13 (git_line (c ∷ old) (d ∷ new))) ≡ some (c ∷ old, d ∷ new)
unfolding after_b
git_line_found c d old new (p, a) =
    let other : (c == 32) ≡ false = ground (arith, p) in rw other (after_b-git c d [] old new a)

git_paths_of_kept :
    (x : Text) (o : Option (Text × Text)) (rest : List Text)
    → mem_text x rest ≡ true
    → mem_text x (git_paths_of o rest) ≡ true
unfolding git_paths_of
git_paths_of_kept x none rest h = h
git_paths_of_kept x (some (a, b)) rest h = ground (arith, h)

git_paths_of_both :
    (a b : Text) (rest : List Text)
    → (mem_text a (a ∷ b ∷ rest) ≡ true) × (mem_text b (a ∷ b ∷ rest) ≡ true)
git_paths_of_both a b rest = (ground (arith, eq_text_refl a), ground (arith, eq_text_refl b))

git_paths-git_line :
    (c d : ℕ) (old new : Text) (lines : List Text)
    → All IsInWord (c ∷ old)
    → mem_text (git_line (c ∷ old) (d ∷ new)) lines ≡ true
    → (mem_text (strip (c ∷ old)) (git_paths lines) ≡ true)
      × (mem_text (strip (d ∷ new)) (git_paths lines) ≡ true)
unfolding git_paths git_paths_of
git_paths-git_line c d old new [] a h = cc h
git_paths-git_line c d old new (l ∷ lines) a h =
    elim (Bool-cases (eq_text (git_line (c ∷ old) (d ∷ new)) l)) [
      | inl same ↦ rw (← eq_text_sound (git_line (c ∷ old) (d ∷ new)) l same) (
          rw (git_line_found c d old new a)
            (git_paths_of_both (strip (c ∷ old)) (strip (d ∷ new)) (git_paths lines)))
      | inr other ↦
          let (x, y) = git_paths-git_line c d old new lines a (rw other at h) in
          elim (Bool-cases (starts_with l (codes "diff --git a/"))) [
            | inl git ↦
                let o = after_b [] (drop_text 13 l) in
                rw git (
                  git_paths_of_kept (strip (c ∷ old)) o (git_paths lines) x,
                  git_paths_of_kept (strip (d ∷ new)) o (git_paths lines) y,
                )
            | inr plain ↦ rw plain (x, y)
          ]
    ]

-- A path in the first list is in the list that or_else gives.
mem_text-or_else :
    (x : Text) (xs ys : List Text) → mem_text x xs ≡ true → mem_text x (or_else xs ys) ≡ true
mem_text-or_else x [] ys h = cc h
mem_text-or_else x (z ∷ xs) ys h = h

paths_from_patch-IsNamedBy :
    (patch p : Text) → IsNamedBy (splitlines patch) p → mem_text p (paths_from_patch patch) ≡ true
unfolding paths_from_patch
paths_from_patch-IsNamedBy patch _ (new_file rest m) =
    let lines = splitlines patch in
    mem_text-or_else (strip rest) (header_paths lines) (git_paths lines)
      (header_paths-new_line rest (splitlines patch) m)
paths_from_patch-IsNamedBy patch _ (old_file rest m) =
    let lines = splitlines patch in
    mem_text-or_else (strip rest) (header_paths lines) (git_paths lines)
      (header_paths-old_line rest (splitlines patch) m)
paths_from_patch-IsNamedBy patch _ (git_old c d old new plain a m) =
    rw (header_paths-nil (splitlines patch) plain)
      (git_paths-git_line c d old new (splitlines patch) a m).0
paths_from_patch-IsNamedBy patch _ (git_new c d old new plain a m) =
    rw (header_paths-nil (splitlines patch) plain)
      (git_paths-git_line c d old new (splitlines patch) a m).1

-- Every path that a step names is in the list of its paths.
pub named_paths-IsNamed : (s : Step) (p : Text) → IsNamed s p → mem_text p (named_paths s) ≡ true
named_paths-IsNamed s p n =
    let last = patch_paths s.patch in
    let tail = s.files ++ last in
    let rest = s.paths ++ tail in
    let first = option_list s.path in
    elim n [
      | at_path e ↦ mem_text-append_left p first rest (rw e (ground (arith, eq_text_refl p)))
      | in_paths m ↦ mem_text-append_right p first rest (mem_text-append_left p s.paths tail m)
      | in_files m ↦
          mem_text-append_right p first rest
            (mem_text-append_right p s.paths tail (mem_text-append_left p s.files last m))
      | in_patch patch e named ↦ mem_text-append_right p first rest (
          mem_text-append_right p s.paths tail (
            mem_text-append_right p s.files last (rw e (paths_from_patch-IsNamedBy patch p named))))
    ]
