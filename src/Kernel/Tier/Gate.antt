-- ===== src/Kernel/Tier/Gate.antt =====
-- What a tier's gate lets through.
use rfsn_agent_full.Base.{
  Bool-cases, all, ◌≡◌, refl, ◌↔◌, inl, inr, Bool, true, not, none, List, [], ◌∷◌, ◌++◌, arith,
}
use rfsn_agent_full.Base.Text.{Text, mem_text, all_mem}
use rfsn_agent_full.Kernel.Tier.{
  Step, Kind, Classifiers, Allow, forbids, first_forbidden, classify_path, dedupe, step_touches,
  option_list, patch_paths, tier_allows_step,
}

-- Every path that a step names, repeated ones included.
abbrev pub named_paths : Step → List Text
named_paths s = option_list s.path ++ (s.paths ++ (s.files ++ patch_paths s.patch))

-- Dropping repeated paths loses none.
all-dedupe :
    (q : Text → Bool) (seen xs : List Text) → all q seen ≡ true → all q (dedupe seen xs) ≡ all q xs
unfolding dedupe
all-dedupe q seen [] h = refl
all-dedupe q seen (x ∷ xs) h = elim (Bool-cases (mem_text x seen)) [
  | inl old ↦ rw old (ground (arith, all-dedupe q seen xs h, all_mem q x seen h old))
  | inr new ↦ rw new (elim (Bool-cases (q x)) [
    | inl good ↦ ground (arith, all-dedupe q (x ∷ seen) xs (ground arith))
    | inr bad ↦ ground arith
  ])
]

first_forbidden-none :
    (kind_of : Text → Kind) (a : Allow) (ps : List Text)
    → (first_forbidden kind_of a ps ≡ none) ↔ (all (λ p. not (forbids a (kind_of p))) ps ≡ true)
unfolding first_forbidden
first_forbidden-none kind_of a [] = ((λ _. refl), λ _. refl)
first_forbidden-none kind_of a (p ∷ ps) =
    let ih = first_forbidden-none kind_of a ps in
    elim (Bool-cases (forbids a (kind_of p))) [
      | inl bad ↦ rw bad ((λ h. cc), λ h. cc)
      | inr good ↦ rw good ih
    ]

-- The gate lets a step through exactly when no path that the step names, in any of its fields or in
-- its patch, is of a kind that the tier forbids.
pub tier_allows_step_iff :
    (fnmatch : Text → Text → Bool) (s : Step) (a : Allow) (c : Classifiers)
    → (tier_allows_step fnmatch s a c ≡ none)
      ↔ (all (λ p. not (forbids a (classify_path fnmatch p c))) (named_paths s) ≡ true)
unfolding tier_allows_step step_touches
tier_allows_step_iff fnmatch s a c =
    rw (← all-dedupe (λ p. not (forbids a (classify_path fnmatch p c))) [] (named_paths s) refl)
      (first_forbidden-none (λ p. classify_path fnmatch p c) a (dedupe [] (named_paths s)))
