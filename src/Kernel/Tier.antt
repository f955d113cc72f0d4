-- ===== src/Kernel/Tier.antt =====
-- rfsn_kernel/tier_policy.py: what a tier lets a step touch, and when a run moves up.
--
-- `fnmatch.fnmatch` of the standard library is a parameter. A step is the part of its dictionary
-- that the code reads; values of other types, which the code skips, are left out of the lists.
pub mod Escalation
pub mod Gate
pub mod Named
pub mod Spared
use rfsn_agent_full.Base.{
  ltb, leb, ◌==◌, if◌then◌else◌, ltb→lt, lt→ltb, leb→le, bool_tests, Bool-cases, Option-cases,
  is_some, str_eq_of, of_str_eq, &&_true, length, get_elem?, take, drop, last_n, any, all, All,
  length-append, length-drop, length-take-le, length-last_n, All-append, get_elem?-append_left,
  get_elem?-append_length, get_elem?-take, length-take, get_elem?-none, get_elem?-some, ℕ, zero,
  suc, ◌+◌, ◌-◌, ◌*◌, ◌/◌, ◌%◌, ◌^◌, ◌≤◌, ◌<◌, min, max, String, ◌≡◌, refl, sym, ap, ◌∙◌, ◌≢◌, ◌↔◌,
  ◌⊎◌, inl, inr, Bool, true, false, not, ◌&&◌, ◌||◌, Option, none, some, List, [], ◌∷◌, ◌++◌, map,
  arith, str_eq, eq_iff, eq_refl,
}
use rfsn_agent_full.Base.Text.{
  Text, codes, starts_with, ends_with, eq_text, strip, splitlines, drop_text, mem_text,
}

-- What the kernel reads of a raw step.
pub record Step : Type 0 where
  pub type_of : String
  pub path : Option Text
  pub paths : List Text
  pub files : List Text
  pub patch : Option Text

pub data Kind : Type 0 where
  code tests deps ci : Kind

pub record Classifiers : Type 0 where
  pub tests_globs : List Text
  pub deps_globs : List Text
  pub ci_globs : List Text

pub record Allow : Type 0 where
  pub edit_tests : Bool
  pub edit_deps : Bool
  pub edit_ci : Bool

-- `Decision` of `pick_next_tier`, with the failure kind that is the reason.
pub record TierDecision : Type 0 where
  pub tier : ℕ
  pub reason : Option String

-- The `requires_any` lists of the escalation rules.
pub record Rules : Type 0 where
  pub to_tier_1 : List String
  pub to_tier_2 : List String
  pub to_tier_3 : List String

module _ (fnmatch : Text → Text → Bool) where
  abbrev glob_one : Text → Text → Bool
  glob_one path g =
      let leaf = drop_text 3 g in
      fnmatch path g
      || (starts_with g (codes "**/")
          && (fnmatch path leaf || ends_with (b'/' ∷ path) (b'/' ∷ leaf)))

  -- `_glob_any`
  unfoldable pub glob_any : Text → List Text → Bool
  glob_any path globs = any (glob_one path) globs

  unfoldable pub classify_path : Text → Classifiers → Kind
  unfolding glob_any
  classify_path path c =
      let p = strip path in
      if eq_text p []
      then code
      else if glob_any p c.tests_globs
      then tests
      else if glob_any p c.deps_globs
      then deps
      else if glob_any p c.ci_globs
      then ci
      else code

-- The first loop of `_paths_from_patch`.
unfoldable pub header_paths : List Text → List Text
header_paths [] = []
header_paths (ln ∷ lns) =
    let rest = header_paths lns in
    if starts_with ln (codes "+++ b/") || starts_with ln (codes "--- a/")
    then strip (drop_text 6 ln) ∷ rest
    else rest

-- The fallback, `^diff --git a/(.+?) b/(.+)$`: `seen` is the first group, reversed.
unfoldable pub after_b : Text → Text → Option (Text × Text)
after_b seen [] = none
after_b seen (c ∷ s) =
    let more = after_b (c ∷ seen) s in
    if starts_with (c ∷ s) (codes " b/")
      && not (eq_text seen [])
      && not (eq_text (drop_text 3 (c ∷ s)) [])
    then some (mathlib.Core.List.reverse seen, drop_text 3 (c ∷ s))
    else more

unfoldable pub git_paths_of : Option (Text × Text) → List Text → List Text
git_paths_of none rest = rest
git_paths_of (some (a, b)) rest = strip a ∷ strip b ∷ rest

unfoldable pub git_paths : List Text → List Text
unfolding after_b git_paths_of
git_paths [] = []
git_paths (ln ∷ lns) =
    let rest = git_paths lns in
    if starts_with ln (codes "diff --git a/")
    then git_paths_of (after_b [] (drop_text 13 ln)) rest
    else rest

abbrev pub or_else : List Text → List Text → List Text
or_else [] ys = ys
or_else (x ∷ xs) ys = x ∷ xs

-- `_paths_from_patch`
unfoldable pub paths_from_patch : Text → List Text
paths_from_patch patch = let lns = splitlines patch in or_else (header_paths lns) (git_paths lns)

-- The loop that drops repeated paths and keeps the order.
unfoldable pub dedupe : List Text → List Text → List Text
dedupe seen [] = []
dedupe seen (x ∷ xs) =
    let again = dedupe seen xs in
    let first = x ∷ dedupe (x ∷ seen) xs in if mem_text x seen then again else first

abbrev option_list {ℓ} : {A : Type ℓ} → Option A → List A
option_list none = []
option_list (some a) = a ∷ []

abbrev pub patch_paths : Option Text → List Text
patch_paths none = []
patch_paths (some p) = paths_from_patch p

unfoldable pub step_touches : Step → List Text
step_touches s = dedupe [] (option_list s.path ++ (s.paths ++ (s.files ++ patch_paths s.patch)))

abbrev pub forbids : Allow → Kind → Bool
forbids a tests = not a.edit_tests
forbids a deps = not a.edit_deps
forbids a ci = not a.edit_ci
forbids a code = false

-- The loop of `tier_allows_step`: the first path that the tier forbids, with its kind.
unfoldable pub first_forbidden : (Text → Kind) → Allow → List Text → Option (Kind × Text)
first_forbidden kind_of a [] = none
first_forbidden kind_of a (p ∷ ps) =
    let rest = first_forbidden kind_of a ps in
    if forbids a (kind_of p) then some (kind_of p, p) else rest

unfoldable pub tier_allows_step :
    (Text → Text → Bool) → Step → Allow → Classifiers → Option (Kind × Text)
tier_allows_step fnmatch s a c = first_forbidden (λ p. classify_path fnmatch p c) a (step_touches s)

-- The first rule whose failure kind is among those of the step.
first_rule : List String → List String → Option String
first_rule kinds [] = none
first_rule kinds (r ∷ rs) =
    let rest = first_rule kinds rs in if any (λ k. str_eq k r) kinds then some r else rest

abbrev escalate_or : ℕ → Option String → TierDecision → TierDecision
escalate_or tier none d = d
escalate_or tier (some r) d = record { tier = tier; reason = some r }

unfoldable pub pick_next_tier : ℕ → List String → Rules → TierDecision
unfolding first_rule
pick_next_tier current kinds rules =
    let stay : TierDecision = record { tier = current; reason = none } in
    let third =
      if ltb current 3 then escalate_or 3 (first_rule kinds rules.to_tier_3) stay else stay in
    let second =
      if ltb current 2 then escalate_or 2 (first_rule kinds rules.to_tier_2) third else third in
    if ltb current 1 then escalate_or 1 (first_rule kinds rules.to_tier_1) second else second
