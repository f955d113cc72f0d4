-- ===== src/Base/Dict.antt =====
-- Python's `dict` with text keys, as the list of its entries in the order of insertion.
use Prim.Native.Nat.{◌+◌, ◌≤◌, ◌<◌}
use Prim.Native.String.{String}
use mathlib.Core.Path.{◌≡◌, refl, sym, subst, ap, ◌∙◌}
use mathlib.Core.Logic.{inl, inr}
use mathlib.Core.Bool.{Bool, true}
use mathlib.Core.List.{List, [], ◌∷◌, ◌++◌, map}
use mathlib.Core.Option.{Option, none, some, some-injective}
use native.Mathlib.Omega.{arith}
use text.Mathlib.Text.{◌==◌ as str_eq}
use text.Mathlib.TextEquality.{eq_iff}
use rfsn_agent_full.Base.Tests.{if◌then◌else◌, is_some, if_both, Bool-cases}
use rfsn_agent_full.Base.Lists.{length, All}

abbrev pub Dict {ℓ} : Type ℓ → Type ℓ
Dict V = List (String × V)

module _ {ℓ} {V : Type ℓ} where
  -- `d.get(k)`
  unfoldable pub get : Dict V → String → Option V
  get [] k = none
  get ((j, v) ∷ d) k = if str_eq j k then some v else get d k

  -- `d[k] = v`: an old key keeps its place, a new one goes to the end.
  unfoldable pub put : Dict V → String → V → Dict V
  put [] k v = (k, v) ∷ []
  put ((j, w) ∷ d) k v = if str_eq j k then (j, v) ∷ d else (j, w) ∷ put d k v

  -- `d.pop(k, None)`
  unfoldable pub remove : Dict V → String → Dict V
  remove [] k = []
  remove ((j, v) ∷ d) k = let rest = remove d k in if str_eq j k then rest else (j, v) ∷ rest

  abbrev pub values : Dict V → List V
  values d = map (λ e. e.1) d

  abbrev pub contains : Dict V → String → Bool
  contains d k = is_some (get d k)

  pub get-put :
      (d : Dict V) (k j : String) (v : V)
      → get (put d k v) j ≡ (if str_eq k j then some v else get d j)
  unfolding get put
  get-put [] k j v = refl
  get-put ((i, w) ∷ d) k j v = ground (arith, eq_iff k j, eq_iff i k, eq_iff i j, get-put d k j v)

  pub get-remove :
      (d : Dict V) (k j : String) → get (remove d k) j ≡ (if str_eq k j then none else get d j)
  unfolding get remove
  get-remove [] k j = ground arith
  get-remove ((i, w) ∷ d) k j = ground (arith, eq_iff k j, eq_iff i k, eq_iff i j, get-remove d k j)

  -- The number of entries grows by one exactly for a new key.
  pub length-put :
      (d : Dict V) (k : String) (v : V)
      → length (put d k v) ≡ (if is_some (get d k) then length d else length d + 1)
  unfolding get put
  length-put [] k v = omega arith
  length-put ((i, w) ∷ d) k v = ground (arith, length-put d k v)

  pub length-remove-le : (d : Dict V) (k : String) → length (remove d k) ≤ length d
  unfolding remove
  length-remove-le [] k = omega arith
  length-remove-le ((i, w) ∷ d) k = ground (arith, length-remove-le d k)

  pub length-remove :
      (d : Dict V) (k : String) → is_some (get d k) ≡ true → length (remove d k) < length d
  unfolding get remove
  length-remove [] k h = absurd (ground arith)
  length-remove ((i, w) ∷ d) k h = ground (arith, length-remove d k, length-remove-le d k)

module _ {ℓ κ} {V : Type ℓ} (Q : V → Type κ) where
  -- A predicate of every value.
  abbrev pub AllValues : Dict V → Type κ
  AllValues d = All (λ e. Q e.1) d

  pub AllValues-put : (d : Dict V) (k : String) (v : V) → AllValues d → Q v → AllValues (put d k v)
  unfolding put
  AllValues-put [] k v h q = (q, tt)
  AllValues-put ((i, w) ∷ d) k v (p, h) q =
      if_both (AllValues) (str_eq i k) (q, h) (p, AllValues-put d k v h q)

  pub AllValues-remove : (d : Dict V) (k : String) → AllValues d → AllValues (remove d k)
  unfolding remove
  AllValues-remove [] k h = tt
  AllValues-remove ((i, w) ∷ d) k (p, h) =
      if_both (AllValues) (str_eq i k) (AllValues-remove d k h) (p, AllValues-remove d k h)

  pub AllValues-get : (d : Dict V) (k : String) {v : V} → AllValues d → get d k ≡ some v → Q v
  unfolding get
  AllValues-get [] k h e = cc
  AllValues-get ((i, w) ∷ d) k (p, h) e = elim (Bool-cases (str_eq i k)) [
    | inl same ↦ subst Q (some-injective w _ (rw same at e)) p
    | inr other ↦ AllValues-get d k h (rw other at e)
  ]

module _ {ℓ} {V : Type ℓ} where
  -- Every key stands once, as it does in every dictionary.
  abbrev pub HasDistinctKeys : Dict V → Type ℓ
  HasDistinctKeys [] = Unit
  HasDistinctKeys ((k, v) ∷ d) = (get d k ≡ none) × HasDistinctKeys d

  pub put_new : (d : Dict V) (k : String) (v : V) → get d k ≡ none → put d k v ≡ d ++ (k, v) ∷ []
  unfolding get put
  put_new [] k v h = refl
  put_new ((i, w) ∷ d) k v h = elim (Bool-cases (str_eq i k)) [
    | inl same ↦ cc (rw same at h)
    | inr other ↦ rw other (ap (λ rest. (i, w) ∷ rest) (put_new d k v (rw other at h)))
  ]

  pub HasDistinctKeys-put :
      (d : Dict V) (k : String) (v : V) → HasDistinctKeys d → HasDistinctKeys (put d k v)
  unfolding put
  HasDistinctKeys-put [] k v h = (unfold get in refl, tt)
  HasDistinctKeys-put ((i, w) ∷ d) k v (new, h) = elim (Bool-cases (str_eq i k)) [
    | inl same ↦ rw same (new, h)
    | inr other ↦
        rw other (
          get-put d k i v ∙ ground (arith, eq_iff k i, eq_iff i k, new),
          HasDistinctKeys-put d k v h,
        )
  ]

  pub HasDistinctKeys-remove :
      (d : Dict V) (k : String) → HasDistinctKeys d → HasDistinctKeys (remove d k)
  unfolding remove
  HasDistinctKeys-remove [] k h = tt
  HasDistinctKeys-remove ((i, w) ∷ d) k (new, h) =
      if_both HasDistinctKeys (str_eq i k) (HasDistinctKeys-remove d k h) (
        get-remove d k i ∙ if_both (λ o. o ≡ none) (str_eq k i) refl new,
        HasDistinctKeys-remove d k h,
      )

module _ {ℓ κ} {V : Type ℓ} (Q : String × V → Type κ) where
  pub All-put : (d : Dict V) (k : String) (v : V) → All Q d → Q (k, v) → All Q (put d k v)
  unfolding put
  All-put [] k v h q = (q, tt)
  All-put ((i, w) ∷ d) k v (p, h) q = elim (Bool-cases (str_eq i k)) [
    | inl same ↦ let e : k ≡ i = sym ((eq_iff i k).0 same) in rw same (subst (λ j. Q (j, v)) e q, h)
    | inr other ↦ rw other (p, All-put d k v h q)
  ]

  pub All-remove : (d : Dict V) (k : String) → All Q d → All Q (remove d k)
  unfolding remove
  All-remove [] k h = tt
  All-remove ((i, w) ∷ d) k (p, h) =
      if_both (All Q) (str_eq i k) (All-remove d k h) (p, All-remove d k h)

  pub All-get : (d : Dict V) (k : String) {v : V} → All Q d → get d k ≡ some v → Q (k, v)
  unfolding get
  All-get [] k h e = cc
  All-get ((i, w) ∷ d) k {v} (p, h) e = elim (Bool-cases (str_eq i k)) [
    | inl same ↦
        let f : w ≡ v = some-injective w v (rw same at e) in
        subst (λ u. Q (k, u)) f (subst (λ j. Q (j, w)) ((eq_iff i k).0 same) p)
    | inr other ↦ All-get d k h (rw other at e)
  ]

pub ruleset dict_laws = (get-put, get-remove)
