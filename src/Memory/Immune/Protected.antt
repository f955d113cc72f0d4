-- ===== src/Memory/Immune/Protected.antt =====
-- Core axioms stay: they are neither evicted nor decayed.
use rfsn_agent_full.Base.{
  Bool-cases, if_both, Option-cases, of_str_eq, String, ◌≡◌, refl, sym, ap, ◌∙◌, ◌⊎◌, inl, inr,
  Bool, true, false, none, some, [], ◌∷◌, str_eq, eq_refl,
}
use rfsn_agent_full.Base.Float.{Floats}
use rfsn_agent_full.Base.Text.{Text}
use rfsn_agent_full.Base.Dict.{Dict, get, put, HasDistinctKeys, get-put, get-remove}
use rfsn_agent_full.Memory.{MemoryEntry, MemoryImmuneSystem, is_core}
use rfsn_agent_full.Memory.Immune.{
  Clock, weakest_from, evict_weakest, drop_stale, is_stale, with_outcome, record_outcome,
}
use mathlib.Core.Option.{some-injective}

module _ (F : Floats) (c : Clock F) where
  open F use {Float, gtb, sub, dec}

  -- The entry under `k` is a core axiom of the content `t`.
  abbrev pub HasCore : Dict (MemoryEntry Float) → String → Text → Type 0
  HasCore d k t =
      (e : MemoryEntry Float) × (get d k ≡ some e) × (is_core e ≡ true) × (e.content ≡ t)

  abbrev pub IsWeak : Dict (MemoryEntry Float) → String → Type 0
  IsWeak d k = (e : MemoryEntry Float) × (get d k ≡ some e) × (is_core e ≡ false)

  IsWeak-later :
      (k : String) (e : MemoryEntry Float) (d : Dict (MemoryEntry Float)) (j : String)
      → get d k ≡ none
      → IsWeak d j
      → IsWeak ((k, e) ∷ d) j
  unfolding get
  IsWeak-later k e d j new (x, found, weak) = elim (Bool-cases (str_eq k j)) [
    | inl same ↦ cc (new, found, of_str_eq k j same)
    | inr other ↦ (x, rw other found, weak)
  ]

  pub weakest_from-IsWeak :
      (key : String) (score : Float) (d : Dict (MemoryEntry Float))
      → HasDistinctKeys d
      → (weakest_from F key score d ≡ key) ⊎ IsWeak d (weakest_from F key score d)
  unfolding weakest_from get
  weakest_from-IsWeak key score [] keys = inl refl
  weakest_from-IsWeak key score ((k, e) ∷ d) (new, keys) =
      let now = sub e.quality_score e.risk_score in
      let skipped : (weakest_from F key score d ≡ key)
          ⊎ IsWeak ((k, e) ∷ d) (weakest_from F key score d) =
        elim (weakest_from-IsWeak key score d keys) [
          | inl same ↦ inl same
          | inr weak ↦ inr (IsWeak-later k e d _ new weak)
        ] in
      elim (Bool-cases (is_core e)) [
        | inl core ↦ rw core skipped
        | inr other ↦
            let here : IsWeak ((k, e) ∷ d) k = (e, rw (eq_refl k) refl, other) in
            let taken : IsWeak ((k, e) ∷ d) (weakest_from F k now d) =
              elim (weakest_from-IsWeak k now d keys) [
                | inl same ↦ rw same here
                | inr weak ↦ IsWeak-later k e d _ new weak
              ] in
            rw other (
              if_both (λ (j : String). (j ≡ key) ⊎ IsWeak ((k, e) ∷ d) j) (gtb score now)
                (if_both (λ (j : String). (j ≡ key) ⊎ IsWeak ((k, e) ∷ d) j) (gtb (dec 0 1) now)
                  (inr here) (inr taken))
                skipped)
      ]

  pub HasCore-put :
      (d : Dict (MemoryEntry Float)) (j : String) (x : MemoryEntry Float) (k : String) (t : Text)
      → str_eq j k ≡ false
      → HasCore d k t
      → HasCore (put d j x) k t
  HasCore-put d j x k t other (e, found, core, content) =
      (e, get-put d j k x ∙ rw other found, core, content)

  pub evict_weakest-HasCore :
      (m : MemoryImmuneSystem Float) (k : String) (t : Text)
      → HasDistinctKeys m.store
      → HasCore m.store k t
      → HasCore (evict_weakest F c m).store k t
  unfolding evict_weakest
  evict_weakest-HasCore m k t keys (e, found, core, content) =
      let key = weakest_from F "" c.inf m.store in
      elim (Bool-cases (str_eq key "")) [
        | inl nobody ↦ rw nobody (e, found, core, content)
        | inr somebody ↦
            let other : str_eq key k ≡ false = elim (weakest_from-IsWeak "" c.inf m.store keys) [
              | inl same ↦ cc (same, somebody, eq_refl "")
              | inr (x, there, weak) ↦ elim (Bool-cases (str_eq key k)) [
                | inl same ↦
                    let at : some x ≡ some e =
                      sym there ∙ ap (get m.store) (of_str_eq key k same) ∙ found in
                    cc (ap is_core (some-injective x e at), weak, core)
                | inr differ ↦ differ
              ]
            ] in
            rw somebody (e, get-remove m.store key k ∙ rw other found, core, content)
      ]

  is_stale-core :
      (now rate : Float) (e : MemoryEntry Float)
      → is_core e ≡ true
      → is_stale F c now rate e ≡ false
  unfolding is_stale
  is_stale-core now rate e core = rw core refl

  pub drop_stale-HasCore :
      (now rate : Float) (d : Dict (MemoryEntry Float)) (k : String) (t : Text)
      → HasCore d k t
      → HasCore (drop_stale F c now rate d).0 k t
  unfolding drop_stale get
  drop_stale-HasCore now rate [] k t (e, found, core, content) = cc found
  drop_stale-HasCore now rate ((j, x) ∷ d) k t (e, found, core, content) =
      elim (Bool-cases (str_eq j k)) [
        | inl same ↦
            let x_core : is_core x ≡ true =
              ap is_core (some-injective x e (rw same at found)) ∙ core in
            rw (is_stale-core now rate x x_core) (e, rw same (rw same at found), core, content)
        | inr other ↦
            let later = drop_stale-HasCore now rate d k t (e, rw other at found, core, content) in
            elim (Bool-cases (is_stale F c now rate x)) [
              | inl stale ↦ rw stale later
              | inr fresh ↦
                  let (e', found', rest, text) = later in rw fresh (e', rw other found', rest, text)
            ]
      ]

  with_outcome-is_core :
      (now : Float) (success : Bool) (e : MemoryEntry Float)
      → (is_core (with_outcome F now success e) ≡ is_core e)
        × ((with_outcome F now success e).content ≡ e.content)
  unfolding with_outcome
  with_outcome-is_core now success e = (refl, refl)

  pub record_outcome-HasCore :
      (now : Float) (j : String) (success : Bool) (m : MemoryImmuneSystem Float) (k : String)
      (t : Text)
      → HasCore m.store k t
      → HasCore (record_outcome F now j success m).store k t
  unfolding record_outcome
  record_outcome-HasCore now j success m k t (e, found, core, content) =
      elim (Option-cases (get m.store j)) [
        | inl absent ↦ rw (absent, record_outcome) (e, found, core, content)
        | inr (x, there) ↦
            rw (there, record_outcome)
              (elim (Bool-cases (str_eq j k)) [
                | inl same ↦
                    let at : some x ≡ some e =
                      sym there ∙ ap (get m.store) (of_str_eq j k same) ∙ found in
                    let x_is : x ≡ e = some-injective x e at in
                    let (status, text) = with_outcome-is_core now success x in
                    (
                      with_outcome F now success x,
                      get-put m.store j k _ ∙ rw same refl,
                      status ∙ ap is_core x_is ∙ core,
                      text ∙ ap (λ y. y.content) x_is ∙ content,
                    )
                | inr other ↦ HasCore-put m.store j _ k t other (e, found, core, content)
              ])
      ]
