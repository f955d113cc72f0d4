-- ===== src/Memory/Persist/RoundTrip.antt =====
-- What is saved is loaded again.
use rfsn_agent_full.Base.{
  Bool-cases, of_str_eq, length, all, All, ℕ, ◌+◌, String, ◌≡◌, refl, sym, ap, ◌∙◌, ◌⊎◌, inl, inr,
  false, none, some, List, [], ◌∷◌, ◌++◌, map, arith, str_eq, eq_refl,
}
use rfsn_agent_full.Base.Float.{Floats}
use rfsn_agent_full.Base.Text.{Unicode}
use rfsn_agent_full.Base.Dict.{Dict, get, put, values, HasDistinctKeys, put_new, get-put}
use rfsn_agent_full.Memory.{MemoryEntry, MemoryImmuneSystem, is_core, init}
use rfsn_agent_full.Memory.Immune.{Clock}
use rfsn_agent_full.Memory.Immune.WellFormed.{
  Call, perform_all, IsFiled, IsStored, IsMade, perform_all-IsWellFormed,
}
use rfsn_agent_full.Memory.Persist.{
  Line, object, entry_to_record, save, post_init, entry_of, place, load_lines, load,
}
use mathlib.Core.List.{append_assoc, append-nil}

module _ (F : Floats) (c : Clock F) (u : Unicode) (hash_of : MemoryEntry F.Float → String) where
  open F use {Float}

  abbrev saved_lines : Dict (MemoryEntry Float) → List (Line Float)
  saved_lines d = map (λ e. object (entry_to_record e)) (values d)

  entry_of-entry_to_record :
      (now : Float) (k : String) (e : MemoryEntry Float)
      → IsFiled F c u (k, e)
      → entry_of F c hash_of now (entry_to_record e) ≡ some e
  unfolding entry_of entry_to_record post_init
  entry_of-entry_to_record now k e (named, same, made) =
      let n : str_eq e.provenance_hash "" ≡ false = rw same at named in rw (made, n) refl

  place-store :
      (e : MemoryEntry Float) (m : MemoryImmuneSystem Float) (n : ℕ)
      → str_eq e.status "quarantined" ≡ false
      → ((place F c hash_of e (m, n)).0.store ≡ put m.store e.provenance_hash e)
        × ((place F c hash_of e (m, n)).1 ≡ n + 1)
  unfolding place
  place-store e m n h = elim (Bool-cases (is_core e)) [
    | inl core ↦ rw core (refl, refl)
    | inr other ↦ rw (other, h) (refl, refl)
  ]

  -- No key is in both.
  abbrev AreApart : Dict (MemoryEntry Float) → Dict (MemoryEntry Float) → Type 0
  AreApart d d' = (k : String) → (get d k ≡ none) ⊎ (get d' k ≡ none)

  apart_next :
      (d d' : Dict (MemoryEntry Float)) (k : String) (e : MemoryEntry Float)
      → get d' k ≡ none
      → AreApart d ((k, e) ∷ d')
      → AreApart (put d k e) d'
  unfolding get
  apart_next d d' k e new apart j = elim (Bool-cases (str_eq k j)) [
    | inl same ↦ inr (ap (get d') (sym (of_str_eq k j same)) ∙ new)
    | inr other ↦ elim (apart j) [
      | inl left ↦ inl (get-put d k j e ∙ rw other left)
      | inr right ↦ inr (rw other at right)
    ]
  ]

  apart_first :
      (d d' : Dict (MemoryEntry Float)) (k : String) (e : MemoryEntry Float)
      → AreApart d ((k, e) ∷ d')
      → get d k ≡ none
  unfolding get
  apart_first d d' k e apart = elim (apart k) [
    | inl left ↦ left
    | inr right ↦ cc (rw (eq_refl k) at right)
  ]

  abbrev Loads : Dict (MemoryEntry Float) → ℕ → MemoryImmuneSystem Float × ℕ → Type 0
  Loads d n (m, count) = (m.store ≡ d) × (count ≡ n)

  load_lines-object :
      (now : Float) (k : String) (e : MemoryEntry Float) (lines : List (Line Float))
      (s : MemoryImmuneSystem Float × ℕ)
      → IsFiled F c u (k, e)
      → load_lines F c hash_of now (object (entry_to_record e) ∷ lines) s
        ≡ load_lines F c hash_of now lines (place F c hash_of e s)
  unfolding load_lines
  load_lines-object now k e lines s filed =
      rw (entry_of-entry_to_record now k e filed, load_lines) refl

  load_lines-saved :
      (now : Float) (d : Dict (MemoryEntry Float)) (m : MemoryImmuneSystem Float) (n : ℕ)
      → HasDistinctKeys d
      → All (IsStored F c u) d
      → AreApart m.store d
      → Loads (m.store ++ d) (n + length d) (load_lines F c hash_of now (saved_lines d) (m, n))
  load_lines-saved now [] m n keys stored apart =
      unfold load_lines in (sym (append-nil m.store), omega arith)
  load_lines-saved now ((k, e) ∷ d) m n (new, keys) ((filed, active), stored) apart =
      let (store, count) = place-store e m n active in
      let s = place F c hash_of e (m, n) in
      let store' : s.0.store ≡ put m.store k e = store ∙ ap (λ j. put m.store j e) (sym filed.1) in
      let apart' : AreApart s.0.store d = rw store' (apart_next m.store d k e new apart) in
      let (all, total) = load_lines-saved now d s.0 s.1 keys stored apart' in
      rw (load_lines-object now k e (saved_lines d) (m, n) filed) (
        all
            ∙ ap (λ x. x ++ d) (store' ∙ put_new m.store k e (apart_first m.store d k e apart))
            ∙ append_assoc m.store ((k, e) ∷ []) d,
        omega arith,
      )

  -- After any sequence of calls on a new system, with entries made by their constructor, the file
  -- that `save` writes is loaded into another new system with the same store, entry for entry and
  -- in the same order; `save` and `load` both return the number of its entries.
  pub load-save :
      (quality_min risk_max contradiction_max decay_rate now : Float) (max_entries : ℕ)
      (xs : List (Call Float))
      → All (IsMade F c u) xs
      → let new = init quality_min risk_max contradiction_max decay_rate max_entries in
        let m = perform_all F c u xs new in
        let saved = (save m).0 in
        let loaded = load F c hash_of now (some saved.0) new in
        (loaded.0.store ≡ m.store) × (saved.1 ≡ length m.store) × (loaded.1 ≡ length m.store)
  unfolding save load init
  load-save quality_min risk_max contradiction_max decay_rate now max_entries xs made =
      let new = init quality_min risk_max contradiction_max decay_rate max_entries in
      let ((keys, stored), _) = perform_all-IsWellFormed F c u xs new made ((tt, tt), tt) in
      let m = perform_all F c u xs new in
      let (same, count) =
        load_lines-saved now m.store new 0 keys stored (λ k. inl (unfold get in refl)) in
      (same, refl, count ∙ omega arith)
