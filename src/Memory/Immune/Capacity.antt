-- ===== src/Memory/Immune/Capacity.antt =====
-- The gates of `admit`, and its bound on the number of entries.
use rfsn_agent_full.Base.{
  leb, if◌then◌else◌, Bool-cases, if_both, is_some, length, any, All, ℕ, ◌+◌, ◌≤◌, ◌<◌, String, ◌≡◌,
  refl, ◌⊎◌, inl, inr, Bool, true, false, not, ◌&&◌, none, some, [], ◌∷◌, arith, str_eq, eq_refl,
}
use rfsn_agent_full.Base.Float.{Floats}
use rfsn_agent_full.Base.Text.{Unicode}
use rfsn_agent_full.Base.Dict.{Dict, get, put, remove, HasDistinctKeys, length-put, length-remove}
use rfsn_agent_full.Memory.{
  MemoryDecision, admitted, quarantine, rejected, MemoryEntry, MemoryImmuneSystem, is_core,
}
use rfsn_agent_full.Memory.Immune.{Clock, weakest_from, evict_weakest, take_in}
use rfsn_agent_full.Memory.Immune.Protected.{IsWeak, weakest_from-IsWeak}

module _ (F : Floats) (c : Clock F) where
  open F use {Float, gtb, sub, dec}

  -- An entry that the eviction can take: it is not core, and its score is below the infinite one.
  abbrev pub is_evictable : String × MemoryEntry Float → Bool
  is_evictable (k, e) = not (is_core e) && gtb c.inf (sub e.quality_score e.risk_score)

  abbrev pub HasName : String × MemoryEntry Float → Type 0
  HasName (k, e) = str_eq k "" ≡ false

  weakest_from-named :
      (key : String) (score : Float) (d : Dict (MemoryEntry Float))
      → All HasName d
      → str_eq key "" ≡ false
      → str_eq (weakest_from F key score d) "" ≡ false
  unfolding weakest_from
  weakest_from-named key score [] named h = h
  weakest_from-named key score ((k, e) ∷ d) (n, named) h =
      let P : String → Type 0 = λ j. str_eq j "" ≡ false in
      let now = sub e.quality_score e.risk_score in
      let skipped = weakest_from-named key score d named h in
      if_both P (is_core e) skipped (
        if_both P (gtb score now)
          (if_both P (gtb (dec 0 1) now) n (weakest_from-named k now d named n)) skipped)

  weakest_from-found :
      (d : Dict (MemoryEntry Float))
      → All HasName d
      → any is_evictable d ≡ true
      → str_eq (weakest_from F "" c.inf d) "" ≡ false
  unfolding weakest_from
  weakest_from-found [] named h = cc h
  weakest_from-found ((k, e) ∷ d) (n, named) h =
      let P : String → Type 0 = λ j. str_eq j "" ≡ false in
      let now = sub e.quality_score e.risk_score in
      let taken : P (if gtb (dec 0 1) now then k else weakest_from F k now d) =
        if_both P (gtb (dec 0 1) now) n (weakest_from-named k now d named n) in
      elim (Bool-cases (is_core e)) [
        | inl core ↦ rw core (weakest_from-found d named (rw core at h))
        | inr other ↦ elim (Bool-cases (gtb c.inf now)) [
          | inl finite ↦ rw (other, finite) taken
          | inr same ↦ rw (other, same) (weakest_from-found d named (rw (other, same) at h))
        ]
      ]

  -- A key that the search finds is in the store.
  weakest_is_some :
      (d : Dict (MemoryEntry Float))
      → HasDistinctKeys d
      → str_eq (weakest_from F "" c.inf d) "" ≡ false
      → is_some (get d (weakest_from F "" c.inf d)) ≡ true
  weakest_is_some d keys h = elim (weakest_from-IsWeak F c "" c.inf d keys) [
    | inl same ↦ cc (same, h, eq_refl "")
    | inr (e, found, _) ↦ rw found refl
  ]

  put_within :
      (d : Dict (MemoryEntry Float)) (k : String) (e : MemoryEntry Float) (n : ℕ)
      → length d < n
      → length (put d k e) ≤ n
  put_within d k e n h =
      rw (length-put d k e)
        (if_both (λ (x : ℕ). x ≤ n) (is_some (get d k)) (omega arith) (omega arith))

  take_in-length :
      (e : MemoryEntry Float) (m : MemoryImmuneSystem Float)
      → HasDistinctKeys m.store
      → All HasName m.store
      → 1 ≤ m.max_entries
      → length m.store ≤ m.max_entries
      → any is_evictable m.store ≡ true
      → length (take_in F c e m).store ≤ m.max_entries
  unfolding take_in evict_weakest
  take_in-length e m keys named one size some_weak =
      let found = weakest_from-found m.store named some_weak in
      let key = weakest_from F "" c.inf m.store in
      let less = length-remove m.store key (weakest_is_some m.store keys found) in
      elim (Bool-cases (leb m.max_entries (length m.store))) [
        | inl full ↦
            rw (full, found) (put_within (remove m.store key) e.provenance_hash _ _ (omega arith))
        | inr room ↦ rw room (put_within m.store e.provenance_hash _ _ (ground arith))
      ]

module _ (F : Floats) (c : Clock F) (u : Unicode) where
  open F use {Float, gtb}

  -- The dictionary `d'` has `e` under `k`, and under every other key what `d` has.
  abbrev pub IsWritten :
      String → MemoryEntry Float → Dict (MemoryEntry Float) → Dict (MemoryEntry Float) → Type 0
  IsWritten k e d d' = (j : String) → get d' j ≡ (if str_eq k j then some e else get d j)

  -- Of the store `d`, one entry that is not core is gone.
  abbrev pub IsEvicted : Dict (MemoryEntry Float) → Dict (MemoryEntry Float) → Type 0
  IsEvicted d d' =
      (victim : String) × IsWeak F c d victim
      × ((j : String) → get d' j ≡ (if str_eq victim j then none else get d j))

  -- The store is as it was, or it was at its limit and one entry is gone.
  abbrev pub HasRoom : MemoryImmuneSystem Float → Dict (MemoryEntry Float) → Type 0
  HasRoom m d = (d ≡ m.store) ⊎ ((m.max_entries ≤ length m.store) × IsEvicted m.store d)

  -- What each decision of `admit` says of the entry with its scores and of the memory after it.
  abbrev pub Gated :
      MemoryEntry Float
      → MemoryImmuneSystem Float
      → MemoryImmuneSystem Float
      → MemoryDecision
      → Type 0
  Gated e m m' rejected =
      (m' ≡ m) × ((gtb e.risk_score m.risk_max ≡ true) ⊎ (gtb m.quality_min e.quality_score ≡ true))
  Gated e m m' quarantine =
      (m' ≡ record m { quarantined = m'.quarantined; version = m.version + 1 })
      × IsWritten e.provenance_hash (record e { status = "quarantined" }) m.quarantined
          m'.quarantined
      × (gtb e.risk_score m.risk_max ≡ false)
      × (gtb e.contradiction_score m.contradiction_max ≡ true)
  Gated e m m' admitted =
      (m' ≡ record m {
        store = m'.store;
        version = m.version + 1;
        needs_full_save = m'.needs_full_save;
      })
      × ((d : Dict (MemoryEntry Float)) × HasRoom m d
          × IsWritten e.provenance_hash (record e { status = "active"; version = m.version }) d
              m'.store)
      × (gtb e.risk_score m.risk_max ≡ false)
      × (gtb e.contradiction_score m.contradiction_max ≡ false)
      × (gtb m.quality_min e.quality_score ≡ false)
