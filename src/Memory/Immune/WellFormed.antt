-- ===== src/Memory/Immune/WellFormed.antt =====
-- The operations on the memory as steps, and what every sequence of them keeps.
use rfsn_agent_full.Base.{
  ltb, leb, Bool-cases, if_both, Option-cases, length, All, String, ◌≡◌, refl, inl, inr, Bool, true,
  false, none, List, [], ◌∷◌, str_eq,
}
use rfsn_agent_full.Base.Float.{Floats}
use rfsn_agent_full.Base.Text.{Unicode}
use rfsn_agent_full.Base.Dict.{
  Dict, get, put, HasDistinctKeys, HasDistinctKeys-put, HasDistinctKeys-remove, All-put, All-remove,
  All-get,
}
use rfsn_agent_full.Memory.{MemoryEntry, MemoryImmuneSystem, AdmissionResult}
use rfsn_agent_full.Memory.Immune.{
  Clock, evict_weakest, scored, take_in, quarantine_in, admit, protect_axiom, drop_stale, is_stale,
  decay, with_outcome, record_outcome, promote_quarantined,
}

-- A call of the immune system.
pub data Call (Float : Type 0) : Type 0 where
  to_admit : MemoryEntry Float → Call Float
  to_protect : MemoryEntry Float → Call Float
  to_decay : (now : Float) → Call Float
  to_record : (now : Float) (key : String) (success : Bool) → Call Float
  to_promote : (key : String) → Call Float

module _ (F : Floats) (c : Clock F) (u : Unicode) where
  open F use {Float, gtb}

  -- What a call leaves.
  unfoldable pub perform : Call Float → MemoryImmuneSystem Float → MemoryImmuneSystem Float
  perform (to_admit e) m = (admit F c u e m).0
  perform (to_protect e) m = protect_axiom F e m
  perform (to_decay now) m = (decay F c now m).0
  perform (to_record now key success) m = record_outcome F now key success m
  perform (to_promote key) m = (promote_quarantined F key m).0

  unfoldable pub perform_all :
      List (Call Float) → MemoryImmuneSystem Float → MemoryImmuneSystem Float
  perform_all [] m = m
  perform_all (x ∷ xs) m = perform_all xs (perform x m)

  -- The entry has a creation time and a provenance hash, as its constructor gives it, and it stands
  -- under that hash.
  abbrev pub IsFiled : String × MemoryEntry Float → Type 0
  IsFiled (key, e) =
      (str_eq key "" ≡ false) × (key ≡ e.provenance_hash) × (c.truthy e.created_at ≡ true)

  abbrev pub IsStored : String × MemoryEntry Float → Type 0
  IsStored x = IsFiled x × (str_eq x.1.status "quarantined" ≡ false)

  abbrev pub IsStore : Dict (MemoryEntry Float) → Type 0
  IsStore d = HasDistinctKeys d × All IsStored d

  abbrev pub IsWellFormed : MemoryImmuneSystem Float → Type 0
  IsWellFormed m = IsStore m.store × All IsFiled m.quarantined

  -- The entries that a call brings were made by the constructor.
  abbrev pub IsMade : Call Float → Type 0
  IsMade (to_admit e) = IsFiled (e.provenance_hash, e)
  IsMade (to_protect e) = IsFiled (e.provenance_hash, e)
  IsMade _ = Unit

  IsStore-put :
      (d : Dict (MemoryEntry Float)) (k : String) (e : MemoryEntry Float)
      → IsStore d
      → IsStored (k, e)
      → IsStore (put d k e)
  IsStore-put d k e (keys, stored) q =
      (HasDistinctKeys-put d k e keys, All-put IsStored d k e stored q)

  evict_weakest-IsWellFormed :
      (m : MemoryImmuneSystem Float) → IsWellFormed m → IsWellFormed (evict_weakest F c m)
  unfolding evict_weakest
  evict_weakest-IsWellFormed m ((keys, stored), filed) =
      if_both IsWellFormed (str_eq _ "") ((keys, stored), filed)
        ((HasDistinctKeys-remove m.store _ keys, All-remove IsStored m.store _ stored), filed)

  take_in-IsWellFormed :
      (e : MemoryEntry Float) (m : MemoryImmuneSystem Float)
      → IsFiled (e.provenance_hash, e)
      → IsWellFormed m
      → IsWellFormed (take_in F c e m)
  unfolding take_in
  take_in-IsWellFormed e m q h =
      let (store, filed) =
        if_both IsWellFormed (leb m.max_entries (length m.store)) (evict_weakest-IsWellFormed m h)
          h in
      (IsStore-put _ e.provenance_hash _ store (q, refl), filed)

  admit-IsWellFormed :
      (e : MemoryEntry Float) (m : MemoryImmuneSystem Float)
      → IsFiled (e.provenance_hash, e)
      → IsWellFormed m
      → IsWellFormed (admit F c u e m).0
  unfolding admit scored quarantine_in
  admit-IsWellFormed e m q h =
      let e' = scored F u m e in
      let P : MemoryImmuneSystem Float × AdmissionResult Float → Type 0 = λ s. IsWellFormed s.0 in
      if_both P (gtb e'.risk_score m.risk_max) h (
        if_both P (gtb e'.contradiction_score m.contradiction_max)
          (h.0, All-put IsFiled m.quarantined e.provenance_hash _ h.1 q)
          (if_both P (gtb m.quality_min e'.quality_score) h (take_in-IsWellFormed e' m q h)))

  drop_stale-get :
      (now rate : Float) (d : Dict (MemoryEntry Float)) (k : String)
      → get d k ≡ none
      → get (drop_stale F c now rate d).0 k ≡ none
  unfolding drop_stale get
  drop_stale-get now rate [] k h = refl
  drop_stale-get now rate ((i, e) ∷ d) k h = elim (Bool-cases (str_eq i k)) [
    | inl same ↦ cc (rw same at h)
    | inr other ↦
        let rest = drop_stale-get now rate d k (rw other at h) in
        elim (Bool-cases (is_stale F c now rate e)) [
          | inl stale ↦ rw stale rest
          | inr fresh ↦ rw (fresh, other) rest
        ]
  ]

  drop_stale-kept :
      (now rate : Float) (d : Dict (MemoryEntry Float))
      → HasDistinctKeys d
      → All IsStored d
      → HasDistinctKeys (drop_stale F c now rate d).0 × All IsStored (drop_stale F c now rate d).0
  unfolding drop_stale
  drop_stale-kept now rate [] keys stored = (tt, tt)
  drop_stale-kept now rate ((i, e) ∷ d) (new, keys) (p, stored) =
      let (keys', stored') = drop_stale-kept now rate d keys stored in
      elim (Bool-cases (is_stale F c now rate e)) [
        | inl stale ↦ rw stale (keys', stored')
        | inr fresh ↦ rw fresh ((drop_stale-get now rate d i new, keys'), (p, stored'))
      ]

  pub perform-IsWellFormed :
      (x : Call Float) (m : MemoryImmuneSystem Float)
      → IsMade x
      → IsWellFormed m
      → IsWellFormed (perform x m)
  unfolding perform protect_axiom decay record_outcome promote_quarantined with_outcome
  perform-IsWellFormed (to_admit e) m q h = admit-IsWellFormed e m q h
  perform-IsWellFormed (to_protect e) m q (store, filed) =
      (IsStore-put m.store _ _ store (q, refl), filed)
  perform-IsWellFormed (to_decay now) m q ((keys, stored), filed) =
      let store = drop_stale-kept now m.decay_rate m.store keys stored in
      if_both IsWellFormed (ltb 0 (drop_stale F c now m.decay_rate m.store).1) (store, filed)
        (store, filed)
  perform-IsWellFormed (to_record now key success) m q (store, filed) =
      elim (Option-cases (get m.store key)) [
        | inl absent ↦ rw (absent, perform) (store, filed)
        | inr (e, found) ↦
            rw (found, perform)
              (IsStore-put m.store key _ store (All-get IsStored m.store key store.1 found), filed)
      ]
  perform-IsWellFormed (to_promote key) m q (store, filed) =
      elim (Option-cases (get m.quarantined key)) [
        | inl absent ↦ rw (absent, perform) (store, filed)
        | inr (e, found) ↦
            rw (found, perform)
              (
                IsStore-put m.store key _ store
                    (All-get IsFiled m.quarantined key filed found, refl),
                All-remove IsFiled m.quarantined key filed,
              )
      ]

  pub perform_all-IsWellFormed :
      (xs : List (Call Float)) (m : MemoryImmuneSystem Float)
      → All IsMade xs
      → IsWellFormed m
      → IsWellFormed (perform_all xs m)
  unfolding perform_all
  perform_all-IsWellFormed [] m made h = h
  perform_all-IsWellFormed (x ∷ xs) m (q, made) h =
      perform_all-IsWellFormed xs (perform x m) made (perform-IsWellFormed x m q h)
