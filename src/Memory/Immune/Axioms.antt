-- ===== src/Memory/Immune/Axioms.antt =====
-- No sequence of calls loses a core axiom.
use rfsn_agent_full.Base.{
  ltb, leb, if_both, Option-cases, length, All, String, ◌≡◌, inl, inr, false, List, [], ◌∷◌, str_eq,
}
use rfsn_agent_full.Base.Float.{Floats}
use rfsn_agent_full.Base.Text.{Text, Unicode}
use rfsn_agent_full.Base.Dict.{get, HasDistinctKeys}
use rfsn_agent_full.Memory.{MemoryEntry, MemoryImmuneSystem, AdmissionResult}
use rfsn_agent_full.Memory.Immune.{
  Clock, scored, take_in, quarantine_in, admit, protect_axiom, drop_stale, decay,
  promote_quarantined,
}
use rfsn_agent_full.Memory.Immune.WellFormed.{
  Call, to_admit, to_protect, to_decay, to_record, to_promote, perform, perform_all, IsWellFormed,
  IsMade, perform-IsWellFormed,
}
use rfsn_agent_full.Memory.Immune.Protected.{
  HasCore, HasCore-put, evict_weakest-HasCore, drop_stale-HasCore, record_outcome-HasCore,
}

module _ (F : Floats) (c : Clock F) (u : Unicode) where
  open F use {Float, gtb}

  -- The call brings no other entry under the key.
  abbrev pub Spares : String → Call Float → Type 0
  Spares k (to_admit e) = str_eq e.provenance_hash k ≡ false
  Spares k (to_protect e) = str_eq e.provenance_hash k ≡ false
  Spares k (to_promote j) = str_eq j k ≡ false
  Spares k _ = Unit

  take_in-HasCore :
      (e : MemoryEntry Float) (m : MemoryImmuneSystem Float) (k : String) (t : Text)
      → HasDistinctKeys m.store
      → str_eq e.provenance_hash k ≡ false
      → HasCore F c m.store k t
      → HasCore F c (take_in F c e m).store k t
  unfolding take_in
  take_in-HasCore e m k t keys other h = HasCore-put F c _ e.provenance_hash _ k t other (
      if_both (λ (n : MemoryImmuneSystem Float). HasCore F c n.store k t)
        (leb m.max_entries (length m.store)) (evict_weakest-HasCore F c m k t keys h) h)

  admit-HasCore :
      (e : MemoryEntry Float) (m : MemoryImmuneSystem Float) (k : String) (t : Text)
      → HasDistinctKeys m.store
      → str_eq e.provenance_hash k ≡ false
      → HasCore F c m.store k t
      → HasCore F c (admit F c u e m).0.store k t
  unfolding admit scored quarantine_in
  admit-HasCore e m k t keys other h =
      let e' = scored F u m e in
      let P : MemoryImmuneSystem Float × AdmissionResult Float → Type 0 =
        λ s. HasCore F c s.0.store k t in
      if_both P (gtb e'.risk_score m.risk_max) h (
        if_both P (gtb e'.contradiction_score m.contradiction_max) h (
          if_both P (gtb m.quality_min e'.quality_score) h (take_in-HasCore e' m k t keys other h)))

  perform-HasCore :
      (x : Call Float) (m : MemoryImmuneSystem Float) (k : String) (t : Text)
      → HasDistinctKeys m.store
      → Spares k x
      → HasCore F c m.store k t
      → HasCore F c (perform F c u x m).store k t
  unfolding perform protect_axiom decay promote_quarantined get
  perform-HasCore (to_admit e) m k t keys other h = admit-HasCore e m k t keys other h
  perform-HasCore (to_protect e) m k t keys other h = HasCore-put F c m.store _ _ k t other h
  perform-HasCore (to_decay now) m k t keys other h =
      let kept = drop_stale-HasCore F c now m.decay_rate m.store k t h in
      if_both (λ (n : MemoryImmuneSystem Float). HasCore F c n.store k t)
        (ltb 0 (drop_stale F c now m.decay_rate m.store).1) kept kept
  perform-HasCore (to_record now key success) m k t keys other h =
      record_outcome-HasCore F c now key success m k t h
  perform-HasCore (to_promote key) m k t keys other h =
      elim (Option-cases (get m.quarantined key)) [
        | inl absent ↦ rw (absent, perform, promote_quarantined) h
        | inr (e, found) ↦
            rw (found, perform, promote_quarantined) (HasCore-put F c m.store key _ k t other h)
      ]

  -- A core axiom outlives every sequence of calls that brings no other entry under its hash: none
  -- of them evicts it, decays it or changes its content, and it stays core.
  pub perform_all-HasCore :
      (xs : List (Call Float)) (m : MemoryImmuneSystem Float) (k : String) (t : Text)
      → IsWellFormed F c u m
      → All (IsMade F c u) xs
      → All (Spares k) xs
      → HasCore F c m.store k t
      → HasCore F c (perform_all F c u xs m).store k t
  unfolding perform_all
  perform_all-HasCore [] m k t wf made spared h = h
  perform_all-HasCore (x ∷ xs) m k t wf (q, made) (other, spared) h =
      perform_all-HasCore xs (perform F c u x m) k t (perform-IsWellFormed F c u x m q wf) made
        spared (perform-HasCore x m k t wf.0.0 other h)
