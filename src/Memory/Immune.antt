-- ===== src/Memory/Immune.antt =====
-- rfsn_kernel/memory.py: the operations of the immune system that change its state.
pub mod WellFormed
pub mod Protected
pub mod Capacity
pub mod Axioms
use rfsn_agent_full.Base.{
  ltb, leb, ◌==◌, if◌then◌else◌, ltb→lt, lt→ltb, leb→le, bool_tests, Bool-cases, if_both,
  Option-cases, is_some, str_eq_of, of_str_eq, &&_true, length, get_elem?, take, drop, last_n, any,
  all, All, length-append, length-drop, length-take-le, length-last_n, All-append,
  get_elem?-append_left, get_elem?-append_length, get_elem?-take, length-take, get_elem?-none,
  get_elem?-some, ℕ, zero, suc, ◌+◌, ◌-◌, ◌*◌, ◌/◌, ◌%◌, ◌^◌, ◌≤◌, ◌<◌, min, max, String, ◌≡◌, refl,
  sym, ap, ◌∙◌, ◌≢◌, ◌↔◌, ◌⊎◌, inl, inr, Bool, true, false, not, ◌&&◌, ◌||◌, Option, none, some,
  List, [], ◌∷◌, ◌++◌, map, arith, str_eq, eq_iff, eq_refl,
}
use rfsn_agent_full.Base.Float.{Floats, of_ℕ, min_float, max_float}
use rfsn_agent_full.Base.Text.{Text, Unicode}
use rfsn_agent_full.Base.Dict.{Dict, get, put, remove, contains, values}
use rfsn_agent_full.Memory.{
  MemoryDecision, admitted, quarantine, rejected, MemoryEntry, AdmissionReason, risk_too_high,
  contradiction_detected, quality_too_low, passed, AdmissionResult, MemoryImmuneSystem, is_core,
}
use rfsn_agent_full.Memory.Score.{quality_score_of, risk_score_of, contradiction_score_of}

-- What the immune system takes from outside: `inf` is `float("inf")`, and `truthy` is the truth
-- value of a float.
pub record Clock (F : Floats) : Type 0 where
  pub inf : F.Float
  pub truthy : F.Float → Bool

module _ (F : Floats) where
  open F use {Float, dec, add, sub, mul, div, gtb}

  -- The loop of `_evict_weakest`, from the weakest key and score so far; "" stands for None, which
  -- is as false as it.
  unfoldable pub weakest_from : String → Float → Dict (MemoryEntry Float) → String
  weakest_from key weakest [] = key
  weakest_from key weakest ((k, e) ∷ rest) =
      let score = sub e.quality_score e.risk_score in
      let skipped = weakest_from key weakest rest in
      let taken = weakest_from k score rest in
      if is_core e
      then skipped
      else (if gtb weakest score then (if gtb (dec 0 1) score then k else taken) else skipped)

  -- `_evict_weakest`
  unfoldable pub evict_weakest : Clock F → MemoryImmuneSystem Float → MemoryImmuneSystem Float
  evict_weakest c m =
      let key = weakest_from "" c.inf m.store in
      if str_eq key "" then m else record m { store = remove m.store key; needs_full_save = true }

  abbrev admission : MemoryDecision → AdmissionReason → MemoryEntry Float → AdmissionResult Float
  admission decision reason e = record {
    decision = decision;
    reason = reason;
    quality_score = e.quality_score;
    risk_score = e.risk_score;
    contradiction_score = e.contradiction_score;
  }

  -- The three scores, written into the entry.
  unfoldable pub scored : Unicode → MemoryImmuneSystem Float → MemoryEntry Float → MemoryEntry Float
  scored u m e = record e {
    quality_score = quality_score_of F u e;
    risk_score = risk_score_of F u m e;
    contradiction_score = contradiction_score_of F u m e;
  }

  -- The capacity gate and the admission at the end of `admit`.
  unfoldable pub take_in :
      Clock F → MemoryEntry Float → MemoryImmuneSystem Float → MemoryImmuneSystem Float
  take_in c e m =
      let m1 = if leb m.max_entries (length m.store) then evict_weakest c m else m in
      record m1 {
        store =
            put m1.store e.provenance_hash (record e { status = "active"; version = m1.version });
        version = m1.version + 1;
      }

  unfoldable pub quarantine_in :
      MemoryEntry Float → MemoryImmuneSystem Float → MemoryImmuneSystem Float
  quarantine_in e m = record m {
    quarantined = put m.quarantined e.provenance_hash (record e { status = "quarantined" });
    version = m.version + 1;
  }

  -- `admit`
  unfoldable pub admit :
      Clock F
      → Unicode
      → MemoryEntry Float
      → MemoryImmuneSystem Float
      → MemoryImmuneSystem Float × AdmissionResult Float
  admit c u entry m =
      let e = scored u m entry in
      if gtb e.risk_score m.risk_max
      then (m, admission rejected risk_too_high e)
      else (if gtb e.contradiction_score m.contradiction_max
          then (quarantine_in e m, admission quarantine contradiction_detected e)
          else (if gtb m.quality_min e.quality_score
              then (m, admission rejected quality_too_low e)
              else (take_in c e m, admission admitted passed e)))

  -- `protect_axiom`
  unfoldable pub protect_axiom :
      MemoryEntry Float → MemoryImmuneSystem Float → MemoryImmuneSystem Float
  protect_axiom entry m =
      let e = record entry { status = "core" } in
      record m {
        core_axioms = put m.core_axioms e.provenance_hash e;
        store = put m.store e.provenance_hash e;
      }

  abbrev or_float : Clock F → Float → Float → Float
  or_float c a b = if c.truthy a then a else b

  -- The test of `decay` at the time `now`.
  unfoldable pub is_stale : Clock F → Float → Float → MemoryEntry Float → Bool
  is_stale c now rate e =
      let age = sub now e.created_at in
      let idle = sub now (or_float c e.last_accessed e.created_at) in
      let factor = mul (mul rate (div age (of_ℕ F 3600))) (div idle (of_ℕ F 3600)) in
      not (is_core e) && ((gtb factor (dec 10 1) && ltb e.access_count 3) || gtb factor (dec 20 1))

  -- The keys that are removed, and how many.
  unfoldable pub drop_stale :
      Clock F → Float → Float → Dict (MemoryEntry Float) → Dict (MemoryEntry Float) × ℕ
  drop_stale c now rate [] = ([], 0)
  drop_stale c now rate ((k, e) ∷ rest) =
      let (kept, decayed) = drop_stale c now rate rest in
      if is_stale c now rate e then (kept, decayed + 1) else ((k, e) ∷ kept, decayed)

  -- `decay`
  unfoldable pub decay : Clock F → Float → MemoryImmuneSystem Float → MemoryImmuneSystem Float × ℕ
  decay c now m =
      let (kept, decayed) = drop_stale c now m.decay_rate m.store in
      let m1 = record m { store = kept } in
      (
        if ltb 0 decayed then record m1 { version = m.version + 1; needs_full_save = true } else m1,
        decayed,
      )

  -- The update of an entry in `record_outcome`.
  unfoldable pub with_outcome : Float → Bool → MemoryEntry Float → MemoryEntry Float
  with_outcome now success e =
      let s = if success then e.success_count + 1 else e.success_count in
      let f = if success then e.failure_count else e.failure_count + 1 in
      let total = s + f in
      let k_factor =
        max_float F (dec 5 2) (div (dec 4 1) (add (of_ℕ F 1) (mul (of_ℕ F total) (dec 1 1)))) in
      let actual = if success then dec 10 1 else dec 0 1 in
      let moved = add e.quality_score (mul k_factor (sub actual e.quality_score)) in
      record e {
        success_count = s;
        failure_count = f;
        last_accessed = now;
        access_count = e.access_count + 1;
        quality_score = max_float F (dec 1 2) (min_float F (dec 10 1) moved);
      }

  update_over :
      Float
      → String
      → Bool
      → MemoryImmuneSystem Float
      → Option (MemoryEntry Float)
      → MemoryImmuneSystem Float
  update_over now key success m none = m
  update_over now key success m (some e) = record m {
    store = put m.store key (with_outcome now success e);
  }

  -- `record_outcome`
  unfoldable pub record_outcome :
      Float → String → Bool → MemoryImmuneSystem Float → MemoryImmuneSystem Float
  unfolding update_over
  record_outcome now key success m = update_over now key success m (get m.store key)

  promote_over :
      String
      → MemoryImmuneSystem Float
      → Option (MemoryEntry Float)
      → MemoryImmuneSystem Float × Bool
  promote_over key m none = (m, false)
  promote_over key m (some e) = (
    record m {
      quarantined = remove m.quarantined key;
      store = put m.store key (record e { status = "active" });
      version = m.version + 1;
    },
    true,
  )

  -- `promote_quarantined`
  unfoldable pub promote_quarantined :
      String → MemoryImmuneSystem Float → MemoryImmuneSystem Float × Bool
  unfolding promote_over
  promote_quarantined key m = promote_over key m (get m.quarantined key)
