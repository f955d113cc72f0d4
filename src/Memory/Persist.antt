-- ===== src/Memory/Persist.antt =====
-- rfsn_kernel/memory.py: saving the store to a file of JSON lines, and loading it.
--
-- A line is what `json.loads` reads in it: nothing in a blank line, no object, or an object with
-- the values of the keys that `load` reads. The clock is read once in a load.
pub mod RoundTrip
use rfsn_agent_full.Base.{
  ltb, leb, ◌==◌, if◌then◌else◌, ltb→lt, lt→ltb, leb→le, bool_tests, Bool-cases, if_both,
  Option-cases, is_some, str_eq_of, of_str_eq, &&_true, length, get_elem?, take, drop, last_n, any,
  all, All, length-append, length-drop, length-take-le, length-last_n, All-append,
  get_elem?-append_left, get_elem?-append_length, get_elem?-take, length-take, get_elem?-none,
  get_elem?-some, ℕ, zero, suc, ◌+◌, ◌-◌, ◌*◌, ◌/◌, ◌%◌, ◌^◌, ◌≤◌, ◌<◌, min, max, String, ◌≡◌, refl,
  sym, ap, ◌∙◌, ◌≢◌, ◌↔◌, ◌⊎◌, inl, inr, Bool, true, false, not, ◌&&◌, ◌||◌, Option, none, some,
  List, [], ◌∷◌, ◌++◌, map, arith, str_eq, eq_iff, eq_refl,
}
use rfsn_agent_full.Base.Float.{Floats}
use rfsn_agent_full.Base.Text.{Text}
use rfsn_agent_full.Base.Dict.{Dict, get, put, values}
use rfsn_agent_full.Memory.{MemoryEntry, MemoryImmuneSystem, is_core}
use rfsn_agent_full.Memory.Immune.{Clock}

pub record Fields (Float : Type 0) : Type 0 where
  pub content : Option Text
  pub source : Option String
  pub entry_type : Option String
  pub provenance_hash : Option String
  pub quality_score : Option Float
  pub risk_score : Option Float
  pub contradiction_score : Option Float
  pub access_count : Option ℕ
  pub success_count : Option ℕ
  pub failure_count : Option ℕ
  pub created_at : Option Float
  pub last_accessed : Option Float
  pub version : Option ℕ
  pub status : Option String

pub data Line (Float : Type 0) : Type 0 where
  blank : Line Float
  garbled : Line Float
  object : Fields Float → Line Float

abbrev pub value_or {ℓ} : {A : Type ℓ} → Option A → A → A
value_or none d = d
value_or (some a) d = a

module _ {Float : Type 0} where
  -- `_entry_to_record`
  unfoldable pub entry_to_record : MemoryEntry Float → Fields Float
  entry_to_record e = record {
    content = some e.content;
    source = some e.source;
    entry_type = some e.entry_type;
    provenance_hash = some e.provenance_hash;
    quality_score = some e.quality_score;
    risk_score = some e.risk_score;
    contradiction_score = some e.contradiction_score;
    access_count = some e.access_count;
    success_count = some e.success_count;
    failure_count = some e.failure_count;
    created_at = some e.created_at;
    last_accessed = some e.last_accessed;
    version = some e.version;
    status = some e.status;
  }

  -- `save`: the file that it writes, the number it returns, and the system.
  unfoldable pub save :
      MemoryImmuneSystem Float → (List (Line Float) × ℕ) × MemoryImmuneSystem Float
  save m = (
    (map (λ e. object (entry_to_record e)) (values m.store), length m.store),
    record m { needs_full_save = false },
  )

module _ (F : Floats) (c : Clock F) (hash_of : MemoryEntry F.Float → String) where
  open F use {Float, dec}

  -- `MemoryEntry.__post_init__`, at the time `now`.
  unfoldable pub post_init : Float → MemoryEntry Float → MemoryEntry Float
  post_init now e =
      let e1 = record e { created_at = if c.truthy e.created_at then e.created_at else now } in
      record e1 {
        provenance_hash = if str_eq e1.provenance_hash "" then hash_of e1 else e1.provenance_hash;
      }

  filled : Float → Fields Float → Text → String → String → MemoryEntry Float
  filled now d content source entry_type = post_init now (record {
    content = content;
    source = source;
    entry_type = entry_type;
    provenance_hash = value_or d.provenance_hash "";
    quality_score = value_or d.quality_score (dec 3 1);
    risk_score = value_or d.risk_score (dec 0 1);
    contradiction_score = value_or d.contradiction_score (dec 0 1);
    access_count = value_or d.access_count 0;
    success_count = value_or d.success_count 0;
    failure_count = value_or d.failure_count 0;
    created_at = value_or d.created_at (dec 0 1);
    last_accessed = value_or d.last_accessed (dec 0 1);
    version = value_or d.version 0;
    status = value_or d.status "active";
  })

  required :
      Float
      → Fields Float
      → Option Text
      → Option String
      → Option String
      → Option (MemoryEntry Float)
  unfolding filled
  required now d (some content) (some source) (some entry_type) =
      some (filled now d content source entry_type)
  required now d _ _ _ = none

  -- The entry of an object; none is the `KeyError` of a missing key.
  unfoldable pub entry_of : Float → Fields Float → Option (MemoryEntry Float)
  unfolding required
  entry_of now d = required now d d.content d.source d.entry_type

  -- Where `load` puts an entry, and whether it counts it.
  unfoldable pub place :
      MemoryEntry Float → MemoryImmuneSystem Float × ℕ → MemoryImmuneSystem Float × ℕ
  place e (m, count) =
      let key = e.provenance_hash in
      if is_core e
      then (
        record m { core_axioms = put m.core_axioms key e; store = put m.store key e },
        count + 1,
      )
      else (if str_eq e.status "quarantined"
          then (record m { quarantined = put m.quarantined key e }, count)
          else (record m { store = put m.store key e }, count + 1))

  place_found :
      Option (MemoryEntry Float) → MemoryImmuneSystem Float × ℕ → MemoryImmuneSystem Float × ℕ
  place_found none s = s
  place_found (some e) s = place e s

  -- The loop of `load`.
  unfoldable pub load_lines :
      Float → List (Line Float) → MemoryImmuneSystem Float × ℕ → MemoryImmuneSystem Float × ℕ
  unfolding place_found
  load_lines now [] s = s
  load_lines now (blank ∷ lines) s = load_lines now lines s
  load_lines now (garbled ∷ lines) s = load_lines now lines s
  load_lines now (object d ∷ lines) s = load_lines now lines (place_found (entry_of now d) s)

  -- `load`: of no file, it loads nothing.
  unfoldable pub load :
      Float → Option (List (Line Float)) → MemoryImmuneSystem Float → MemoryImmuneSystem Float × ℕ
  load now none m = (m, 0)
  load now (some lines) m = load_lines now lines (m, 0)
