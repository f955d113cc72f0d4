-- ===== src/Memory.antt =====
-- rfsn_kernel/memory.py: memory entries, and what the immune system keeps.
--
-- Content is the list of its code points. Each call is given an object of its own: no entry is
-- mutated by its caller after it was handed over.
pub mod Score
pub mod Immune
pub mod Retrieve
pub mod Persist
pub mod Frustration
use rfsn_agent_full.Base.{
  ltb, leb, ◌==◌, if◌then◌else◌, ltb→lt, lt→ltb, leb→le, bool_tests, Bool-cases, if_both,
  Option-cases, is_some, str_eq_of, of_str_eq, &&_true, length, get_elem?, take, drop, last_n, any,
  all, All, length-append, length-drop, length-take-le, length-last_n, All-append,
  get_elem?-append_left, get_elem?-append_length, get_elem?-take, length-take, get_elem?-none,
  get_elem?-some, ℕ, zero, suc, ◌+◌, ◌-◌, ◌*◌, ◌/◌, ◌%◌, ◌^◌, ◌≤◌, ◌<◌, min, max, String, ◌≡◌, refl,
  sym, ap, ◌∙◌, ◌≢◌, ◌↔◌, ◌⊎◌, inl, inr, Bool, true, false, not, ◌&&◌, ◌||◌, Option, none, some,
  List, [], ◌∷◌, ◌++◌, map, arith, str_eq, eq_iff, eq_refl,
}
use rfsn_agent_full.Base.Text.{Text, is_space}
use rfsn_agent_full.Base.Dict.{Dict}
use mathlib.Core.List.{reverse}

-- `MemoryDecision`
pub data MemoryDecision : Type 0 where
  admitted quarantine rejected : MemoryDecision

-- `MemoryEntry`, without its cache of words.
pub record MemoryEntry (Float : Type 0) : Type 0 where
  pub content : Text
  pub source : String
  pub entry_type : String
  pub provenance_hash : String
  pub quality_score : Float
  pub risk_score : Float
  pub contradiction_score : Float
  pub access_count : ℕ
  pub success_count : ℕ
  pub failure_count : ℕ
  pub created_at : Float
  pub last_accessed : Float
  pub version : ℕ
  pub status : String

-- Why an entry was not admitted, or that it was.
pub data AdmissionReason : Type 0 where
  risk_too_high contradiction_detected quality_too_low passed : AdmissionReason

-- `AdmissionResult`
pub record AdmissionResult (Float : Type 0) : Type 0 where
  pub decision : MemoryDecision
  pub reason : AdmissionReason
  pub quality_score : Float
  pub risk_score : Float
  pub contradiction_score : Float

-- `MemoryImmuneSystem`, without the list of the entries that `append_save` has to write.
pub record MemoryImmuneSystem (Float : Type 0) : Type 0 where
  pub quality_min : Float
  pub risk_max : Float
  pub contradiction_max : Float
  pub decay_rate : Float
  pub max_entries : ℕ
  pub store : Dict (MemoryEntry Float)
  pub core_axioms : Dict (MemoryEntry Float)
  pub quarantined : Dict (MemoryEntry Float)
  pub version : ℕ
  pub needs_full_save : Bool

-- `MemoryImmuneSystem.__init__`
unfoldable pub init :
    {Float : Type 0} (quality_min risk_max contradiction_max decay_rate : Float)
    → ℕ
    → MemoryImmuneSystem Float
init quality_min risk_max contradiction_max decay_rate max_entries = record {
  quality_min = quality_min;
  risk_max = risk_max;
  contradiction_max = contradiction_max;
  decay_rate = decay_rate;
  max_entries = max_entries;
  store = [];
  core_axioms = [];
  quarantined = [];
  version = 0;
  needs_full_save = false;
}

abbrev pub is_core : {Float : Type 0} → MemoryEntry Float → Bool
is_core e = str_eq e.status "core"
