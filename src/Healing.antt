-- ===== src/Healing.antt =====
-- rfsn_kernel/self_healing: the monitor that watches the outcomes of runs. The shared types.
--
-- A log is the list of its code points. Times are floats of the clock.
pub mod Signals
pub mod Memory
pub mod Core
pub mod Bounds
pub mod Window
use rfsn_agent_full.Base.{
  ltb, leb, ◌==◌, if◌then◌else◌, ltb→lt, lt→ltb, leb→le, bool_tests, Bool-cases, Option-cases,
  is_some, str_eq_of, of_str_eq, &&_true, length, get_elem?, take, drop, last_n, any, all, All,
  length-append, length-drop, length-take-le, length-last_n, All-append, get_elem?-append_left,
  get_elem?-append_length, get_elem?-take, length-take, get_elem?-none, get_elem?-some, ℕ, zero,
  suc, ◌+◌, ◌-◌, ◌*◌, ◌/◌, ◌%◌, ◌^◌, ◌≤◌, ◌<◌, min, max, String, ◌≡◌, refl, sym, ap, ◌∙◌, ◌≢◌, ◌↔◌,
  ◌⊎◌, inl, inr, Bool, true, false, not, ◌&&◌, ◌||◌, Option, none, some, List, [], ◌∷◌, ◌++◌, map,
  arith, str_eq, eq_iff, eq_refl,
}
use rfsn_agent_full.Base.Text.{Text}

-- `Signal`
pub record Signal (Float : Type 0) : Type 0 where
  pub failure_type : String
  pub stack_fingerprint : String
  pub anomaly_score : Float
  pub detail : Text
  pub raw_traceback : Text

-- `RootCause`
pub record RootCause (Float : Type 0) : Type 0 where
  pub cause_id : String
  pub description : String
  pub suggested_action : String
  pub confidence : Float

-- `FailureCluster`
pub record FailureCluster (Float : Type 0) : Type 0 where
  pub fingerprint : String
  pub failure_type : String
  pub first_seen : Float
  pub last_seen : Float
  pub count : ℕ
  pub details : List Text
  pub root_cause : Option (RootCause Float)

pub data HardeningLevel : Type 0 where
  fast balanced hardened : HardeningLevel
