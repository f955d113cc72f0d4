-- ===== src/Phase.antt =====
-- services/orchestrator/phase_tracker.py: the phase of a run, and which step types may follow.
-- A message of `check_transition` is data: the reason and what it names.
pub mod Walk
use rfsn_agent_full.Base.{
  ltb, leb, ◌==◌, if◌then◌else◌, ltb→lt, lt→ltb, leb→le, bool_tests, Bool-cases, Option-cases,
  is_some, length, get_elem?, take, drop, last_n, any, all, All, length-append, length-drop,
  length-take-le, length-last_n, All-append, ℕ, zero, suc, ◌+◌, ◌-◌, ◌*◌, ◌/◌, ◌%◌, ◌^◌, ◌≤◌, ◌<◌,
  min, max, String, ◌≡◌, refl, sym, ap, ◌∙◌, ◌≢◌, ◌↔◌, ◌⊎◌, inl, inr, Bool, true, false, not, ◌&&◌,
  ◌||◌, Option, none, some, List, [], ◌∷◌, ◌++◌, map, arith, str_eq, eq_iff, eq_refl,
}
use rfsn_agent_full.Base.Dict.{Dict, get}

-- `RfsnPhase`
pub data RfsnPhase : Type 0 where
  idle searching reading patching testing deps done failed : RfsnPhase

-- `_STEP_TO_PHASE`
abbrev pub step_to_phase : Dict RfsnPhase
step_to_phase =
    ("repo_search", searching)
    ∷ ("repo_read_range", reading)
    ∷ ("read_file", reading)
    ∷ ("detect_project", searching)
    ∷ ("detect_workdirs", searching)
    ∷ ("apply_patch", patching)
    ∷ ("run_tests", testing)
    ∷ ("run_cmd_template", testing)
    ∷ ("format_fix", patching)
    ∷ ("ensure_deps", deps)
    ∷ []

-- `_VALID_TRANSITIONS`
abbrev pub valid_transitions : RfsnPhase → List RfsnPhase
valid_transitions idle = searching ∷ reading ∷ patching ∷ deps ∷ []
valid_transitions searching = searching ∷ reading ∷ patching ∷ []
valid_transitions reading = reading ∷ searching ∷ patching ∷ []
valid_transitions patching = testing ∷ patching ∷ []
valid_transitions testing = searching ∷ reading ∷ patching ∷ done ∷ []
valid_transitions deps = searching ∷ reading ∷ patching ∷ []
valid_transitions done = []
valid_transitions failed = []

abbrev pub code_of : RfsnPhase → ℕ
code_of idle = 0
code_of searching = 1
code_of reading = 2
code_of patching = 3
code_of testing = 4
code_of deps = 5
code_of done = 6
code_of failed = 7

abbrev pub same_phase : RfsnPhase → RfsnPhase → Bool
same_phase p q = code_of p == code_of q

-- `target not in allowed`, negated
abbrev pub is_allowed : RfsnPhase → RfsnPhase → Bool
is_allowed from target = any (same_phase target) (valid_transitions from)

-- `PhaseTracker`
pub record PhaseTracker : Type 0 where
  pub phase : RfsnPhase
  pub history : List RfsnPhase

unfoldable pub init : PhaseTracker
init = record { phase = idle; history = idle ∷ [] }

pub data Check : Type 0 where
  accepted : Check
  unknown_step : String → Check
  invalid_transition : RfsnPhase → RfsnPhase → Check

unfoldable pub target_of : String → Option RfsnPhase
unfolding get
target_of = get step_to_phase

check_target : PhaseTracker → String → Option RfsnPhase → Check
check_target t step_type none = unknown_step step_type
check_target t step_type (some target) =
    if is_allowed t.phase target then accepted else invalid_transition t.phase target

unfoldable pub check_transition : PhaseTracker → String → Check
unfolding check_target
check_transition t step_type = check_target t step_type (target_of step_type)

abbrev enter : RfsnPhase → PhaseTracker → PhaseTracker
enter p t = record t { phase = p; history = t.history ++ p ∷ [] }

abbrev target_or : RfsnPhase → Option RfsnPhase → RfsnPhase
target_or p none = p
target_or p (some q) = q

unfoldable pub advance : PhaseTracker → String → PhaseTracker
advance t step_type = enter (target_or t.phase (target_of step_type)) t

unfoldable pub mark_done : PhaseTracker → PhaseTracker
mark_done t = enter done t

unfoldable pub mark_failed : PhaseTracker → PhaseTracker
mark_failed t = enter failed t

unfoldable pub reset : PhaseTracker → PhaseTracker
reset t = record t { phase = idle; history = idle ∷ [] }
