-- ===== src/Tests/Services.antt =====
-- The circuit breaker, the phase tracker, the repair loop and the consensus log on concrete inputs.
use rfsn_agent_full.Base.{
  ltb, ◌==◌, if◌then◌else◌, str_eq_of, length, get_elem?, All, ℕ, ◌+◌, ◌≤◌, ◌<◌, String, ◌≡◌, refl,
  ◌≢◌, ◌⊎◌, Bool, true, false, not, none, some, List, [], ◌∷◌, arith,
}
use rfsn_agent_full.Base.Int.{pos, other_value}
use rfsn_agent_full.Breaker
use rfsn_agent_full.Breaker.Recovery.{IsValid, init-IsValid}
use rfsn_agent_full.Breaker.Interleaving.{
  entry, ending, run, run-IsValid, admissions, AllFalse, AllTrue, entries, run_fail_fast,
  admits_many_probes,
}
use rfsn_agent_full.Phase
use rfsn_agent_full.Phase.Walk.{
  IsTraced, run as run_tracker, run-IsTraced, tested, patched, run_tests_patched, checked_step,
}
use rfsn_agent_full.Repair.{RepairState, next_phase, update_state, next_phase-update_state}
use rfsn_agent_full.Scheduler
use rfsn_agent_full.ModelCheck.Exhaust.{at_start, explore_bfs-IsReachable}
use rfsn_agent_full.ModelCheck.{
  explore, visit, visit_in, expand, take_actions, take_action, Space, moved, explore_bfs,
}
use rfsn_agent_full.ModelCheck.Sound.{IsReal, explore_bfs-IsReal}
use rfsn_agent_full.Consensus
use rfsn_agent_full.Consensus.Match.{HasTerms, append-HasTerms}

abbrev open_breaker : Breaker.Breaker
open_breaker = record {
  failure_threshold = 2;
  recovery_timeout = 10;
  state = Breaker.opened;
  failures = 2;
  last_failure_time = 100;
}

run-IsValid_example :
    IsValid (run (entry 5 ∷ entry 6 ∷ ending Breaker.raised 7 ∷ []) (Breaker.init 2 10))
run-IsValid_example =
    run-IsValid (entry 5 ∷ entry 6 ∷ ending Breaker.raised 7 ∷ []) (Breaker.init 2 10)
      (init-IsValid 2 10 (omega arith))

run_fail_fast_example :
    ((run (entry 105 ∷ ending Breaker.returned 106 ∷ []) open_breaker).state ≡ Breaker.opened)
    × AllFalse (admissions (entry 105 ∷ ending Breaker.returned 106 ∷ []) open_breaker)
run_fail_fast_example =
    run_fail_fast (entry 105 ∷ ending Breaker.returned 106 ∷ []) 100 open_breaker refl (omega arith)
      (omega arith, (omega arith, tt))

admits_many_probes_example : AllTrue (admissions (entries (200 ∷ 201 ∷ [])) open_breaker)
admits_many_probes_example = admits_many_probes 200 (201 ∷ []) open_breaker refl (omega arith)

run-IsTraced_example : IsTraced (run_tracker Phase.init ("repo_search" ∷ "run_tests" ∷ []))
run-IsTraced_example = run-IsTraced ("repo_search" ∷ "run_tests" ∷ [])

abbrev finished : Phase.PhaseTracker
finished = record { phase = Phase.done; history = Phase.idle ∷ Phase.done ∷ [] }

patch_then_test : tested (run_tracker Phase.init ("apply_patch" ∷ "run_tests" ∷ [])).history ≡ true
unfolding run_tracker checked_step Phase.init Phase.check_transition Phase.advance Phase.target_of
patch_then_test = refl

run_tests_patched_example :
    patched (run_tracker Phase.init ("apply_patch" ∷ "run_tests" ∷ [])).history ≡ true
run_tests_patched_example = run_tests_patched ("apply_patch" ∷ "run_tests" ∷ []) patch_then_test

abbrev fresh_repair : RepairState
fresh_repair = record { phase = none; last_status = none; attempt = none; max_attempts = none }

-- The text "0", which `int` makes 0 but which is true, does finish the cycle.
zero_text_done :
    next_phase
      (record fresh_repair { phase = some "VERIFY"; last_status = some (other_value true (pos 0)) })
    ≡ "DONE"
unfolding next_phase
zero_text_done = refl

next_phase-update_state_example : next_phase (update_state fresh_repair "VERIFY" (pos 0)) ≢ "DONE"
next_phase-update_state_example = next_phase-update_state fresh_repair "VERIFY" (pos 0)

abbrev entry_of : ℕ → ℕ → Consensus.LogEntry String
entry_of term index = record { term = term; index = index; content = "x"; leader_id = "n1" }

abbrev node : Consensus.ConsensusLog String
node = record { node_id = "n2"; current_term = 2; log = entry_of 1 0 ∷ entry_of 1 1 ∷ [] }

append-HasTerms_example :
    (((Consensus.append (some 0) 1 (entry_of 2 1 ∷ []) node).1 ≡ true)
      × ((j : ℕ)
          → (Consensus.start_of (some 0) ≤ j)
            ⊎ (get_elem? (Consensus.append (some 0) 1 (entry_of 2 1 ∷ []) node).0.log j
                ≡ get_elem? node.log j))
      × HasTerms
          (Consensus.append (some 0) 1 (entry_of 2 1 ∷ []) node).0.log
          (Consensus.start_of (some 0))
          (entry_of 2 1 ∷ []))
    ⊎ (Consensus.append (some 0) 1 (entry_of 2 1 ∷ []) node ≡ (node, false))
append-HasTerms_example = append-HasTerms (some 0) 1 (entry_of 2 1 ∷ []) node

-- A counter that must stay below 2.
abbrev counter : Space ℕ
counter = record {
  fingerprint = λ n. if n == 0 then "0" else if n == 1 then "1" else "2";
  get_actions = λ n. "next" ∷ [];
  transition = λ n a. moved (n + 1);
  check_invariant = λ n. if ltb n 2 then none else some "too large";
}

explore_bfs-IsReal_example :
    All (IsReal counter 0) (explore_bfs counter 10 5 0).violations
    × ((explore_bfs counter 10 5 0).visited ≤ 10)
explore_bfs-IsReal_example = explore_bfs-IsReal counter 0 10 5

abbrev requests : List Scheduler.Request
requests =
    Scheduler.starting 0 "a" (pos 9) ∷ Scheduler.starting 0 "b" (pos 9) ∷ Scheduler.ending "a" ∷ []

abbrev one_place : Scheduler.Scheduler
one_place = record { max_concurrent = 1; active = [] }

handle_all-le_example :
    length (Scheduler.handle_all requests one_place).active
    ≤ (Scheduler.handle_all requests one_place).max_concurrent
handle_all-le_example = Scheduler.handle_all-le requests one_place (omega arith)

-- A switch.
abbrev switch_print : Bool → String
switch_print true = "on"
switch_print false = "off"

switch_print_injective : (a b : Bool) → switch_print a ≡ switch_print b → a ≡ b
switch_print_injective true true h = refl
switch_print_injective true false h = absurd (cc (str_eq_of h))
switch_print_injective false true h = absurd (cc (str_eq_of h))
switch_print_injective false false h = refl

abbrev switch : Space Bool
switch = record {
  fingerprint = switch_print;
  get_actions = λ s. "flip" ∷ [];
  transition = λ s a. moved (not s);
  check_invariant = λ s. none;
}

switch_clean : (explore_bfs switch 10 5 false).violations ≡ []
unfolding explore_bfs explore visit visit_in expand take_actions take_action
switch_clean = refl

switch_few : (explore_bfs switch 10 5 false).visited < 10
unfolding explore_bfs explore visit visit_in expand take_actions take_action
switch_few = omega arith

switch_shallow : (explore_bfs switch 10 5 false).max_depth < 5
unfolding explore_bfs explore visit visit_in expand take_actions take_action
switch_shallow = omega arith

explore_bfs-IsReachable_example : switch.check_invariant false ≡ none
explore_bfs-IsReachable_example =
    explore_bfs-IsReachable switch false switch_print_injective 10 5 switch_clean switch_few
      switch_shallow false at_start
