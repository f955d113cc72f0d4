-- ===== src/Phase/Walk.antt =====
-- Runs of the tracker whose steps are checked before they are taken.
use rfsn_agent_full.Base.{
  Option-cases, any, String, ◌≡◌, refl, sym, ◌⊎◌, inl, inr, Bool, true, some, List, [], ◌∷◌, ◌++◌,
  arith,
}
use rfsn_agent_full.Phase.{
  RfsnPhase, idle, patching, testing, done, failed, same_phase, is_allowed, PhaseTracker, init,
  Check, accepted, unknown_step, invalid_transition, check_transition, advance, target_of,
}

-- Two phases in a row of the history are a transition of the table.
abbrev pub IsWalk : RfsnPhase → List RfsnPhase → Type 0
IsWalk p [] = Unit {0}
IsWalk p (q ∷ qs) = (is_allowed p q ≡ true) × IsWalk q qs

abbrev last_of : RfsnPhase → List RfsnPhase → RfsnPhase
last_of p [] = p
last_of p (q ∷ qs) = last_of q qs

-- The history starts at idle, is a walk along the table, and ends in the current phase.
pub record IsTraced (t : PhaseTracker) : Type 0 where
  pub rest : List RfsnPhase
  pub starts : t.history ≡ idle ∷ rest
  pub walks : IsWalk idle rest
  pub ends : t.phase ≡ last_of idle rest

abbrev if_accepted : Check → PhaseTracker → PhaseTracker → PhaseTracker
if_accepted accepted t u = t
if_accepted _ t u = u

-- A step that is taken only if its check accepts it.
unfoldable pub checked_step : PhaseTracker → String → PhaseTracker
checked_step t s = if_accepted (check_transition t s) (advance t s) t

unfoldable pub run : PhaseTracker → List String → PhaseTracker
run t [] = t
run t (s ∷ ss) = run (checked_step t s) ss

IsWalk-snoc :
    (p q : RfsnPhase) (qs : List RfsnPhase)
    → IsWalk p qs
    → is_allowed (last_of p qs) q ≡ true
    → IsWalk p (qs ++ q ∷ []) × (last_of p (qs ++ q ∷ []) ≡ q)
IsWalk-snoc p q [] w h = ((h, tt), refl)
IsWalk-snoc p q (r ∷ qs) w h = let (w', e) = IsWalk-snoc r q qs w.1 h in ((w.0, w'), e)

accepted_target :
    (t : PhaseTracker) (s : String)
    → check_transition t s ≡ accepted
    → (q : RfsnPhase) × (target_of s ≡ some q) × (is_allowed t.phase q ≡ true)
unfolding check_transition
accepted_target t s h = elim (Option-cases (target_of s)) [
  | inl e ↦ absurd (ground arith)
  | inr (q, e) ↦ (q, e, ground arith)
]

advance_target :
    (t : PhaseTracker) (s : String) (q : RfsnPhase)
    → target_of s ≡ some q
    → advance t s ≡ record t { phase = q; history = t.history ++ q ∷ [] }
unfolding advance
advance_target t s q e = rw e

extend_IsTraced :
    (t : PhaseTracker) (q : RfsnPhase)
    → IsTraced t
    → is_allowed t.phase q ≡ true
    → IsTraced (record t { phase = q; history = t.history ++ q ∷ [] })
extend_IsTraced t q h a =
    let (w, e) = IsWalk-snoc idle q h.rest h.walks (rw h.ends at a) in
    record { rest = h.rest ++ q ∷ []; starts = rw h.starts; walks = w; ends = sym e }

checked_step_cases :
    (t : PhaseTracker) (s : String)
    → (checked_step t s ≡ t)
      ⊎ ((q : RfsnPhase) × (is_allowed t.phase q ≡ true)
          × (checked_step t s ≡ record t { phase = q; history = t.history ++ q ∷ [] })
          × (target_of s ≡ some q))
unfolding checked_step
checked_step_cases t s = go (check_transition t s) refl
  where
    go :
        (c : Check)
        → check_transition t s ≡ c
        → (if_accepted (check_transition t s) (advance t s) t ≡ t)
          ⊎ ((q : RfsnPhase) × (is_allowed t.phase q ≡ true)
              × (if_accepted (check_transition t s) (advance t s) t
                  ≡ record t { phase = q; history = t.history ++ q ∷ [] })
              × (target_of s ≡ some q))
    go accepted e =
        let (q, target, allowed) = accepted_target t s e in
        inr (q, allowed, rw e (advance_target t s q target), target)
    go (unknown_step x) e = inl (rw e)
    go (invalid_transition x y) e = inl (rw e)

checked_step-IsTraced : (t : PhaseTracker) (s : String) → IsTraced t → IsTraced (checked_step t s)
checked_step-IsTraced t s h = elim (checked_step_cases t s) [
  | inl e ↦ rw e h
  | inr (q, allowed, e, _) ↦ rw e (extend_IsTraced t q h allowed)
]

init-IsTraced : IsTraced init
unfolding init
init-IsTraced = record { rest = []; starts = refl; walks = tt; ends = refl }

run_from-IsTraced : (ss : List String) (t : PhaseTracker) → IsTraced t → IsTraced (run t ss)
unfolding run
run_from-IsTraced [] t h = h
run_from-IsTraced (s ∷ ss) t h =
    run_from-IsTraced ss (checked_step t s) (checked_step-IsTraced t s h)

-- Whatever steps are tried, if each is taken only when its check accepts it, the history is a walk
-- along the transition table from idle to the current phase.
pub run-IsTraced : (ss : List String) → IsTraced (run init ss)
run-IsTraced ss = run_from-IsTraced ss init init-IsTraced

-- A finished or failed run accepts no step: it stays as it is whatever is tried.
pub run_terminal :
    (ss : List String) (t : PhaseTracker) → (t.phase ≡ done) ⊎ (t.phase ≡ failed) → run t ss ≡ t
unfolding run
run_terminal [] t h = refl
run_terminal (s ∷ ss) t h = elim (checked_step_cases t s) [
  | inl e ↦ rw e (run_terminal ss t h)
  | inr (q, allowed, _, _) ↦ absurd (blocked q h allowed)
]
  where
    blocked :
        (q : RfsnPhase) → (t.phase ≡ done) ⊎ (t.phase ≡ failed) → is_allowed t.phase q ≡ true → ⊥
    blocked q (inl e) a = cc (rw e at a)
    blocked q (inr e) a = cc (rw e at a)

-- The phases in which something has been patched in this run.
abbrev pub patched : List RfsnPhase → Bool
patched = any (same_phase patching)

abbrev pub tested : List RfsnPhase → Bool
tested = any (same_phase testing)

testing_needs_patching : (p : RfsnPhase) → is_allowed p testing ≡ true → p ≡ patching
testing_needs_patching patching h = refl
testing_needs_patching _ h = cc

-- In a walk from a phase that is neither, testing comes only after patching.
walk_tested :
    (p : RfsnPhase) (qs : List RfsnPhase) → IsWalk p qs → tested qs ≡ true → patched (p ∷ qs) ≡ true
walk_tested patching qs w h = refl
walk_tested p [] w h = cc
walk_tested p (q ∷ qs) w h = ground (arith, walk_tested q qs w.1, w.0)

-- No test is run before something is patched: whatever steps are tried, if the checks are heeded
-- and the history holds the testing phase, it holds the patching phase.
pub run_tests_patched :
    (ss : List String) → tested (run init ss).history ≡ true → patched (run init ss).history ≡ true
run_tests_patched ss h =
    let t = run-IsTraced ss in rw t.starts (walk_tested idle t.rest t.walks (rw t.starts at h))
