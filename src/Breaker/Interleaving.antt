-- ===== src/Breaker/Interleaving.antt =====
-- Calls of several threads, as a sequence of the locked blocks in the order in which they run.
use rfsn_agent_full.Base.{ℕ, ◌+◌, ◌≤◌, ◌<◌, ◌≡◌, refl, ap, Bool, true, false, List, [], ◌∷◌, arith}
use rfsn_agent_full.Breaker.{
  opened, half_open, Breaker, enter, handle_failure, handle_success, Outcome, returned, raised,
  excluded, finish,
}
use rfsn_agent_full.Breaker.Recovery.{IsValid, enter-IsValid, finish-IsValid}

-- A thread enters `call`, or the function that it protects has ended.
pub data Event : Type 0 where
  entry : ℕ → Event
  ending : Outcome → ℕ → Event

unfoldable pub step : Event → Breaker → Breaker
step (entry now) b = (enter now b).0
step (ending o now) b = (finish o now b).0

unfoldable pub run : List Event → Breaker → Breaker
unfolding step
run [] b = b
run (e ∷ es) b = run es (step e b)

-- The answers of the entries, in order.
unfoldable pub admissions : List Event → Breaker → List Bool
admissions [] b = []
admissions (entry now ∷ es) b = (enter now b).1 ∷ admissions es (enter now b).0
admissions (ending o now ∷ es) b = admissions es (finish o now b).0

step-IsValid : (e : Event) (b : Breaker) → IsValid b → IsValid (step e b)
unfolding step
step-IsValid (entry now) b v = enter-IsValid now b v
step-IsValid (ending o now) b v = finish-IsValid o now b v

-- Whatever the threads do and in whatever order, the invariant of the breaker is kept.
pub run-IsValid : (es : List Event) (b : Breaker) → IsValid b → IsValid (run es b)
unfolding run
run-IsValid [] b v = v
run-IsValid (e ∷ es) b v = run-IsValid es (step e b) (step-IsValid e b v)

-- No entry comes after the time `limit`, and no failure is noted before `since`.
abbrev pub IsWithin : ℕ → ℕ → List Event → Type 0
IsWithin since limit [] = Unit {0}
IsWithin since limit (entry now ∷ es) = (now ≤ limit) × IsWithin since limit es
IsWithin since limit (ending o now ∷ es) = (since ≤ now) × IsWithin since limit es

abbrev pub AllFalse : List Bool → Type 0
AllFalse [] = Unit {0}
AllFalse (b ∷ bs) = (b ≡ false) × AllFalse bs

enter_refused :
    (now : ℕ) (b : Breaker)
    → b.state ≡ opened
    → now ≤ b.last_failure_time + b.recovery_timeout
    → enter now b ≡ (b, false)
unfolding enter
enter_refused now b s h = ground arith

finish_opened :
    (o : Outcome) (now since : ℕ) (b : Breaker)
    → b.state ≡ opened
    → since ≤ b.last_failure_time
    → since ≤ now
    → ((finish o now b).0.state ≡ opened)
      × (since ≤ (finish o now b).0.last_failure_time)
      × ((finish o now b).0.recovery_timeout ≡ b.recovery_timeout)
unfolding finish handle_failure handle_success
finish_opened returned now since b s h k = ground arith
finish_opened raised now since b s h k = ground arith
finish_opened excluded now since b s h k = ground arith

-- An open circuit, with its last failure at `since` or later, refuses every call and stays open as
-- long as no entry comes after `since` plus the timeout, also while calls that were admitted before
-- go on ending in any way, at `since` or later.
pub run_fail_fast :
    (es : List Event) (since : ℕ) (b : Breaker)
    → b.state ≡ opened
    → since ≤ b.last_failure_time
    → IsWithin since (since + b.recovery_timeout) es
    → ((run es b).state ≡ opened) × AllFalse (admissions es b)
unfolding run admissions step
run_fail_fast [] since b s h w = (s, tt)
run_fail_fast (entry now ∷ es) since b s h w =
    let e : enter now b ≡ (b, false) = enter_refused now b s (omega (arith, w.0)) in
    let (s', falses) = run_fail_fast es since b s h w.1 in
    (
      rw (ap (λ (r : Breaker × Bool). (run es r.0).state) e) s',
      (
        ap (λ (r : Breaker × Bool). r.1) e,
        rw (ap (λ (r : Breaker × Bool). admissions es r.0) e) falses,
      ),
    )
run_fail_fast (ending o now ∷ es) since b s h w =
    let (s', h', t) = finish_opened o now since b s h w.0 in
    run_fail_fast es since (finish o now b).0 s' h' (rw t w.1)

-- Entries only, one after the other.
unfoldable pub entries : List ℕ → List Event
entries [] = []
entries (t ∷ ts) = entry t ∷ entries ts

abbrev pub AllTrue : List Bool → Type 0
AllTrue [] = Unit {0}
AllTrue (b ∷ bs) = (b ≡ true) × AllTrue bs

half_open-admits :
    (ts : List ℕ) (b : Breaker) → b.state ≡ half_open → AllTrue (admissions (entries ts) b)
unfolding entries admissions
half_open-admits [] b s = tt
half_open-admits (t ∷ ts) b s = rw (enter_half_open t b s) (refl, half_open-admits ts b s)
  where
    enter_half_open : (t : ℕ) (b : Breaker) → b.state ≡ half_open → enter t b ≡ (b, true)
    enter_half_open t b s = unfold enter in ground arith

-- Once an open circuit's timeout has passed, every entry is admitted, and not a single one, as long
-- as no admitted call has ended.
pub admits_many_probes :
    (t : ℕ) (ts : List ℕ) (b : Breaker)
    → b.state ≡ opened
    → b.last_failure_time + b.recovery_timeout < t
    → AllTrue (admissions (entries (t ∷ ts)) b)
unfolding entries admissions
admits_many_probes t ts b s h = rw (enter_probe t b s h) (refl, half_open-admits ts _ refl)
  where
    enter_probe :
        (t : ℕ) (b : Breaker)
        → b.state ≡ opened
        → b.last_failure_time + b.recovery_timeout < t
        → enter t b ≡ (record b { state = half_open }, true)
    enter_probe t b s h = unfold enter in ground arith
