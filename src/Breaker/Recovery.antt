-- ===== src/Breaker/Recovery.antt =====
-- The invariant of the breaker, and when it opens and closes.
use rfsn_agent_full.Base.{
  leb, bool_tests, Bool-cases, length, ℕ, ◌+◌, ◌≤◌, ◌<◌, ◌≡◌, ◌≢◌, ◌↔◌, inl, inr, List, [], ◌∷◌,
  arith,
}
use rfsn_agent_full.Breaker.{
  closed, opened, half_open, Breaker, init, enter, handle_failure, handle_success, Outcome,
  returned, raised, excluded, Reply, reraised, result, finish, call,
}

pub record IsValid (b : Breaker) : Type 0 where
  pub positive : 0 < b.failure_threshold
  pub below : b.state ≡ closed → b.failures < b.failure_threshold
  pub failed : b.state ≢ closed → 0 < b.failures

pub init-IsValid : (threshold timeout : ℕ) → 0 < threshold → IsValid (init threshold timeout)
unfolding init
init-IsValid threshold timeout h = ground arith

pub enter-IsValid : (now : ℕ) (b : Breaker) → IsValid b → IsValid (enter now b).0
unfolding enter
enter-IsValid now b v = ground arith

pub finish-IsValid : (o : Outcome) (now : ℕ) (b : Breaker) → IsValid b → IsValid (finish o now b).0
unfolding finish handle_failure handle_success
finish-IsValid returned now b v = ground arith
finish-IsValid raised now b v = ground arith
finish-IsValid excluded now b v = v

-- A whole call keeps the invariant: the threshold is positive, while the circuit is closed the count
-- of failures is below the threshold, and otherwise at least one failure has been counted.
pub call-IsValid :
    (now later : ℕ) (o : Outcome) (b : Breaker) → IsValid b → IsValid (call now later o b).0
unfolding call
call-IsValid now later o b v =
    grind (arith, enter-IsValid now b v, finish-IsValid o later (enter now b).0)

-- What a probe leaves behind.
probed : Outcome → ℕ → Breaker → Breaker × Reply
probed returned later b = (record b { state = closed; failures = 0 }, result)
probed raised later b =
    (record b { state = opened; failures = b.failures + 1; last_failure_time = later }, reraised)
probed excluded later b = (record b { state = half_open }, reraised)

unfoldable pub fail_all : List ℕ → Breaker → Breaker
fail_all [] b = b
fail_all (t ∷ ts) b = fail_all ts (handle_failure t b)

stays_opened : (ts : List ℕ) (b : Breaker) → b.state ≡ opened → (fail_all ts b).state ≡ opened
unfolding fail_all handle_failure
stays_opened [] b h = h
stays_opened (t ∷ ts) b h = stays_opened ts (handle_failure t b) (ground arith)

-- One failure of a closed circuit: it is counted, and it opens the circuit at the threshold.
failure_closed :
    (t : ℕ) (b : Breaker)
    → b.state ≡ closed
    → b.failures + 1 < b.failure_threshold
    → ((handle_failure t b).state ≡ closed)
      × ((handle_failure t b).failures ≡ b.failures + 1)
      × ((handle_failure t b).failure_threshold ≡ b.failure_threshold)
unfolding handle_failure
failure_closed t b c h = ground arith

failure_opens :
    (t : ℕ) (b : Breaker)
    → b.failure_threshold ≤ b.failures + 1
    → (handle_failure t b).state ≡ opened
unfolding handle_failure
failure_opens t b h = ground arith

opens :
    (ts : List ℕ) (b : Breaker)
    → b.failures < b.failure_threshold
    → b.state ≡ closed
    → b.failure_threshold ≤ b.failures + length ts
    → (fail_all ts b).state ≡ opened
unfolding fail_all
opens [] b v c h = absurd (omega arith)
opens (t ∷ ts) b v c h = elim (Bool-cases (leb b.failure_threshold (b.failures + 1))) [
  | inl full ↦ stays_opened ts (handle_failure t b) (failure_opens t b (omega bool_tests))
  | inr room ↦
      let (c', f, n) = failure_closed t b c (ground arith) in
      opens ts (handle_failure t b) (ground arith) c' (ground arith)
]

stays_closed :
    (ts : List ℕ) (b : Breaker)
    → b.state ≡ closed
    → b.failures + length ts < b.failure_threshold
    → (fail_all ts b).state ≡ closed
unfolding fail_all
stays_closed [] b c h = c
stays_closed (t ∷ ts) b c h =
    let (c', f, n) = failure_closed t b c (omega arith) in
    stays_closed ts (handle_failure t b) c' (omega (arith, f, n))

-- A valid breaker that is closed with its count at zero, after any row of failures: it is open
-- exactly when the row is at least as long as the threshold.
fail_all-threshold :
    (ts : List ℕ) (b : Breaker)
    → IsValid b
    → b.state ≡ closed
    → b.failures ≡ 0
    → ((fail_all ts b).state ≡ opened) ↔ (b.failure_threshold ≤ length ts)
fail_all-threshold ts b v c z = (to, from)
  where
    to : (fail_all ts b).state ≡ opened → b.failure_threshold ≤ length ts
    to o = elim (Bool-cases (leb b.failure_threshold (length ts))) [
      | inl full ↦ omega bool_tests
      | inr room ↦ absurd (cc (stays_closed ts b c (ground arith), o))
    ]

    from : b.failure_threshold ≤ length ts → (fail_all ts b).state ≡ opened
    from h = opens ts b (v.below c) c (omega arith)

-- Once an open circuit's timeout has passed, one call decides: it closes the circuit and clears the count if the function
-- returns, opens it again from its end if the function raises, and leaves it half open if the
-- exception is excluded.
call_probe :
    (now later : ℕ) (o : Outcome) (b : Breaker)
    → b.state ≡ opened
    → b.last_failure_time + b.recovery_timeout < now
    → call now later o b ≡ probed o later b
unfolding call enter finish handle_failure handle_success probed
call_probe now later returned b s h = ground arith
call_probe now later raised b s h = ground arith
call_probe now later excluded b s h = ground arith
