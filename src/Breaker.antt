-- ===== src/Breaker.antt =====
-- system/circuit_breaker.py: the circuit breaker around calls of a failing service.
--
-- A call takes the lock twice: on entry, and when the protected function has returned or raised.
-- Other threads run between the two, so entry and end are steps of their own, and `call` is the
-- sequence of the two that a single thread makes. Times and the timeout are counts of one clock
-- unit; `now - last > timeout` is written without the subtraction.
pub mod Recovery
pub mod Interleaving
use rfsn_agent_full.Base.{
  ltb, leb, ◌==◌, if◌then◌else◌, ltb→lt, lt→ltb, leb→le, bool_tests, Bool-cases, Option-cases,
  is_some, length, get_elem?, take, drop, last_n, any, all, All, length-append, length-drop,
  length-take-le, length-last_n, All-append, ℕ, zero, suc, ◌+◌, ◌-◌, ◌*◌, ◌/◌, ◌%◌, ◌^◌, ◌≤◌, ◌<◌,
  min, max, String, ◌≡◌, refl, sym, ap, ◌∙◌, ◌≢◌, ◌↔◌, ◌⊎◌, inl, inr, Bool, true, false, not, ◌&&◌,
  ◌||◌, Option, none, some, List, [], ◌∷◌, ◌++◌, map, arith, str_eq, eq_iff, eq_refl,
}

pub data State : Type 0 where
  closed opened half_open : State

pub record Breaker : Type 0 where
  pub failure_threshold : ℕ
  pub recovery_timeout : ℕ
  pub state : State
  pub failures : ℕ
  pub last_failure_time : ℕ

-- `CircuitBreaker.__init__`
unfoldable pub init : ℕ → ℕ → Breaker
init failure_threshold recovery_timeout = record {
  failure_threshold = failure_threshold;
  recovery_timeout = recovery_timeout;
  state = closed;
  failures = 0;
  last_failure_time = 0;
}

enter_in : State → ℕ → Breaker → Breaker × Bool
enter_in opened now b =
    if ltb (b.last_failure_time + b.recovery_timeout) now
    then (record b { state = half_open }, true)
    else (b, false)
enter_in _ now b = (b, true)

-- The first locked block of `call`: false is `CircuitBreakerOpen`.
unfoldable pub enter : ℕ → Breaker → Breaker × Bool
unfolding enter_in
enter now b = enter_in b.state now b

abbrev pub is_half_open : State → Bool
is_half_open half_open = true
is_half_open _ = false

-- `_handle_failure`
unfoldable pub handle_failure : ℕ → Breaker → Breaker
handle_failure now b =
    let c = record b { failures = b.failures + 1; last_failure_time = now } in
    if is_half_open c.state || leb c.failure_threshold c.failures
    then record c { state = opened }
    else c

success_in : State → Breaker → Breaker
success_in half_open b = record b { state = closed; failures = 0 }
success_in closed b = record b { failures = 0 }
success_in opened b = b

-- `_handle_success`
unfoldable pub handle_success : Breaker → Breaker
unfolding success_in
handle_success b = success_in b.state b

-- What the protected function does: it returns, it raises, or it raises one of the exceptions in
-- `exclude_exceptions`.
pub data Outcome : Type 0 where
  returned raised excluded : Outcome

-- What the caller of `call` sees.
pub data Reply : Type 0 where
  circuit_open : Reply
  reraised : Reply
  result : Reply

unfoldable pub finish : Outcome → ℕ → Breaker → Breaker × Reply
finish returned now b = (handle_success b, result)
finish raised now b = (handle_failure now b, reraised)
finish excluded now b = (b, reraised)

-- `call`, by a thread that is alone: it starts at `now`, and the function ends at `later`.
unfoldable pub call : ℕ → ℕ → Outcome → Breaker → Breaker × Reply
unfolding finish
call now later o b =
    let (b', admitted) = enter now b in if admitted then finish o later b' else (b', circuit_open)
