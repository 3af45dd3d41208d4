-- ===== src/Resilience/CircuitBreaker.antt =====
-- app/resilience/circuit_breaker.py. A time is a whole number of clock ticks, and so is
-- `recovery_seconds`. A method that holds the lock is one function on the breaker's fields; what
-- `call` does is two of them, one before and one after the awaited function.
pub mod Consecutive
pub mod Concurrent
use smart_travel_aggregator.Prelude.{
  ℕ, ◌+◌, ◌<◌, ◌≡◌, ◌↔◌, Bool, true, false, ◌&&◌, ◌||◌, not, arith, leb, if◌then◌else◌, nat_eq,
  list_eq,
}

-- `opened` is the source's OPEN.
pub data CircuitState : Type 0 where
  closed opened half_open : CircuitState

abbrev pub is_opened : CircuitState → Bool
is_opened closed = false
is_opened opened = true
is_opened half_open = false

abbrev pub is_half_open : CircuitState → Bool
is_half_open closed = false
is_half_open opened = false
is_half_open half_open = true

pub record CircuitBreaker : Type 0 where
  pub failure_threshold : ℕ
  pub recovery_seconds : ℕ
  pub state : CircuitState
  pub failures : ℕ
  pub opened_at : ℕ

unfoldable pub new_breaker : ℕ → ℕ → CircuitBreaker
new_breaker threshold recovery = record {
  failure_threshold = threshold;
  recovery_seconds = recovery;
  state = closed;
  failures = 0;
  opened_at = 0;
}

-- `now - opened_at >= recovery`, for a clock that does not run backwards.
unfoldable pub maybe_half_open : CircuitBreaker → ℕ → CircuitBreaker
maybe_half_open b now =
    if is_opened b.state && leb (b.opened_at + b.recovery_seconds) now
    then record b { state = half_open }
    else b

unfoldable pub on_success : CircuitBreaker → CircuitBreaker
on_success b = record b { failures = 0; state = closed }

unfoldable pub on_failure : CircuitBreaker → ℕ → CircuitBreaker
on_failure b now =
    if is_half_open b.state || leb b.failure_threshold (b.failures + 1)
    then record b { failures = b.failures + 1; state = opened; opened_at = now }
    else record b { failures = b.failures + 1 }

-- The locked prologue of `call`: the breaker, and whether the call goes ahead.
unfoldable pub admit : CircuitBreaker → ℕ → CircuitBreaker × Bool
unfolding maybe_half_open
admit b now = let b' = maybe_half_open b now in (b', not (is_opened b'.state))

-- What a call ends with: the function's result, its exception, or `CircuitBreakerOpen`.
pub data CallResult (A E : Type 0) : Type 0 where
  returned : A → CallResult A E
  raised : E → CallResult A E
  circuit_open : CallResult A E

-- What the awaited function did.
pub data Outcome (A E : Type 0) : Type 0 where
  value : A → Outcome A E
  error : E → Outcome A E

module _ {A E : Type 0} where
  -- The epilogue: the exception is raised again.
  abbrev pub settle : CircuitBreaker → ℕ → Outcome A E → CircuitBreaker × CallResult A E
  settle b ended (value a) = (on_success b, returned a)
  settle b ended (error e) = (on_failure b ended, raised e)

module _ {W A E : Type 0} where
  -- `call`, begun at `now`. The function changes the world and says when it ended.
  unfoldable pub call :
      CircuitBreaker → ℕ → (W → W × ℕ × Outcome A E) → W → CircuitBreaker × W × CallResult A E
  unfolding admit
  call b now func w =
      let (b', go) = admit b now in
      let (w', ended, result) = func w in
      let (b'', res) = settle b' ended result in
      if go then (b'', w', res) else (b', w, circuit_open)

-- A call is refused exactly when the breaker is open and its recovery time has not passed, and a
-- refused call leaves the breaker as it was.
pub admit_iff :
    (b : CircuitBreaker) (now : ℕ)
    → ((admit b now).1 ≡ false) ↔ ((b.state ≡ opened) × (now < b.opened_at + b.recovery_seconds))
unfolding admit
admit_iff b now = ground arith
