-- ===== src/Resilience/CircuitBreaker/Consecutive.antt =====
-- Calls of app/resilience/circuit_breaker.py one after another.
use smart_travel_aggregator.Prelude.{
  ℕ, suc, ◌+◌, ◌≤◌, ◌<◌, ◌≡◌, refl, inl, inr, List, [], ◌∷◌, ◌++◌, arith, ltb, if◌then◌else◌,
  ltb→lt, Bool-cases, nat_eq, list_eq, length,
}
use smart_travel_aggregator.Resilience.CircuitBreaker.{
  CallResult, raised, returned, value, circuit_open, opened, Outcome, new_breaker, closed,
  on_failure, on_success, CircuitBreaker, error, call,
}

-- The breaker after calls that all fail: each with the times at which it begins and ends.
unfoldable pub fail_all : CircuitBreaker → List (ℕ × ℕ) → CircuitBreaker
unfolding call
fail_all b [] = b
fail_all b ((begun, ended) ∷ rest) =
    fail_all
      (call {W = Unit {0}} {A = Unit {0}} {E = Unit {0}} b begun (λ w. (w, ended, error tt)) tt).0
      rest

-- A closed breaker.
abbrev counting : ℕ → ℕ → ℕ → ℕ → CircuitBreaker
counting threshold recovery failures opened_at = record {
  failure_threshold = threshold;
  recovery_seconds = recovery;
  state = closed;
  failures = failures;
  opened_at = opened_at;
}

module _ (threshold recovery opened_at : ℕ) where
  fail_all-counting :
      (calls : List (ℕ × ℕ)) (failures total : ℕ)
      → failures + length calls ≡ total
      → total < threshold
      → fail_all (counting threshold recovery failures opened_at) calls
        ≡ counting threshold recovery total opened_at
  unfolding fail_all on_failure
  fail_all-counting [] failures total e h = ground arith
  fail_all-counting ((begun, ended) ∷ calls) failures total e h =
      ground (arith, fail_all-counting calls (failures + 1) total)

  last_failure :
      (failures begun ended : ℕ)
      → suc failures ≡ threshold
      → fail_all (counting threshold recovery failures opened_at) ((begun, ended) ∷ []) ≡ record {
        failure_threshold = threshold;
        recovery_seconds = recovery;
        state = opened;
        failures = threshold;
        opened_at = ended;
      }
  unfolding fail_all on_failure
  last_failure failures begun ended h = ground arith

fail_all-append :
    (calls rest : List (ℕ × ℕ)) (b : CircuitBreaker)
    → fail_all b (calls ++ rest) ≡ fail_all (fail_all b calls) rest
unfolding fail_all
fail_all-append [] rest b = refl
fail_all-append (c ∷ calls) rest b = fail_all-append calls rest _

-- A new breaker with a positive threshold stays closed while fewer calls than the threshold have
-- failed in a row, and the failure that reaches the threshold opens it at the time when that call
-- ended.
pub fail_all-opens :
    (threshold recovery : ℕ) (calls : List (ℕ × ℕ)) (begun ended : ℕ)
    → suc (length calls) ≡ threshold
    → ((fail_all (new_breaker threshold recovery) calls).state ≡ closed)
      × (fail_all (new_breaker threshold recovery) (calls ++ (begun, ended) ∷ []) ≡ record {
        failure_threshold = threshold;
        recovery_seconds = recovery;
        state = opened;
        failures = threshold;
        opened_at = ended;
      })
unfolding new_breaker
fail_all-opens threshold recovery calls begun ended h =
    let before =
      fail_all-counting threshold recovery 0 calls 0 (length calls) (omega arith) (omega arith) in
    (
      rw before,
      rw (fail_all-append calls, before) (last_failure threshold recovery 0 _ begun ended h),
    )

-- What a probe makes of an open breaker: success closes it with no failures counted, failure opens
-- it anew at the time when the function ended.
abbrev pub probed :
    {W A E : Type 0} → CircuitBreaker → W × ℕ × Outcome A E → CircuitBreaker × W × CallResult A E
probed b (w, ended, value a) = (record b { state = closed; failures = 0 }, w, returned a)
probed b (w, ended, error e) =
    (record b { state = opened; failures = b.failures + 1; opened_at = ended }, w, raised e)

probe :
    {W A E : Type 0} (b : CircuitBreaker) (now : ℕ) (func : W → W × ℕ × Outcome A E) (w w' : W)
    (ended : ℕ) (r : Outcome A E)
    → b.state ≡ opened
    → b.opened_at + b.recovery_seconds ≤ now
    → func w ≡ (w', ended, r)
    → call b now func w ≡ probed b (w', ended, r)
unfolding call on_success on_failure
probe b now func w w' ended (value a) s late e = rw e (ground arith)
probe b now func w w' ended (error x) s late e = rw e (ground arith)

refused :
    {W A E : Type 0} (b : CircuitBreaker) (now : ℕ) (func : W → W × ℕ × Outcome A E) (w : W)
    → b.state ≡ opened
    → now < b.opened_at + b.recovery_seconds
    → call b now func w ≡ (b, w, circuit_open)
unfolding call
refused b now func w s early = ground arith

-- An open breaker refuses a call before its recovery time without running the function; at or
-- after it the function runs, its success closes the breaker with no failures counted, and its
-- failure opens the breaker anew at the time when the function ended.
pub call-opened :
    {W A E : Type 0} (b : CircuitBreaker) (now : ℕ) (func : W → W × ℕ × Outcome A E) (w : W)
    → b.state ≡ opened
    → call b now func w ≡ (
        if ltb now (b.opened_at + b.recovery_seconds)
        then (b, w, circuit_open)
        else probed b (func w))
call-opened b now func w s = elim (Bool-cases (ltb now (b.opened_at + b.recovery_seconds))) [
  | inl early ↦ rw early (refused b now func w s (ltb→lt _ _ early))
  | inr late ↦ rw late (probe b now func w (func w).0 (func w).1 (func w).2 s (ground arith) refl)
]
