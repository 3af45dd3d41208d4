-- ===== src/Resilience/CircuitBreaker/Concurrent.antt =====
-- Calls of app/resilience/circuit_breaker.py that overlap: between the locked prologue of `call`
-- and its epilogue other calls begin and end. A step is one locked section.
use smart_travel_aggregator.Prelude.{
  ℕ, zero, suc, ◌+◌, ◌-◌, ◌≤◌, ◌<◌, ◌≡◌, refl, subst, ◌≢◌, ◌↔◌, true, false, arith, nat_eq, list_eq,
}
use smart_travel_aggregator.Resilience.CircuitBreaker.{
  opened, CircuitState, closed, CircuitBreaker, new_breaker, maybe_half_open, on_success,
  on_failure, admit,
}

-- The breaker, the calls that await their function, and the clock.
pub record System : Type 0 where
  pub breaker : CircuitBreaker
  pub in_flight : ℕ
  pub now : ℕ

pub data Step (s : System) : System → Type 0 where
  tick : (later : ℕ) → s.now ≤ later → Step s (record s { now = later })
  begin :
      (admit s.breaker s.now).1 ≡ true
      → Step s (record s { breaker = (admit s.breaker s.now).0; in_flight = s.in_flight + 1 })
  refuse :
      (admit s.breaker s.now).1 ≡ false → Step s (record s { breaker = (admit s.breaker s.now).0 })
  succeed :
      0 < s.in_flight
      → Step s (record s { breaker = on_success s.breaker; in_flight = s.in_flight - 1 })
  fail :
      0 < s.in_flight
      → Step s (record s { breaker = on_failure s.breaker s.now; in_flight = s.in_flight - 1 })

pub data Reach (s : System) : System → Type 0 where
  here : Reach s s
  next : {t u : System} → Reach s t → Step t u → Reach s u

abbrev pub start : ℕ → ℕ → ℕ → System
start threshold recovery now = record {
  breaker = new_breaker threshold recovery;
  in_flight = 0;
  now = now;
}

-- A closed breaker has fewer failures than its threshold, and any other at least as many.
pub record IsCounted (threshold recovery : ℕ) (s : System) : Type 0 where
  pub threshold_kept : s.breaker.failure_threshold ≡ threshold
  pub recovery_kept : s.breaker.recovery_seconds ≡ recovery
  pub under : s.breaker.state ≡ closed → s.breaker.failures < threshold
  pub reached : s.breaker.state ≢ closed → threshold ≤ s.breaker.failures
  pub past : s.breaker.opened_at ≤ s.now

Step-IsCounted :
    {threshold recovery : ℕ} {s t : System}
    → 0 < threshold
    → Step s t
    → IsCounted threshold recovery s
    → IsCounted threshold recovery t
unfolding admit maybe_half_open on_success on_failure
Step-IsCounted pos (tick later h) c = record {
  threshold_kept = c.threshold_kept;
  recovery_kept = c.recovery_kept;
  under = c.under;
  reached = c.reached;
  past = ground arith;
}
Step-IsCounted pos (begin h) c = ground arith
Step-IsCounted pos (refuse h) c = ground arith
Step-IsCounted pos (succeed h) c = ground arith
Step-IsCounted pos (fail h) c = ground arith

Reach-IsCounted :
    {threshold recovery : ℕ} {s t : System}
    → 0 < threshold
    → IsCounted threshold recovery s
    → Reach s t
    → IsCounted threshold recovery t
Reach-IsCounted pos c here = c
Reach-IsCounted pos c (next r st) = Step-IsCounted pos st (Reach-IsCounted pos c r)

start-IsCounted :
    (threshold recovery now : ℕ)
    → 0 < threshold
    → IsCounted threshold recovery (start threshold recovery now)
unfolding new_breaker
start-IsCounted threshold recovery now pos = ground arith

CircuitState-discrete : Discrete CircuitState
CircuitState-discrete = hlevel

-- However calls overlap, a breaker with a positive threshold is closed exactly when it has counted
-- fewer failures than the threshold, its two settings never change, and the time at which it last
-- opened is not in the future.
pub Reach-start :
    (threshold recovery now : ℕ) (s : System)
    → 0 < threshold
    → Reach (start threshold recovery now) s
    → (s.breaker.state ≡ closed ↔ (s.breaker.failures < threshold))
      × (s.breaker.failure_threshold ≡ threshold)
      × (s.breaker.recovery_seconds ≡ recovery)
      × (s.breaker.opened_at ≤ s.now)
Reach-start threshold recovery now s pos r =
    let c = Reach-IsCounted pos (start-IsCounted threshold recovery now pos) r in
    (
      (
        c.under,
        λ few. elim (CircuitState-discrete s.breaker.state closed) [
          | yes p ↦ p
          | no n ↦ absurd (omega (arith, c.reached n))
        ],
      ),
      c.threshold_kept,
      c.recovery_kept,
      c.past,
    )

-- `n` calls await their function, and `f` have failed.
abbrev counted : ℕ → ℕ → ℕ → ℕ → ℕ → System
counted threshold recovery now f n = record {
  breaker = record (new_breaker threshold recovery) { failures = f };
  in_flight = n;
  now = now;
}

next_as : {s t u v : System} → Reach s t → Step t u → u ≡ v → Reach s v
next_as r st e = subst (Reach _) e (next r st)

module _ (threshold recovery now : ℕ) where
  begin_all : (n : ℕ) → Reach (start threshold recovery now) (counted threshold recovery now 0 n)
  unfolding new_breaker admit
  begin_all zero = here
  begin_all (suc n) = next_as (begin_all n) (begin refl) (ground arith)

  fail_some :
      (f n : ℕ)
      → f < threshold
      → Reach (start threshold recovery now) (counted threshold recovery now f n)
  unfolding new_breaker on_failure
  fail_some zero n h = begin_all n
  fail_some (suc f) n h =
      next_as (fail_some f (suc n) (omega arith)) (fail (omega arith)) (ground arith)

  -- The breaker has just opened, and one call still awaits its function.
  abbrev just_opened : System
  just_opened = record {
    breaker = record {
      failure_threshold = threshold;
      recovery_seconds = recovery;
      state = opened;
      failures = threshold;
      opened_at = now;
    };
    in_flight = 1;
    now = now;
  }

  fail_last : (f : ℕ) → suc f ≡ threshold → Reach (start threshold recovery now) just_opened
  unfolding new_breaker on_failure
  fail_last f e = next_as (fail_some f 2 (omega arith)) (fail (omega arith)) (ground arith)

-- For every positive threshold and every recovery time there is a run in which the breaker opens
-- with calls still in flight, and the success of one of these closes it in the next step, with no
-- time passed and no probe made.
pub late_success_closes :
    (threshold recovery now : ℕ)
    → 0 < threshold
    → (s t : System) × Reach (start threshold recovery now) s
      × (s.breaker.state ≡ opened)
      × (s.breaker.opened_at ≡ now)
      × Step s t
      × (t.breaker.state ≡ closed)
      × (t.now ≡ now)
unfolding on_success
late_success_closes threshold recovery now pos = (
  just_opened threshold recovery now,
  _,
  fail_last threshold recovery now (threshold - 1) (omega arith),
  refl,
  refl,
  succeed (omega arith),
  refl,
  refl,
)
