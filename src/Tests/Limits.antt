-- ===== src/Tests/Limits.antt =====
-- The rate limiter and the circuit breaker on concrete sequences.
use smart_travel_aggregator.Prelude.{
  ℕ, zero, suc, ◌+◌, ◌-◌, ◌*◌, ◌/◌, ◌%◌, ◌^◌, ◌≤◌, ◌<◌, min, max, ◌≡◌, refl, sym, ap, ◌∙◌, subst,
  ◌≢◌, ◌↔◌, ◌⊎◌, inl, inr, Bool, true, false, ◌&&◌, ◌||◌, not, Option, none, some, List, [], ◌∷◌,
  ◌++◌, map, arith, ltb, leb, eqb, if◌then◌else◌, ltb→lt, lt→ltb, leb→le, le→leb, eqb_iff,
  Bool-cases, Option-cases, is_some, Eq, ◌==◌, ==_refl, nat_eq, list_eq, length, take, drop, filter,
  any, all, All, length-append, length-take, length-drop, take-append-drop, length-filter-le,
  filter-append, All-append, All-imp, All-both, All-filter, filter-All, length-map, All-map,
  All-reverse, replicate,
}
use smart_travel_aggregator.Prelude.Text.{Text, codes}
use smart_travel_aggregator.Core.RateLimit.{InMemoryRateLimiter, init}
use smart_travel_aggregator.Core.RateLimit.Decisions.{Ascends, run, decide_all, run-init}
use smart_travel_aggregator.Core.RateLimit.Window.{in_window}
use smart_travel_aggregator.Api.Deps.Flooding.{passed_times, from_proxy, passed_times-le_limit}
use smart_travel_aggregator.Core.ClientIp.{IpAddresses, client_ip, client_ip_forged}
use smart_travel_aggregator.Resilience.CircuitBreaker.{
  CircuitBreaker, closed, opened, new_breaker, admit, call, circuit_open, value, Outcome,
}
use smart_travel_aggregator.Resilience.CircuitBreaker.Consecutive.{
  fail_all, fail_all-opens, call-opened, probed,
}
use smart_travel_aggregator.Resilience.CircuitBreaker.Concurrent.{
  System, Step, begin, here, next, Reach, start, Reach-start, late_success_closes,
}

abbrev ann : Text
ann = codes "10.0.0.1"

abbrev bob : Text
bob = codes "10.0.0.2"

abbrev requests : List (Text × ℕ)
requests = (ann, 5) ∷ (ann, 6) ∷ (bob, 7) ∷ (ann, 70) ∷ []

in_order : Ascends 0 requests
in_order = (omega arith, (omega arith, (omega arith, (omega arith, tt))))

run-init_example : run (init 1 60 0) [] requests ≡ decide_all 1 60 [] requests
run-init_example = run-init 1 60 0 requests in_order

abbrev held : InMemoryRateLimiter
held = record { limit = 1; window = 60; hits = (bob, 50 ∷ []) ∷ []; last_sweep = 0 }

-- Networks are addresses, and an address is its text.
abbrev plain_ips : IpAddresses
plain_ips = record {
  Network = Text;
  Address = Text;
  ip_network = λ s. some s;
  ip_address = λ s. some s;
  contains = λ network ip. network == ip;
}

-- The proxy is `p`, the caller `c` wrote `x` itself.
client_ip_forged_example :
    client_ip plain_ips
      (codes "p" ∷ [])
      (record { host = some (codes "p"); forwarded = codes "x, c,p" })
    ≡ some (codes "c")
unfolding smart_travel_aggregator.Core.ClientIp.hops_of smart_travel_aggregator.Core.ClientIp.trusts
    smart_travel_aggregator.Prelude.Text.split smart_travel_aggregator.Prelude.Text.strip
client_ip_forged_example =
    client_ip_forged plain_ips (codes "p" ∷ []) (some (codes "p")) (codes "x") (codes " c,p")
      (codes "c") (codes "p" ∷ []) refl refl (refl, tt) refl

abbrev open_breaker : CircuitBreaker
open_breaker = record {
  failure_threshold = 2;
  recovery_seconds = 30;
  state = opened;
  failures = 2;
  opened_at = 100;
}

fail_all-opens_example :
    ((fail_all (new_breaker 2 30) ((1, 2) ∷ [])).state ≡ closed)
    × (fail_all (new_breaker 2 30) ((1, 2) ∷ (3, 100) ∷ []) ≡ open_breaker)
fail_all-opens_example = fail_all-opens 2 30 ((1, 2) ∷ []) 3 100 refl

abbrev answer : ℕ → ℕ × ℕ × Outcome ℕ ℕ
answer w = (w + 1, 111, value 7)

call-opened_example : call open_breaker 110 answer 0 ≡ (
    if ltb 110 (100 + 30) then (open_breaker, 0, circuit_open) else probed open_breaker (answer 0))
call-opened_example = call-opened open_breaker 110 answer 0 refl

abbrev begun : System
begun = record { breaker = new_breaker 2 30; in_flight = 1; now = 5 }

begun_reached : Reach (start 2 30 5) begun
unfolding admit new_breaker
begun_reached = next here (begin refl)

Reach-start_example :
    (begun.breaker.state ≡ closed ↔ (begun.breaker.failures < 2))
    × (begun.breaker.failure_threshold ≡ 2)
    × (begun.breaker.recovery_seconds ≡ 30)
    × (begun.breaker.opened_at ≤ 5)
Reach-start_example = Reach-start 2 30 5 begun (omega arith) begun_reached

late_success_closes_example :
    (s t : System) × Reach (start 2 30 5) s
    × (s.breaker.state ≡ opened)
    × (s.breaker.opened_at ≡ 5)
    × Step s t
    × (t.breaker.state ≡ closed)
    × (t.now ≡ 5)
late_success_closes_example = late_success_closes 2 30 5 (omega arith)

abbrev forgeries : List (Text × ℕ)
forgeries = (codes "1.1.1.1", 0) ∷ (codes "2.2.2.2", 5) ∷ (codes "3.3.3.3", 9) ∷ []

passed_times-le_limit_example :
    length (
      filter (in_window 60 9) (
        passed_times plain_ips
          (codes "p" ∷ [])
          (init 2 60 0)
          (map (from_proxy plain_ips (codes "p" ∷ []) (codes "p") (codes " c,p")) forgeries)))
    ≤ 2
unfolding smart_travel_aggregator.Core.ClientIp.hops_of smart_travel_aggregator.Core.ClientIp.trusts
    smart_travel_aggregator.Prelude.Text.split smart_travel_aggregator.Prelude.Text.strip
passed_times-le_limit_example =
    passed_times-le_limit plain_ips (codes "p" ∷ []) 2 60 0 (codes "p") (codes " c,p") (codes "c")
      (codes "p" ∷ []) forgeries 9 refl refl (refl, tt) refl
      (omega arith, (omega arith, (omega arith, tt)))
