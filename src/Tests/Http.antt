-- ===== src/Tests/Http.antt =====
-- The HTTP client against a scripted network.
use smart_travel_aggregator.Prelude.{
  ℕ, zero, suc, ◌+◌, ◌-◌, ◌*◌, ◌/◌, ◌%◌, ◌^◌, ◌≤◌, ◌<◌, min, max, ◌≡◌, refl, sym, ap, ◌∙◌, subst,
  ◌≢◌, ◌↔◌, ◌⊎◌, inl, inr, Bool, true, false, ◌&&◌, ◌||◌, not, Option, none, some, List, [], ◌∷◌,
  ◌++◌, map, arith, ltb, leb, eqb, if◌then◌else◌, ltb→lt, lt→ltb, leb→le, le→leb, eqb_iff,
  Bool-cases, Option-cases, is_some, Eq, ◌==◌, ==_refl, nat_eq, list_eq, length, take, drop, filter,
  any, all, All, length-append, length-take, length-drop, take-append-drop, length-filter-le,
  filter-append, All-append, All-imp, All-both, All-filter, filter-All, length-map, All-map,
  All-reverse, replicate,
}
use smart_travel_aggregator.Prelude.Text.{Text, codes}
use smart_travel_aggregator.Resilience.CircuitBreaker.{
  CircuitBreaker, new_breaker, opened, value, error,
}
use smart_travel_aggregator.Resilience.Cache.InMemory
use smart_travel_aggregator.Resilience.Cache.Laws.{in_memory}
use smart_travel_aggregator.Resilience.Cache.{Cache}
use smart_travel_aggregator.Providers.HttpClient.{
  cache_key, Http, Reply, response, transport_error, ResilientHttpClient, get_with_retry, get_json,
  provider_unavailable,
}
use smart_travel_aggregator.Providers.HttpClient.Retry.{
  attempt_at, Counts, get_with_retry_ends, sent-get_with_retry_refused,
}
use smart_travel_aggregator.Providers.HttpClient.Caching.{get_json_again}

-- The network is its clock and the number of requests that it has seen.
abbrev Net : Type 0
Net = ℕ × ℕ

-- A payload is a number, and its text the one character with that code.
abbrev first_code : Text → ℕ
first_code [] = 0
first_code (c ∷ s) = c

-- The first request fails, the second is answered with a payload, and all others with a 404.
abbrev reply_to : ℕ → Reply ℕ
reply_to zero = transport_error
reply_to (suc zero) = response 200 (some 42)
reply_to (suc (suc n)) = response 404 none

abbrev network : (ℕ → Reply ℕ) → Http
network script = record {
  Json = ℕ;
  Params = Unit {0};
  Net = Net;
  now = λ (time, n). time;
  send = λ (time, n) url params. ((time + 1, n + 1), script n);
  sleep = λ (time, n) d. (time + d, n);
  is_success = λ status. leb 200 status && ltb status 300;
  dumps = λ j. j ∷ [];
  loads = first_code;
  dumps_params = λ params. codes "{}";
  hexdigest = λ s. s;
}

abbrev counts : (script : ℕ → Reply ℕ) → Counts (network script)
counts script = record {
  sent = λ (time, n). n;
  sent-send = λ net url params. refl;
  sent-sleep = λ net d. refl;
}

unfoldable empty_store : Cache.Store in_memory
unfolding in_memory
empty_store = InMemory.init

abbrev client :
    (script : ℕ → Reply ℕ) → CircuitBreaker → ResilientHttpClient (network script) in_memory
client script breaker = record {
  provider = codes "weather";
  max_retries = 2;
  backoff_base = 10;
  breaker = breaker;
  store = some empty_store;
}

abbrev scripted : Http
scripted = network reply_to

abbrev fresh : ResilientHttpClient scripted in_memory
fresh = client reply_to (new_breaker 3 30)

abbrev url : Text
url = codes "/forecast"

first_fails : (j : ℕ) → j < 1 → attempt_at scripted 10 url tt 0 j (0, 0) ≡ none
unfolding smart_travel_aggregator.Providers.HttpClient.attempt
first_fails zero h = refl
first_fails (suc j) h = absurd (omega arith)

get_with_retry_ends_example :
    get_with_retry scripted in_memory fresh url tt (0, 0) ≡ ((12, 2), value 42)
unfolding smart_travel_aggregator.Providers.HttpClient.attempt
get_with_retry_ends_example =
    get_with_retry_ends scripted in_memory fresh url tt (0, 0) 1 (value 42) (omega arith)
      first_fails refl

-- A network that has nothing.
abbrev not_found : ℕ → Reply ℕ
not_found n = response 404 none

abbrev lost : ResilientHttpClient (network not_found) in_memory
lost = client not_found (new_breaker 3 30)

sent-get_with_retry_refused_example :
    (Counts.sent
        (counts not_found)
        (get_with_retry (network not_found) in_memory lost url tt (0, 0)).0
      ≡ 0 + lost.max_retries + 1)
    × ((get_with_retry (network not_found) in_memory lost url tt (0, 0)).1
        ≡ error provider_unavailable)
sent-get_with_retry_refused_example =
    sent-get_with_retry_refused (network not_found) (counts not_found) in_memory lost url tt (0, 0)
      (λ net. (404, none, refl, refl))

abbrev broken : CircuitBreaker
broken = record {
  failure_threshold = 3;
  recovery_seconds = 30;
  state = opened;
  failures = 3;
  opened_at = 100;
}

abbrev shut : ResilientHttpClient scripted in_memory
shut = record (client reply_to broken) { store = none }

no_store : (s : Cache.Store in_memory) → none ≡ some s → ⊥
no_store s e = cc

got :
    ((in_memory.get empty_store 0 (cache_key scripted in_memory fresh url tt)).1 ≡ none)
    × ((get_json scripted in_memory fresh url tt (some 60) (0, 0)).2 ≡ value 42)
    × (scripted.now (get_json scripted in_memory fresh url tt (some 60) (0, 0)).1 ≡ 12)
unfolding in_memory InMemory.get smart_travel_aggregator.Prelude.Dict.get empty_store InMemory.init
    get_json smart_travel_aggregator.Providers.HttpClient.fetch_and_cache
    smart_travel_aggregator.Providers.HttpClient.fetch
    smart_travel_aggregator.Resilience.CircuitBreaker.call new_breaker get_with_retry
got = (refl, refl, refl)

get_json_again_example :
    let first = get_json scripted in_memory fresh url tt (some 60) (0, 0) in
    ((get_json scripted in_memory first.0 url tt (some 60) (20, 2)).2 ≡ value 42)
    × ((get_json scripted in_memory first.0 url tt (some 60) (20, 2)).1 ≡ (20, 2))
    × ((get_json scripted in_memory first.0 url tt (some 60) (20, 2)).0.breaker ≡ first.0.breaker)
get_json_again_example =
    get_json_again scripted in_memory fresh url tt empty_store 59 (0, 0) (20, 2) 42 (λ p. refl) refl
      got.0 got.1 (omega (arith, got.2))

failed :
    (get_json (network not_found) in_memory lost url tt (some 60) (0, 0)).2
    ≡ error provider_unavailable
unfolding get_json in_memory InMemory.get smart_travel_aggregator.Prelude.Dict.get empty_store
    InMemory.init smart_travel_aggregator.Providers.HttpClient.fetch_and_cache
    smart_travel_aggregator.Providers.HttpClient.fetch
    smart_travel_aggregator.Resilience.CircuitBreaker.call new_breaker get_with_retry
failed = refl
