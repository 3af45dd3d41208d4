-- ===== src/Providers/HttpClient.antt =====
-- app/providers/http_client.py. `Http` is what the client takes from httpx, json, hashlib and the
-- event loop: the network with its clock is a state that a request or a sleep moves on. The breaker
-- is that of Resilience.CircuitBreaker, the cache any value of the interface Resilience.Cache.
pub mod Retry
pub mod Caching
use smart_travel_aggregator.Prelude.{
  ℕ, zero, suc, ◌+◌, ◌*◌, ◌^◌, Bool, ◌||◌, not, Option, none, some, [], ◌∷◌, ◌++◌, eqb,
  if◌then◌else◌, nat_eq, list_eq, take, any,
}
use smart_travel_aggregator.Prelude.Text.{Text, codes}
use smart_travel_aggregator.Resilience.CircuitBreaker.{
  CircuitBreaker, Outcome, value, error, CallResult, returned, raised, circuit_open, call,
}
use smart_travel_aggregator.Resilience.Cache.{Cache}

-- What awaiting `client.get` gives. A body that is not JSON is `none`. `other` is an exception that
-- is neither `httpx.TransportError` nor `httpx.HTTPStatusError`.
pub data Reply (Json : Type 0) : Type 0 where
  response : ℕ → Option Json → Reply Json
  transport_error : Reply Json
  other : Reply Json

pub record Http : Type 1 where
  pub Json : Type 0
  pub Params : Type 0
  pub Net : Type 0
  pub now : Net → ℕ
  pub send : Net → Text → Params → Net × Reply Json
  pub sleep : Net → ℕ → Net
  -- `raise_for_status` raises `HTTPStatusError` for any other status.
  pub is_success : ℕ → Bool
  pub dumps : Json → Text
  pub loads : Text → Json
  pub dumps_params : Params → Text
  pub hexdigest : Text → Text

-- `ProviderUnavailableError`, or an exception that passes through.
pub data FetchError : Type 0 where
  provider_unavailable unexpected : FetchError

abbrev pub is_retryable_status : ℕ → Bool
is_retryable_status s = any (eqb s) (429 ∷ 500 ∷ 502 ∷ 503 ∷ 504 ∷ [])

module _ (h : Http) where
  open h use {
    Json, Params, Net, now, send, sleep, is_success, dumps, loads, dumps_params, hexdigest,
  }

  -- The body of the `try`: the result, or `none` where one of the two caught exceptions is raised.
  unfoldable pub attempt : Reply Json → Option (Outcome Json FetchError)
  attempt (response status body) =
      if is_retryable_status status || not (is_success status)
      then none
      else elim body [ some j ↦ some (value j) | none ↦ some (error unexpected) ]
  attempt transport_error = none
  attempt other = some (error unexpected)

  -- The `for` loop from one attempt on, with the attempts left after it.
  unfoldable pub retry_from : ℕ → ℕ → ℕ → Text → Params → Net → Net × Outcome Json FetchError
  unfolding attempt
  retry_from base i zero url params net =
      let (net', reply) = send net url params in
      elim (attempt reply) [ some r ↦ (net', r) | none ↦ (net', error provider_unavailable) ]
  retry_from base i (suc left) url params net =
      let (net', reply) = send net url params in
      elim (attempt reply) [
        | some r ↦ (net', r)
        | none ↦ retry_from base (i + 1) left url params (sleep net' (base * 2 ^ i))
      ]

  module _ (cache : Cache) where
    -- The object: its provider, its settings, and the breaker and the cache that it shares.
    pub record ResilientHttpClient : Type 0 where
      pub provider : Text
      pub max_retries : ℕ
      pub backoff_base : ℕ
      pub breaker : CircuitBreaker
      pub store : Option (Cache.Store cache)

    module _ (c : ResilientHttpClient) (url : Text) (params : Params) where
      unfoldable pub get_with_retry : Net → Net × Outcome Json FetchError
      unfolding retry_from
      get_with_retry = retry_from c.backoff_base 0 c.max_retries url params

      unfoldable pub cache_key : Text
      cache_key =
          codes "http:"
          ++ c.provider
          ++ codes ":"
          ++ take 32
              (hexdigest (c.provider ++ codes ":" ++ url ++ codes ":" ++ dumps_params params))

      -- The breaker's call of the loop. `CircuitBreakerOpen` becomes `ProviderUnavailableError`.
      unfoldable pub fetch : Net → CircuitBreaker × Net × Outcome Json FetchError
      fetch net =
          let (b, net', result) =
            call c.breaker (now net) (λ n. let (n', r) = get_with_retry n in (n', now n', r)) net in
          (
            b,
            net',
            elim result [
              | returned j ↦ value j
              | raised e ↦ error e
              | circuit_open ↦ error provider_unavailable
            ],
          )

      -- What `get_json` does with a cache and a time to live that is not 0: `s` is the store after
      -- the key was read and not found.
      unfoldable pub fetch_and_cache :
          Cache.Store cache → ℕ → Net → ResilientHttpClient × Net × Outcome Json FetchError
      fetch_and_cache s ttl net =
          let (b, net', result) = fetch net in
          (
            record c {
              breaker = b;
              store = some (elim result [
                | value j ↦ cache.set s (now net') cache_key (dumps j) ttl
                | error e ↦ s
              ]);
            },
            net',
            result,
          )

      -- `cache_ttl` is `None` as `none`.
      unfoldable pub get_json : Option ℕ → Net → ResilientHttpClient × Net × Outcome Json FetchError
      get_json (some (suc ttl)) net = elim c.store [
        | none ↦ let (b, net', result) = fetch net in (record c { breaker = b }, net', result)
        | some s ↦
            let (s', cached) = cache.get s (now net) cache_key in
            elim cached [
              | some text ↦ (record c { store = some s' }, net, value (loads text))
              | none ↦ fetch_and_cache s' (suc ttl) net
            ]
      ]
      get_json _ net = let (b, net', result) = fetch net in (record c { breaker = b }, net', result)
