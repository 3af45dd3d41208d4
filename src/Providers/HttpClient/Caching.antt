-- ===== src/Providers/HttpClient/Caching.antt =====
-- What `get_json` of app/providers/http_client.py does with the cache and with the breaker.
use smart_travel_aggregator.Prelude.{
  ℕ, zero, suc, ◌+◌, ◌≤◌, ◌<◌, ◌≡◌, refl, inl, inr, Option, none, some, arith, lt→ltb, Option-cases,
  ==_refl, nat_eq, list_eq,
}
use smart_travel_aggregator.Prelude.Text.{Text}
use smart_travel_aggregator.Resilience.CircuitBreaker.{value, error, opened}
use smart_travel_aggregator.Resilience.Cache.{Cache}
use smart_travel_aggregator.Resilience.CircuitBreaker.Consecutive.{call-opened}
use smart_travel_aggregator.Providers.HttpClient.{
  get_with_retry, fetch, cache_key, fetch_and_cache, Http, FetchError, provider_unavailable,
  ResilientHttpClient, get_json,
}

module _ (h : Http) (cache : Cache) (c : ResilientHttpClient h cache) (url : Text)
    (params : Http.Params h) where
  after_miss :
      (s : Cache.Store cache) (ttl : ℕ) (net : Http.Net h)
      → c.store ≡ some s
      → (cache.get s (h.now net) (cache_key h cache c url params)).1 ≡ none
      → get_json h cache c url params (some (suc ttl)) net
        ≡ fetch_and_cache h cache c url params
            (cache.get s (h.now net) (cache_key h cache c url params)).0
            (suc ttl)
            net
  unfolding get_json
  after_miss s ttl net e m = ground arith

  after_hit :
      (s : Cache.Store cache) (ttl : ℕ) (net : Http.Net h) (text : Text)
      → c.store ≡ some s
      → (cache.get s (h.now net) (cache_key h cache c url params)).1 ≡ some text
      → get_json h cache c url params (some (suc ttl)) net ≡ (
        record c { store = some (cache.get s (h.now net) (cache_key h cache c url params)).0 },
        net,
        value (h.loads text),
      )
  unfolding get_json
  after_hit s ttl net text e m = ground arith

  -- The payload of a miss that was fetched is in the store.
  stored :
      (s : Cache.Store cache) (ttl : ℕ) (net : Http.Net h) (j : Http.Json h)
      → (fetch_and_cache h cache c url params s ttl net).2 ≡ value j
      → (fetch_and_cache h cache c url params s ttl net).0.store
        ≡ some (
            cache.set s
              (h.now (fetch_and_cache h cache c url params s ttl net).1)
              (cache_key h cache c url params)
              (h.dumps j)
              ttl)
  unfolding fetch_and_cache
  stored s ttl net j e = ground arith

  key_kept :
      (s : Cache.Store cache) (ttl : ℕ) (net : Http.Net h)
      → cache_key h cache (fetch_and_cache h cache c url params s ttl net).0 url params
        ≡ cache_key h cache c url params
  unfolding fetch_and_cache cache_key
  key_kept s ttl net = refl

  fetch_opened :
      (net : Http.Net h)
      → c.breaker.state ≡ opened
      → h.now net < c.breaker.opened_at + c.breaker.recovery_seconds
      → fetch h cache c url params net ≡ (c.breaker, net, error provider_unavailable)
  unfolding fetch
  fetch_opened net st early = rw (
    call-opened c.breaker (h.now net)
        (λ n. let (n', r) = get_with_retry h cache c url params n in (n', h.now n', r)) net st,
    lt→ltb _ _ early,
  )

  not_stored :
      (s : Cache.Store cache) (ttl : ℕ) (net : Http.Net h) (x : FetchError)
      → (fetch_and_cache h cache c url params s ttl net).2 ≡ error x
      → (fetch_and_cache h cache c url params s ttl net).0.store ≡ some s
  unfolding fetch_and_cache
  not_stored s ttl net x e = ground arith

  not_stored_on_error :
      (s : Cache.Store cache) (ttl : ℕ) (net : Http.Net h) (x : FetchError)
      → c.store ≡ some s
      → (get_json h cache c url params (some (suc ttl)) net).2 ≡ error x
      → (get_json h cache c url params (some (suc ttl)) net).0.store
        ≡ some (cache.get s (h.now net) (cache_key h cache c url params)).0
  not_stored_on_error s ttl net x e failed =
      elim (Option-cases (cache.get s (h.now net) (cache_key h cache c url params)).1) [
        | inl m ↦
            rw (after_miss s ttl net e m)
              (not_stored _ (suc ttl) net x (rw (after_miss s ttl net e m) at failed))
        | inr (text, m) ↦ rw (after_hit s ttl net text e m)
      ]

  opened_and_missed :
      (s : Cache.Store cache) (ttl : ℕ) (net : Http.Net h)
      → fetch h cache c url params net ≡ (c.breaker, net, error provider_unavailable)
      → ((fetch_and_cache h cache c url params s ttl net).2 ≡ error provider_unavailable)
        × ((fetch_and_cache h cache c url params s ttl net).1 ≡ net)
        × ((fetch_and_cache h cache c url params s ttl net).0.breaker ≡ c.breaker)
  unfolding fetch_and_cache
  opened_and_missed s ttl net e = rw e (refl, refl, refl)

-- A payload that `get_json` fetched and cached is returned again for the same request, within the
-- time to live counted from its arrival, with nothing sent and the breaker untouched, if
-- `json.loads` undoes `json.dumps`.
pub get_json_again :
    (h : Http) (cache : Cache) (c : ResilientHttpClient h cache) (url : Text)
    (params : Http.Params h) (s : Cache.Store cache) (ttl : ℕ) (net later : Http.Net h)
    (j : Http.Json h)
    → ((p : Http.Json h) → h.loads (h.dumps p) ≡ p)
    → c.store ≡ some s
    → (cache.get s (h.now net) (cache_key h cache c url params)).1 ≡ none
    → (get_json h cache c url params (some (suc ttl)) net).2 ≡ value j
    → h.now later < h.now (get_json h cache c url params (some (suc ttl)) net).1 + suc ttl
    → ((get_json h cache
          (get_json h cache c url params (some (suc ttl)) net).0
          url
          params
          (some (suc ttl))
          later).2
        ≡ value j)
      × ((get_json h cache
            (get_json h cache c url params (some (suc ttl)) net).0
            url
            params
            (some (suc ttl))
            later).1
          ≡ later)
      × ((get_json h cache
            (get_json h cache c url params (some (suc ttl)) net).0
            url
            params
            (some (suc ttl))
            later).0.breaker
          ≡ (get_json h cache c url params (some (suc ttl)) net).0.breaker)
get_json_again h cache c url params s ttl net later j codec e m got early =
    let miss = after_miss h cache c url params s ttl net e m in
    let key = cache_key h cache c url params in
    let s' = (cache.get s (h.now net) key).0 in
    let out = fetch_and_cache h cache c url params s' (suc ttl) net in
    let found : (cache.get (cache.set s' (h.now out.1) key (h.dumps j) (suc ttl)) (h.now later)
          (cache_key h cache out.0 url params)).1
        ≡ some (h.dumps j) =
      rw (
        key_kept h cache c url params s' (suc ttl) net,
        cache.get-set,
        ==_refl key,
        lt→ltb _ _ (rw miss at early),
      ) in
    let hit =
      after_hit h cache out.0 url params _ ttl later (h.dumps j)
        (stored h cache c url params s' (suc ttl) net j (rw miss at got)) found in
    rw (miss, hit) (rw codec, refl, refl)

-- While the breaker is open and not yet due, a call that finds nothing in the cache ends with
-- `ProviderUnavailableError`: nothing is sent, and the breaker stays as it is.
pub get_json-opened :
    (h : Http) (cache : Cache) (c : ResilientHttpClient h cache) (url : Text)
    (params : Http.Params h) (ttl : Option ℕ) (net : Http.Net h)
    → c.breaker.state ≡ opened
    → h.now net < c.breaker.opened_at + c.breaker.recovery_seconds
    → ((s : Cache.Store cache)
        → c.store ≡ some s
        → (cache.get s (h.now net) (cache_key h cache c url params)).1 ≡ none)
    → ((get_json h cache c url params ttl net).2 ≡ error provider_unavailable)
      × ((get_json h cache c url params ttl net).1 ≡ net)
      × ((get_json h cache c url params ttl net).0.breaker ≡ c.breaker)
unfolding get_json
get_json-opened h cache c url params none net st early miss =
    ground (arith, fetch_opened h cache c url params net st early)
get_json-opened h cache c url params (some zero) net st early miss =
    ground (arith, fetch_opened h cache c url params net st early)
get_json-opened h cache c url params (some (suc ttl)) net st early miss =
    elim (Option-cases c.store) [
      | inl bare ↦ ground (arith, fetch_opened h cache c url params net st early)
      | inr (s, kept) ↦ rw (after_miss h cache c url params s ttl net kept (miss s kept)) (
          opened_and_missed h cache c url params _ (suc ttl) net
            (fetch_opened h cache c url params net st early))
    ]

-- A call that fails caches nothing: a read of any key, then or later, finds what it would have
-- found without the call.
pub get_json-error :
    (h : Http) (cache : Cache) (c : ResilientHttpClient h cache) (url : Text)
    (params : Http.Params h) (s : Cache.Store cache) (ttl : Option ℕ) (net : Http.Net h)
    (x : FetchError) (later : ℕ) (q : Text)
    → c.store ≡ some s
    → (get_json h cache c url params ttl net).2 ≡ error x
    → h.now net ≤ later
    → (s' : Cache.Store cache) × ((get_json h cache c url params ttl net).0.store ≡ some s')
      × ((cache.get s' later q).1 ≡ (cache.get s later q).1)
unfolding get_json
get_json-error h cache c url params s none net x later q e failed after = (s, ground arith, refl)
get_json-error h cache c url params s (some zero) net x later q e failed after =
    (s, ground arith, refl)
get_json-error h cache c url params s (some (suc ttl)) net x later q e failed after = (
  (cache.get s (h.now net) (cache_key h cache c url params)).0,
  not_stored_on_error h cache c url params s ttl net x e failed,
  cache.get-get s (h.now net) later _ q after,
)
