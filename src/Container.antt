-- ===== src/Container.antt =====
-- app/container.py: which collaborators are built for some settings. Times are whole seconds. The
-- engine, the HTTP client and the Redis client are left out, and with them what only passes them on.
pub mod Monitoring
use smart_travel_aggregator.Prelude.{
  ℕ, zero, suc, ◌+◌, ◌-◌, ◌*◌, ◌/◌, ◌%◌, ◌^◌, ◌≤◌, ◌<◌, min, max, ◌≡◌, refl, sym, ap, ◌∙◌, subst,
  ◌≢◌, ◌↔◌, ◌⊎◌, inl, inr, Bool, true, false, ◌&&◌, ◌||◌, not, Option, none, some, List, [], ◌∷◌,
  ◌++◌, map, arith, ltb, leb, eqb, if◌then◌else◌, ltb→lt, lt→ltb, leb→le, le→leb, eqb_iff,
  Bool-cases, Option-cases, is_some, Eq, ◌==◌, ==_refl, nat_eq, list_eq, length, take, drop, filter,
  any, all, All, length-append, length-take, length-drop, take-append-drop, length-filter-le,
  filter-append, All-append, All-imp, All-both, All-filter, filter-All, length-map, All-map,
  All-reverse, replicate,
}
use smart_travel_aggregator.Prelude.Text.{Text, codes}
use smart_travel_aggregator.Domain.{
  NormalizedFlight, NormalizedHotel, FlightSearchQuery, HotelSearchQuery,
}
use smart_travel_aggregator.Domain.Floats.{Float}
use smart_travel_aggregator.Core.RateLimit
use smart_travel_aggregator.Core.RateLimit.{InMemoryRateLimiter}
use smart_travel_aggregator.Core.RateLimit.Redis.{RedisRateLimiter}
use smart_travel_aggregator.Resilience.CircuitBreaker.{CircuitBreaker, new_breaker}
use smart_travel_aggregator.Providers.Sampling.{Sampling, IsRandom}
use smart_travel_aggregator.Providers.SampleFlights
use smart_travel_aggregator.Providers.SampleFlights.Offers.{search_offers}
use smart_travel_aggregator.Providers.SampleHotels
use smart_travel_aggregator.Services.Merge.{offers, Provider}
use smart_travel_aggregator.Services.Merge.FanOut.{successes, failures, answered}
use smart_travel_aggregator.Services.Aggregation.{price, no_filters, search, RankedFlight, amount}
use smart_travel_aggregator.Services.Aggregation.Cheapest.{search_cheapest}
use smart_travel_aggregator.Services.Aggregation.Search.{search-meta}

-- The settings of app/core/config.py that the container reads.
pub record Settings : Type 0 where
  pub redis_url : Option Text
  pub smtp_host : Option Text
  pub smtp_port : ℕ
  pub smtp_username : Text
  pub smtp_password : Text
  pub smtp_sender : Text
  pub rate_limit_per_minute : ℕ
  pub trusted_proxy_cidrs : List Text

-- The cache: the one that the caller hands in, the Redis server at a URL, or the process.
pub data CacheChoice : Type 0 where
  supplied in_memory_cache : CacheChoice
  redis_cache : Text → CacheChoice

pub data LimiterChoice : Type 0 where
  in_memory_limiter : InMemoryRateLimiter → LimiterChoice
  redis_limiter : RedisRateLimiter → LimiterChoice

-- `SmtpNotifier(host, port, username, password, sender)`, or the console.
pub data NotifierChoice : Type 0 where
  smtp : Text → ℕ → Text → Text → Text → NotifierChoice
  console : NotifierChoice

abbrev pub or_text : Text → Text → Text
or_text [] default = default
or_text (c ∷ s) default = c ∷ s

unfoldable pub notifier_for : Settings → NotifierChoice
notifier_for settings = elim settings.smtp_host [
  | none ↦ console
  | some [] ↦ console
  | some (c ∷ s) ↦
      smtp (c ∷ s) settings.smtp_port settings.smtp_username settings.smtp_password
        (or_text settings.smtp_sender settings.smtp_username)
]

-- The cache and the limiter, when a cache is handed in or not, at a time of the clock.
unfoldable pub backends_for : Settings → Bool → ℕ → CacheChoice × LimiterChoice
backends_for settings given clock =
    let local = in_memory_limiter (RateLimit.init settings.rate_limit_per_minute 60 clock) in
    if given then (supplied, local) else elim settings.redis_url [
      | none ↦ (in_memory_cache, local)
      | some url ↦ (
        redis_cache url,
        redis_limiter (record { limit = settings.rate_limit_per_minute; window = 60 }),
      )
    ]

-- `CircuitBreaker(provider)`, with the defaults of app/resilience/circuit_breaker.py.
unfoldable pub resilient_breaker : CircuitBreaker
resilient_breaker = new_breaker 5 30

All-first :
    {A : Type 0} (P : A → Type 0) (front back : List A)
    → 0 < length front
    → All P (front ++ back)
    → (a : A) × P a
All-first P [] back some_ h = absurd (omega (arith, some_))
All-first P (a ∷ front) back some_ h = (a, h.0)

module _ {float : Float} (sampling : Sampling float) where
  abbrev pub skyfare : SampleFlights.SampleFlightProvider
  skyfare = record {
    name = codes "skyfare";
    airlines = codes "Lufthansa" ∷ codes "KLM" ∷ codes "Emirates" ∷ [];
    base_price = 12000;
  }

  abbrev pub globehop : SampleFlights.SampleFlightProvider
  globehop = record {
    name = codes "globehop";
    airlines = codes "Turkish Airlines" ∷ codes "Qatar Airways" ∷ codes "Emirates" ∷ [];
    base_price = 10500;
  }

  unfoldable pub flight_providers : List (Provider FlightSearchQuery NormalizedFlight)
  flight_providers =
      SampleFlights.search sampling skyfare ∷ SampleFlights.search sampling globehop ∷ []

  unfoldable pub hotel_providers : List (Provider HotelSearchQuery (NormalizedHotel float))
  hotel_providers =
      SampleHotels.search sampling (record { name = codes "stayfinder"; base_price = 8000 })
      ∷ SampleHotels.search sampling (record { name = codes "roomhub"; base_price = 6500 })
      ∷ []

  -- Every valid flight search of the service that the container builds, for a day before the year
  -- 9999, is answered by both providers, is not degraded, and a search by price for one result,
  -- without filters, has exactly one.
  pub flight_providers_answer :
      (random : IsRandom sampling) (query : FlightSearchQuery)
      → (length query.origin ≡ 3)
        × (length query.destination ≡ 3)
        × (query.departure_date.year < 9999)
      → let result = search float flight_providers query price no_filters 1 none in
        (result.meta.providers_ok ≡ 2)
        × (result.meta.degraded ≡ false)
        × ((r : RankedFlight float) × (result.items ≡ r ∷ []))
  unfolding flight_providers
  flight_providers_answer random query valid =
      let (first, found, low, high, all_) =
        search_offers sampling random skyfare query valid (omega arith) in
      let (second, found2, low2, high2, all2) =
        search_offers sampling random globehop query valid (omega arith) in
      let answers : map (λ provider. provider query) flight_providers
          ≡ offers first ∷ offers second ∷ [] =
        rw (found, found2) refl in
      let meta = search-meta float flight_providers query price no_filters 1 none in
      let cheapest =
        subst
          (λ results.
            All
              (λ a.
                (r : RankedFlight float) × ((search float flight_providers query price no_filters 1
                    none).items
                  ≡ r ∷ [])
                × (amount r.flight ≤ amount a))
              (answered results))
          answers (search_cheapest float flight_providers query) in
      let (a, (r, items, bound)) = All-first _ first (second ++ []) (omega (arith, low)) cheapest in
      (
        meta.0 ∙ ap successes answers,
        elim (Bool-cases
            (search float flight_providers query price no_filters 1 none).meta.degraded) [
              | inl degraded ↦ absurd (omega (arith, meta.3.0 degraded, ap failures answers))
              | inr whole ↦ whole
            ],
        (r, items),
      )
