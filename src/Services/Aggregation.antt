-- ===== src/Services/Aggregation.antt =====
-- app/services/aggregation.py: the flight search. The fan-out, the removal of duplicates and the
-- pages are those of Services.Merge.
pub mod Ranking
pub mod Ordering
pub mod Search
pub mod Cheapest
use smart_travel_aggregator.Prelude.{
  ℕ, zero, suc, ◌-◌, min, max, ◌≡◌, ◌↔◌, Bool, true, false, ◌&&◌, not, Option, none, some, List, [],
  ◌∷◌, map, arith, ltb, leb, if◌then◌else◌, Eq, ◌==◌, nat_eq, list_eq, length, filter, any,
}
use smart_travel_aggregator.Prelude.Text.{Text, lower, text_eq_iff}
use smart_travel_aggregator.Prelude.Sorting.{sorted}
use smart_travel_aggregator.Domain.Floats.{Float}
use smart_travel_aggregator.Domain.{
  NormalizedFlight, FlightSearchQuery, is_direct, isoformat, instant,
}
use smart_travel_aggregator.Services.Pagination.{decode_cursor}
use smart_travel_aggregator.Services.Merge
use smart_travel_aggregator.Services.Merge.{Provider, SearchMeta}

pub data SortKey : Type 0 where
  best price duration departure stops : SortKey

pub record FlightFilters : Type 0 where
  pub max_price_minor : Option ℕ
  pub max_stops : Option ℕ
  pub airlines : List Text
  pub direct_only : Bool

-- `FlightFilters()`
abbrev pub no_filters : FlightFilters
no_filters = record { max_price_minor = none; max_stops = none; airlines = []; direct_only = false }

-- `bound is not None and n > bound`
abbrev pub exceeds : Option ℕ → ℕ → Bool
exceeds none n = false
exceeds (some bound) n = ltb bound n

-- `airlines and airline.lower() not in airlines`
abbrev pub is_other_airline : List Text → Text → Bool
is_other_airline [] airline = false
is_other_airline (a ∷ airlines) airline = not (any (λ b. lower airline == b) (a ∷ airlines))

unfoldable pub matches : FlightFilters → NormalizedFlight → Bool
unfolding is_direct
matches filters flight =
    if filters.direct_only && not (is_direct flight)
    then false
    else if exceeds filters.max_stops flight.stops
    then false
    else if exceeds filters.max_price_minor flight.price.amount_minor
    then false
    else not (is_other_airline filters.airlines flight.airline)

-- The key under which `_dedupe` keeps the cheapest offer.
pub record FlightKey : Type 0 where
  pub airline : Text
  pub origin : Text
  pub destination : Text
  pub departure : Text

pub flight_key_beq : FlightKey → FlightKey → Bool
flight_key_beq a b =
    a.airline == b.airline
    && a.origin == b.origin
    && a.destination == b.destination
    && a.departure == b.departure

pub flight_key_beq_iff : (a b : FlightKey) → (flight_key_beq a b ≡ true) ↔ (a ≡ b)
unfolding flight_key_beq
flight_key_beq_iff a b = ground (
  arith,
  text_eq_iff a.airline b.airline,
  text_eq_iff a.origin b.origin,
  text_eq_iff a.destination b.destination,
  text_eq_iff a.departure b.departure,
)

instance unfoldable pub flight_key_eq : Eq FlightKey
unfolding flight_key_beq
flight_key_eq = record { beq = flight_key_beq; beq_iff = flight_key_beq_iff }

unfoldable pub flight_key : NormalizedFlight → FlightKey
flight_key flight = record {
  airline = lower flight.airline;
  origin = flight.origin;
  destination = flight.destination;
  departure = isoformat flight.departure_time;
}

abbrev pub amount : NormalizedFlight → ℕ
amount flight = flight.price.amount_minor

unfoldable pub dedupe : List NormalizedFlight → List NormalizedFlight
unfolding flight_key_eq
dedupe flights = Merge.dedupe flight_key amount flights

-- `min(xs)` and `max(xs)` of a list that begins with `x`.
abbrev pub min_of : ℕ → List ℕ → ℕ
min_of x [] = x
min_of x (y ∷ ys) = min x (min_of y ys)

abbrev pub max_of : ℕ → List ℕ → ℕ
max_of x [] = x
max_of x (y ∷ ys) = max x (max_of y ys)

-- What the scores are relative to.
pub record Scale : Type 0 where
  pub min_price : ℕ
  pub price_span : ℕ
  pub min_duration : ℕ
  pub duration_span : ℕ
  pub max_stops : ℕ

unfoldable pub scale : NormalizedFlight → List NormalizedFlight → Scale
scale first rest =
    let prices = map amount rest in
    let durations = map (λ f. f.duration_minutes) rest in
    let min_price = min_of (amount first) prices in
    let min_duration = min_of first.duration_minutes durations in
    record {
      min_price = min_price;
      price_span = max_of (amount first) prices - min_price;
      min_duration = min_duration;
      duration_span = max_of first.duration_minutes durations - min_duration;
      max_stops = max_of first.stops (map (λ f. f.stops) rest);
    }

module _ (float : Float) where
  open float use {F, le, decimal, ratio, of_int, add, sub, mul, neg, round}

  pub record RankedFlight : Type 0 where
    pub flight : NormalizedFlight
    pub score : F

  pub record AggregationResult : Type 0 where
    pub items : List RankedFlight
    pub meta : SearchMeta
    pub next_cursor : Option Text
    pub has_more : Bool

  -- `n / span if span else 0.0`
  abbrev norm : ℕ → ℕ → F
  norm n zero = decimal 0 1
  norm n (suc span) = ratio n (suc span)

  unfoldable pub score_of : Scale → NormalizedFlight → F
  score_of s flight =
      let price_norm = norm (amount flight - s.min_price) s.price_span in
      let duration_norm = norm (flight.duration_minutes - s.min_duration) s.duration_span in
      let stops_norm = norm flight.stops s.max_stops in
      let penalty =
        add (add (mul (decimal 5 1) price_norm) (mul (decimal 3 1) duration_norm))
          (mul (decimal 2 1) stops_norm) in
      round (sub (of_int 1) penalty) 3

  unfoldable pub rank : List NormalizedFlight → List RankedFlight
  rank [] = []
  rank (first ∷ rest) =
      let s = scale first rest in
      map (λ f. record { flight = f; score = score_of s f }) (first ∷ rest)

  -- Whether the key of one flight is at most that of another.
  unfoldable pub key_le : SortKey → RankedFlight → RankedFlight → Bool
  key_le best a b = le (neg a.score) (neg b.score)
  key_le price a b = leb (amount a.flight) (amount b.flight)
  key_le duration a b = leb a.flight.duration_minutes b.flight.duration_minutes
  key_le departure a b = leb (instant a.flight.departure_time) (instant b.flight.departure_time)
  key_le stops a b = leb a.flight.stops b.flight.stops

  unfoldable pub sort : List RankedFlight → SortKey → List RankedFlight
  sort ranked key = sorted (key_le key) ranked

  -- `FlightAggregationService(providers)`, with `none` for a `ValueError`.
  unfoldable pub new_service :
      List (Provider FlightSearchQuery NormalizedFlight)
      → Option (List (Provider FlightSearchQuery NormalizedFlight))
  new_service [] = none
  new_service (p ∷ providers) = some (p ∷ providers)

  module _ (providers : List (Provider FlightSearchQuery NormalizedFlight))
      (query : FlightSearchQuery) (key : SortKey) (filters : FlightFilters) where
    -- `ordered`: all results, of which `search` returns a page.
    unfoldable pub ordered : List RankedFlight
    ordered =
        let (flights, ok, failed) = Merge.fan_out providers query in
        sort (rank (filter (matches filters) (dedupe flights))) key

    unfoldable pub search : ℕ → Option Text → AggregationResult
    search limit cursor =
        let (flights, ok, failed) = Merge.fan_out providers query in
        let offset = decode_cursor cursor in
        record {
          items = Merge.page ordered offset limit;
          meta = record {
            degraded = ltb 0 failed;
            providers_ok = ok;
            providers_failed = failed;
            total = length ordered;
          };
          next_cursor = Merge.next_cursor ordered offset limit;
          has_more = Merge.has_more ordered offset limit;
        }
