-- ===== src/Api/Flights.antt =====
-- app/api/v1/flights.py: the route of the flight search, and its validated query.
use smart_travel_aggregator.Prelude.{
  ℕ, ◌⊎◌, inl, inr, Bool, Option, none, some, List, [], ◌∷◌, ◌++◌, map, if◌then◌else◌, ◌==◌, nat_eq,
  list_eq,
}
use smart_travel_aggregator.Prelude.Text.{Text, codes, lower, upper}
use smart_travel_aggregator.Core.Errors.{Raised, bad_request, error_of}
use smart_travel_aggregator.Domain.{Date, Datetime, NormalizedFlight, FlightSearchQuery}
use smart_travel_aggregator.Domain.Amounts.{Money}
use smart_travel_aggregator.Domain.Floats.{Float}
use smart_travel_aggregator.Repositories.Users.{User}
use smart_travel_aggregator.Services.Merge.{Provider, SearchMeta}
use smart_travel_aggregator.Services.Aggregation
use smart_travel_aggregator.Services.Aggregation.{
  SortKey, FlightFilters, RankedFlight, AggregationResult,
}

-- The parameters of the route, after validation; `airlines` is empty when it is missing.
pub record FlightParameters : Type 0 where
  pub origin : Text
  pub destination : Text
  pub departure_date : Date
  pub adults : ℕ
  pub cabin : Text
  pub sort_key : SortKey
  pub max_price : Option ℕ
  pub max_stops : Option ℕ
  pub airlines : List Text
  pub direct_only : Bool
  pub limit : ℕ
  pub cursor : Option Text

pub record SearchHistory : Type 0 where
  pub user_id : ℕ
  pub origin : Text
  pub destination : Text
  pub departure_date : Date
  pub result_count : ℕ
  pub latency_ms : ℕ

module _ (float : Float) where
  pub record FlightOfferOut : Type 0 where
    pub id : Text
    pub airline : Text
    pub origin : Text
    pub destination : Text
    pub departure_time : Datetime
    pub arrival_time : Datetime
    pub duration_minutes : ℕ
    pub stops : ℕ
    pub cabin_class : Text
    pub price : Money
    pub provider : Text
    pub score : Float.F float

  pub record FlightSearchResponse : Type 0 where
    pub offers : List FlightOfferOut
    pub next_cursor : Option Text
    pub has_more : Bool
    pub meta : SearchMeta

  unfoldable pub offer_out : RankedFlight float → FlightOfferOut
  offer_out item = record {
    id = item.flight.id;
    airline = item.flight.airline;
    origin = item.flight.origin;
    destination = item.flight.destination;
    departure_time = item.flight.departure_time;
    arrival_time = item.flight.arrival_time;
    duration_minutes = item.flight.duration_minutes;
    stops = item.flight.stops;
    cabin_class = item.flight.cabin_class;
    price = item.flight.price;
    provider = item.flight.provider;
    score = item.score;
  }

  unfoldable pub flight_query : FlightParameters → FlightSearchQuery
  flight_query q = record {
    origin = upper q.origin;
    destination = upper q.destination;
    departure_date = q.departure_date;
    adults = q.adults;
    cabin_class = q.cabin;
  }

  unfoldable pub flight_filters : FlightParameters → FlightFilters
  flight_filters q = record {
    max_price_minor = q.max_price;
    max_stops = q.max_stops;
    airlines = map lower q.airlines;
    direct_only = q.direct_only;
  }

  -- The rows of the history afterwards, and the response or the error. `latency_ms` is measured.
  unfoldable pub search_flights :
      List (Provider FlightSearchQuery NormalizedFlight)
      → List SearchHistory
      → Option User
      → FlightParameters
      → ℕ
      → List SearchHistory × (Raised ⊎ FlightSearchResponse)
  search_flights providers history current_user q latency_ms =
      if upper q.origin == upper q.destination
      then (history, inl (error_of bad_request (codes "origin and destination must differ")))
      else (let query = flight_query q in
          let result : AggregationResult float =
            Aggregation.search float providers query q.sort_key (flight_filters q) q.limit
              q.cursor in
          let written : List SearchHistory = elim current_user [
            | none ↦ history
            | some u ↦
                history
                ++ record {
                  user_id = u.id;
                  origin = query.origin;
                  destination = query.destination;
                  departure_date = q.departure_date;
                  result_count = result.meta.total;
                  latency_ms = latency_ms;
                }
                  ∷ []
          ] in
          (
            written,
            inr (record {
              offers = map offer_out result.items;
              next_cursor = result.next_cursor;
              has_more = result.has_more;
              meta = result.meta;
            }),
          ))
