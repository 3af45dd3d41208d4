-- ===== src/Services/Aggregation/Ordering.antt =====
-- The order of the results of app/services/aggregation.py.
use mathlib.Core.List.{Perm}
use smart_travel_aggregator.Prelude.{
  ◌≤◌, ◌≡◌, ◌↔◌, Bool, true, List, [], ◌∷◌, map, arith, nat_eq, list_eq, filter, All, All-imp,
}
use smart_travel_aggregator.Prelude.Sorting.{
  IsOrder, IsSorted, sorted-IsSorted, sorted-perm, filter-sorted,
}
use smart_travel_aggregator.Domain.{NormalizedFlight, FlightSearchQuery, instant}
use smart_travel_aggregator.Services.Merge.{Provider}
use smart_travel_aggregator.Services.Merge.FanOut.{answered}
use smart_travel_aggregator.Services.Aggregation.Search.{ordered_lem}
use smart_travel_aggregator.Domain.Floats.{Float, IsMonotone}
use smart_travel_aggregator.Services.Aggregation.{
  RankedFlight, SortKey, FlightFilters, best, price, duration, departure, stops, key_le, sort, rank,
  matches, dedupe, ordered, amount,
}

-- Prices are compared as integers, whatever the floats do.
pub price-IsOrder : (float : Float) → IsOrder (key_le float price)
unfolding key_le
price-IsOrder float = record { total = λ a b. ground arith; trans = λ a b c h k. ground arith }

module _ (float : Float) (laws : IsMonotone float) where
  pub key_le-IsOrder : (key : SortKey) → IsOrder (key_le float key)
  unfolding key_le
  key_le-IsOrder best = record {
    total = λ a b. laws.order.total (float.neg a.score) (float.neg b.score);
    trans = λ a b c. laws.order.trans (float.neg a.score) (float.neg b.score) (float.neg c.score);
  }
  key_le-IsOrder price = price-IsOrder float
  key_le-IsOrder duration = record {
    total = λ a b. ground arith;
    trans = λ a b c h k. ground arith;
  }
  key_le-IsOrder departure = record {
    total = λ a b. ground arith;
    trans = λ a b c h k. ground arith;
  }
  key_le-IsOrder stops = record { total = λ a b. ground arith; trans = λ a b c h k. ground arith }

  -- What a key promises of a result and a later one.
  abbrev pub Precedes : SortKey → RankedFlight float → RankedFlight float → Type 0
  Precedes best a b = float.le b.score a.score ≡ true
  Precedes price a b = amount a.flight ≤ amount b.flight
  Precedes duration a b = a.flight.duration_minutes ≤ b.flight.duration_minutes
  Precedes departure a b = instant a.flight.departure_time ≤ instant b.flight.departure_time
  Precedes stops a b = a.flight.stops ≤ b.flight.stops

  abbrev pub InOrder : SortKey → List (RankedFlight float) → Type 0
  InOrder key [] = Unit
  InOrder key (a ∷ rest) = All (Precedes key a) rest × InOrder key rest

  key_le_iff :
      (key : SortKey) (a b : RankedFlight float) → (key_le float key a b ≡ true) ↔ Precedes key a b
  unfolding key_le
  key_le_iff best a b = ground (arith, laws.neg-le a.score b.score)
  key_le_iff price a b = ground arith
  key_le_iff duration a b = ground arith
  key_le_iff departure a b = ground arith
  key_le_iff stops a b = ground arith

  InOrder_lem :
      (key : SortKey) (rs : List (RankedFlight float))
      → IsSorted (key_le float key) rs
      → InOrder key rs
  InOrder_lem key [] h = tt
  InOrder_lem key (a ∷ rest) h =
      (All-imp (λ b. (key_le_iff key a b).0) rest h.0, InOrder_lem key rest h.1)

  -- The results of a search stand by the key: by score with the highest first, by price, duration,
  -- departure or stops with the lowest first. They are the flights that pass the filters, ranked, in
  -- another order, and flights that a test singles out and that tie with one another keep their order.
  pub ordered_sorted :
      (providers : List (Provider FlightSearchQuery NormalizedFlight)) (query : FlightSearchQuery)
      (key : SortKey) (filters : FlightFilters) (p : RankedFlight float → Bool)
      (ties : (a b : RankedFlight float) → p a ≡ true → p b ≡ true → Precedes key a b)
      → let results = ordered float providers query key filters in
        let found = answered (map (λ provider. provider query) providers) in
        let ranked = rank float (filter (matches filters) (dedupe found)) in
        InOrder key results × Perm results ranked × (filter p results ≡ filter p ranked)
  unfolding sort
  ordered_sorted providers query key filters p ties =
      let found = answered (map (λ provider. provider query) providers) in
      let ranked = rank float (filter (matches filters) (dedupe found)) in
      rw (ordered_lem float providers query key filters) (
        InOrder_lem key _ (sorted-IsSorted (key_le float key) (key_le-IsOrder key) ranked),
        sorted-perm (key_le float key) ranked,
        filter-sorted (key_le float key) p (λ a b h k. (key_le_iff key a b).1 (ties a b h k))
            ranked,
      )
