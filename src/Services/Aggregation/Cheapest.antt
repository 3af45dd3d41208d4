-- ===== src/Services/Aggregation/Cheapest.antt =====
-- The first result of a search of app/services/aggregation.py by price, which the price monitor
-- and the flight page read.
use mathlib.Core.List.{Mem}
use smart_travel_aggregator.Prelude.{
  ◌≤◌, ◌≡◌, refl, Bool, true, false, none, List, [], ◌∷◌, map, arith, leb, nat_eq, list_eq, take,
  filter, All, All-imp,
}
use smart_travel_aggregator.Prelude.Sorting.{IsSorted, sorted-IsSorted, All-of_sorted, test_of_Mem}
use smart_travel_aggregator.Domain.{NormalizedFlight, FlightSearchQuery}
use smart_travel_aggregator.Domain.Floats.{Float}
use smart_travel_aggregator.Services.Pagination.{decode_cursor}
use smart_travel_aggregator.Services.Merge
use smart_travel_aggregator.Services.Merge.{Provider}
use smart_travel_aggregator.Services.Merge.FanOut.{answered, fan_out_lem}
use smart_travel_aggregator.Services.Merge.Dedupe.{dedupe_lem}
use smart_travel_aggregator.Services.Aggregation.Ranking.{All-of_rank}
use smart_travel_aggregator.Services.Aggregation.Ordering.{price-IsOrder}
use smart_travel_aggregator.Services.Aggregation.{
  RankedFlight, price, no_filters, matches, dedupe, flight_key, flight_key_eq, amount, rank, sort,
  key_le, ordered, search,
}

matches-no_filters : (flight : NormalizedFlight) → matches no_filters flight ≡ true
unfolding matches
matches-no_filters flight = ground arith

filter_all : {A : Type 0} (p : A → Bool) (xs : List A) → ((a : A) → p a ≡ true) → filter p xs ≡ xs
filter_all p [] h = refl
filter_all p (x ∷ xs) h = ground (arith, h x, filter_all p xs h)

module _ (float : Float) where
  -- The first of the sorted flights bounds all flights.
  head_of_sort :
      (flights : List NormalizedFlight) (a : NormalizedFlight)
      → Mem a flights
      → (r : RankedFlight float) × (take 1 (sort float (rank float flights) price) ≡ r ∷ [])
        × (amount r.flight ≤ amount a)
  unfolding sort key_le
  head_of_sort flights a m =
      first (sort float (rank float flights) price)
        (sorted-IsSorted (key_le float price) (price-IsOrder float) (rank float flights))
        (λ P h.
          All-of_rank P float flights (All-of_sorted (key_le float price) _ (rank float flights) h))
    where
      first :
          (found : List (RankedFlight float))
          → IsSorted (key_le float price) found
          → ((P : NormalizedFlight → Type 0)
              → All (λ (r : RankedFlight float). P r.flight) found
              → All P flights)
          → (r : RankedFlight float) × (take 1 found ≡ r ∷ []) × (amount r.flight ≤ amount a)
      first [] s back =
          absurd
            (ground (arith, test_of_Mem (λ f. false) a flights (back (λ f. false ≡ true) tt) m))
      first (r ∷ rest) s back = (
        r,
        refl,
        ground (
          arith,
          test_of_Mem (λ f. leb (amount r.flight) (amount f)) a flights
              (back (λ f. leb (amount r.flight) (amount f) ≡ true) (ground arith, s.0)) m,
        ),
      )

  module _ (providers : List (Provider FlightSearchQuery NormalizedFlight))
      (query : FlightSearchQuery) where
    -- A search by price for one result, without filters, has exactly one result when some provider
    -- has an offer, and no offer of a provider that answered is cheaper than it.
    pub search_cheapest :
        All
          (λ a.
            (r : RankedFlight float) × ((search float providers query price no_filters 1 none).items
              ≡ r ∷ [])
            × (amount r.flight ≤ amount a))
          (answered (map (λ provider. provider query) providers))
    unfolding search ordered dedupe decode_cursor Merge.page
    search_cheapest = rw (fan_out_lem providers query) (
        All-imp
          (λ a (d, m, same, le).
            let (r, first, bound) = head_of_sort (dedupe found) d m in
            (
              r,
              rw (filter_all (matches no_filters) (dedupe found) matches-no_filters) first,
              omega arith,
            ))
          found (dedupe_lem flight_key amount found).0)
      where
        found : List NormalizedFlight
        found = answered (map (λ provider. provider query) providers)
