-- ===== src/Tests/Search.antt =====
-- The searches on concrete offers.
use mathlib.Core.List.{Mem, Perm}
use smart_travel_aggregator.Prelude.{
  ℕ, zero, suc, ◌+◌, ◌-◌, ◌*◌, ◌/◌, ◌%◌, ◌^◌, ◌≤◌, ◌<◌, min, max, ◌≡◌, refl, sym, ap, ◌∙◌, subst,
  ◌≢◌, ◌↔◌, ◌⊎◌, inl, inr, Bool, true, false, ◌&&◌, ◌||◌, not, Option, none, some, List, [], ◌∷◌,
  ◌++◌, map, arith, ltb, leb, eqb, if◌then◌else◌, ltb→lt, lt→ltb, leb→le, le→leb, eqb_iff,
  Bool-cases, Option-cases, is_some, Eq, ◌==◌, ==_refl, nat_eq, list_eq, length, take, drop, filter,
  any, all, All, length-append, length-take, length-drop, take-append-drop, length-filter-le,
  filter-append, All-append, All-imp, All-both, All-filter, filter-All, length-map, All-map,
  All-reverse, replicate,
}
use smart_travel_aggregator.Prelude.Text.{Text, codes}
use smart_travel_aggregator.Prelude.Sorting.{IsSorted}
use smart_travel_aggregator.Domain.{NormalizedFlight}
use smart_travel_aggregator.Domain.Amounts.{Money}
use smart_travel_aggregator.Services.Pagination.{encode_cursor, decode_cursor}
use smart_travel_aggregator.Services.Pagination.RoundTrip.{decode_cursor-encode_cursor}
use smart_travel_aggregator.Services.Merge
use smart_travel_aggregator.Services.Merge.Dedupe.{dedupe_lem, HasDistinctKeys}
use smart_travel_aggregator.Services.Aggregation.{
  RankedFlight, AggregationResult, SortKey, best, price, no_filters, matches, flight_key,
  flight_key_eq, amount, Scale, score_of, rank, scale, key_le, sort, ordered, search,
}
use smart_travel_aggregator.Services.Aggregation.Search.{
  search_all, search_all-ordered, ordered_lowest,
}
use smart_travel_aggregator.Services.Aggregation.Cheapest.{search_cheapest}
use smart_travel_aggregator.Services.Aggregation.Ordering.{ordered_sorted, InOrder}
use smart_travel_aggregator.Services.HotelAggregation.{HotelFilters}
use smart_travel_aggregator.Tests.Samples.{
  whole_floats, whole_floats-IsMonotone, flight_providers, flight_query, dear, cheap, slow,
}

abbrev found : List NormalizedFlight
found = dear ∷ cheap ∷ slow ∷ []

two_results : length (ordered whole_floats flight_providers flight_query price no_filters) ≡ 2
unfolding ordered sort smart_travel_aggregator.Prelude.Sorting.sorted rank
    smart_travel_aggregator.Services.Aggregation.dedupe Merge.dedupe Merge.fan_out
    smart_travel_aggregator.Prelude.Dict.get smart_travel_aggregator.Prelude.Dict.set flight_key
    smart_travel_aggregator.Prelude.Text.lower smart_travel_aggregator.Domain.isoformat
    smart_travel_aggregator.Prelude.Decimal.str matches key_le
two_results = refl

cheapest_first :
    map
      (λ (r : RankedFlight whole_floats). amount r.flight)
      (ordered whole_floats flight_providers flight_query price no_filters)
    ≡ 90 ∷ 150 ∷ []
unfolding ordered sort smart_travel_aggregator.Prelude.Sorting.sorted rank
    smart_travel_aggregator.Services.Aggregation.dedupe Merge.dedupe Merge.fan_out
    smart_travel_aggregator.Prelude.Dict.get smart_travel_aggregator.Prelude.Dict.set flight_key
    smart_travel_aggregator.Prelude.Text.lower smart_travel_aggregator.Domain.isoformat
    smart_travel_aggregator.Prelude.Decimal.str matches key_le
cheapest_first = refl

search_all-ordered_example :
    search_all whole_floats flight_providers flight_query price no_filters 2 1 none
    ≡ ordered whole_floats flight_providers flight_query price no_filters
search_all-ordered_example =
    search_all-ordered whole_floats flight_providers flight_query price no_filters 2 1 (omega arith)
      (omega (arith, two_results))

search_cheapest_example :
    All
      (λ a.
        (r : RankedFlight whole_floats) × ((search whole_floats flight_providers flight_query price
            no_filters 1 none).items
          ≡ r ∷ [])
        × (amount r.flight ≤ amount a))
      found
search_cheapest_example = search_cheapest whole_floats flight_providers flight_query

ordered_lowest_example :
    All
      (λ r.
        Mem r.flight found
        × (matches no_filters r.flight ≡ true)
        × All (λ a. flight_key a ≡ flight_key r.flight → amount r.flight ≤ amount a) found)
      (ordered whole_floats flight_providers flight_query best no_filters)
ordered_lowest_example = ordered_lowest whole_floats flight_providers flight_query best no_filters

dedupe_lem_example :
    All
      (λ a.
        (r : NormalizedFlight) × Mem r (Merge.dedupe flight_key amount found)
        × (flight_key r ≡ flight_key a)
        × (amount r ≤ amount a))
      found
    × All (λ r. Mem r found) (Merge.dedupe flight_key amount found)
    × HasDistinctKeys flight_key amount (Merge.dedupe flight_key amount found)
dedupe_lem_example = dedupe_lem flight_key amount found

abbrev is_150 : RankedFlight whole_floats → Bool
is_150 r = eqb (amount r.flight) 150

abbrev in_price_order : List (RankedFlight whole_floats)
in_price_order = ordered whole_floats flight_providers flight_query price no_filters

ordered_sorted_example :
    let ranked =
      rank whole_floats
        (filter (matches no_filters) (smart_travel_aggregator.Services.Aggregation.dedupe found)) in
    InOrder whole_floats whole_floats-IsMonotone price in_price_order
    × Perm in_price_order ranked
    × (filter is_150 in_price_order ≡ filter is_150 ranked)
ordered_sorted_example =
    ordered_sorted whole_floats whole_floats-IsMonotone flight_providers flight_query price
      no_filters is_150 (λ a b h k. ground arith)

decode_cursor-encode_cursor_example : decode_cursor (some (encode_cursor 40)) ≡ 40
decode_cursor-encode_cursor_example = decode_cursor-encode_cursor 40

abbrev dollars : Money
dollars = record { amount_minor = 120; currency = codes "USD" }

abbrev with_wifi : HotelFilters whole_floats
with_wifi = record {
  max_price_minor = some 100;
  min_rating = some (3, 0);
  amenities = codes "wifi" ∷ [];
}
