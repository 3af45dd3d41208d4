-- ===== src/Services/Aggregation/Search.antt =====
-- What app/services/aggregation.py promises of a search: its counts, its results and its pages.
use mathlib.Core.List.{Mem}
use smart_travel_aggregator.Prelude.{
  ℕ, zero, suc, ◌+◌, ◌≤◌, ◌<◌, ◌≡◌, refl, ◌∙◌, ◌↔◌, inl, inr, true, Option, none, some, List, [],
  ◌++◌, map, arith, Option-cases, nat_eq, list_eq, length, filter, All, All-imp, All-both,
  All-filter, filter-All, length-map,
}
use smart_travel_aggregator.Prelude.Text.{Text}
use smart_travel_aggregator.Prelude.Sorting.{All-sorted}
use smart_travel_aggregator.Domain.{NormalizedFlight, FlightSearchQuery}
use smart_travel_aggregator.Domain.Floats.{Float}
use smart_travel_aggregator.Services.Pagination.{decode_cursor}
use smart_travel_aggregator.Services.Merge
use smart_travel_aggregator.Services.Merge.{Provider, Answer}
use smart_travel_aggregator.Services.Merge.FanOut.{
  answered, successes, failures, fan_out_lem, successes-add-failures,
}
use smart_travel_aggregator.Services.Merge.Pages.{crawl, crawl-drop}
use smart_travel_aggregator.Services.Merge.Dedupe.{dedupe_lem, dedupe_lowest}
use smart_travel_aggregator.Services.Aggregation.Ranking.{All-rank}
use smart_travel_aggregator.Services.Aggregation.{
  RankedFlight, AggregationResult, SortKey, FlightFilters, matches, dedupe, flight_key,
  flight_key_eq, amount, rank, sort, key_le, ordered, search,
}

module _ (float : Float) (providers : List (Provider FlightSearchQuery NormalizedFlight))
    (query : FlightSearchQuery) (key : SortKey) (filters : FlightFilters) where
  abbrev results : List (Answer NormalizedFlight)
  results = map (λ provider. provider query) providers

  pub ordered_lem :
      ordered float providers query key filters
      ≡ sort float (rank float (filter (matches filters) (dedupe (answered results)))) key
  unfolding ordered
  ordered_lem = rw (fan_out_lem providers query) refl

  -- Each provider is counted once, as one that answered or as one that failed, the search is
  -- degraded when one failed, and the total is the number of all results, not of the page's.
  pub search-meta :
      (limit : ℕ) (cursor : Option Text)
      → let result : AggregationResult float =
          search float providers query key filters limit cursor in
        let meta = result.meta in
        (meta.providers_ok ≡ successes results)
        × (meta.providers_failed ≡ failures results)
        × (meta.providers_ok + meta.providers_failed ≡ length providers)
        × ((meta.degraded ≡ true) ↔ (0 < failures results))
        × (meta.total ≡ length (ordered float providers query key filters))
  unfolding search
  search-meta limit cursor = rw (fan_out_lem providers query) (
    refl,
    refl,
    omega
        (arith, successes-add-failures results, length-map (λ provider. provider query) providers),
    (λ h. ground arith, λ h. ground arith),
    refl,
  )

  -- Every result was offered by a provider that answered and passes the filters.
  pub ordered_sound :
      All
        (λ r. Mem r.flight (answered results) × (matches filters r.flight ≡ true))
        (ordered float providers query key filters)
  unfolding sort dedupe
  ordered_sound = rw ordered_lem (
      All-sorted (key_le float key) _ _ (
        All-rank (λ f. Mem f (answered results) × (matches filters f ≡ true)) float _
          (All-both _ _ _
            (All-filter _ (matches filters) _ (dedupe_lem flight_key amount (answered results)).1)
            (filter-All (matches filters) (dedupe (answered results))))))

  -- Every result was offered by a provider that answered, passes the filters, and is no dearer than
  -- any offer of those providers with the same airline, up to case, origin, destination and time of
  -- departure, whether or not that offer passes the filters.
  pub ordered_lowest :
      All
        (λ r.
          Mem r.flight (answered results)
          × (matches filters r.flight ≡ true)
          × All
              (λ a. flight_key a ≡ flight_key r.flight → amount r.flight ≤ amount a)
              (answered results))
        (ordered float providers query key filters)
  unfolding sort dedupe
  ordered_lowest = rw ordered_lem (
      All-sorted (key_le float key) _ _ (
        All-rank
          (λ f.
            Mem f (answered results)
            × (matches filters f ≡ true)
            × All (λ a. flight_key a ≡ flight_key f → amount f ≤ amount a) (answered results))
          float _
          (All-imp (λ f ((found, lowest), passes). (found, passes, lowest)) _
            (All-both _ _ _
              (All-filter _ (matches filters) _ (
                All-both _ _ _ (dedupe_lem flight_key amount (answered results)).1
                  (dedupe_lowest flight_key amount (answered results))))
              (filter-All (matches filters) (dedupe (answered results)))))))

  -- A client that asks for one page after another by the cursor of the last.
  unfoldable pub search_all : ℕ → ℕ → Option Text → List (RankedFlight float)
  search_all zero limit cursor = []
  search_all (suc fuel) limit cursor =
      let result : AggregationResult float =
        search float providers query key filters limit cursor in
      result.items
      ++ elim result.next_cursor [ none ↦ [] | some c ↦ search_all fuel limit (some c) ]

  search_all-crawl :
      (fuel limit : ℕ) (cursor : Option Text)
      → search_all fuel limit cursor
        ≡ crawl fuel (ordered float providers query key filters) limit cursor
  unfolding search_all crawl search
  search_all-crawl zero limit cursor = refl
  search_all-crawl (suc fuel) limit cursor =
      let all_of = ordered float providers query key filters in
      elim (Option-cases (Merge.next_cursor all_of (decode_cursor cursor) limit)) [
        | inl done ↦ rw done refl
        | inr (c, more) ↦ rw (more, search_all-crawl fuel limit (some c)) refl
      ]

  -- A client that starts without a cursor and goes on until there is none is given every result
  -- once, in their order. One page for each result is enough.
  pub search_all-ordered :
      (fuel limit : ℕ)
      → 0 < limit
      → length (ordered float providers query key filters) ≤ fuel
      → search_all fuel limit none ≡ ordered float providers query key filters
  unfolding decode_cursor
  search_all-ordered fuel limit pos enough =
      search_all-crawl fuel limit none
      ∙ crawl-drop fuel (ordered float providers query key filters) limit none pos (omega arith)
