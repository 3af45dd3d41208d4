-- ===== src/Services/HotelAggregation/Results.antt =====
-- What app/services/hotel_aggregation.py promises of its results and scores.
use mathlib.Core.List.{Mem}
use smart_travel_aggregator.Prelude.{
  ℕ, zero, suc, ◌≤◌, ◌≡◌, true, List, [], ◌∷◌, map, arith, nat_eq, list_eq, All, All-both,
  All-filter, filter-All, All-map,
}
use smart_travel_aggregator.Prelude.Sorting.{All-sorted}
use smart_travel_aggregator.Domain.{NormalizedHotel, HotelSearchQuery}
use smart_travel_aggregator.Domain.Floats.{Float, IsMonotone}
use smart_travel_aggregator.Services.Merge.{Provider}
use smart_travel_aggregator.Services.Merge.FanOut.{answered, fan_out_lem}
use smart_travel_aggregator.Services.Merge.Dedupe.{dedupe_lem}
use smart_travel_aggregator.Services.HotelAggregation.{
  RankedHotel, HotelSortKey, HotelFilters, hotel_matches, dedupe_hotels, hotel_key, hotel_key_eq,
  night_amount, hotel_score, share, rank_hotels, hotel_key_le, sort_hotels, ordered_hotels,
}

module _ (float : Float) (laws : IsMonotone float) where
  share_mono : (a b span : ℕ) → a ≤ b → float.le (share float a span) (share float b span) ≡ true
  share_mono a b zero h = ground (arith, laws.order.total (float.decimal 0 1) (float.decimal 0 1))
  share_mono a b (suc span) h = laws.ratio_mono a b (suc span) h

  -- A hotel that is no dearer than another and rated no lower is scored no lower, whatever hotels
  -- the two are ranked among. The laws of floats are those of `IsMonotone`.
  pub hotel_score_mono :
      (min_price price_span : ℕ) (a b : NormalizedHotel float)
      → night_amount float a ≤ night_amount float b
      → float.le b.rating a.rating ≡ true
      → float.le
          (hotel_score float min_price price_span b)
          (hotel_score float min_price price_span a)
        ≡ true
  unfolding hotel_score
  hotel_score_mono min_price price_span a b cheaper better = laws.round_mono _ _ 3 (
      laws.add_mono _ _ _ _ (laws.mul_mono 6 1 _ _ (laws.div_mono 49 1 _ _ better))
        (laws.mul_mono 4 1 _ _ (laws.sub_anti _ _ _ (share_mono _ _ price_span (omega arith)))))

module _ (float : Float) where
  All-rank_hotels {κ} :
      (P : NormalizedHotel float → Type κ) (hotels : List (NormalizedHotel float))
      → All P hotels
      → All (λ (r : RankedHotel float). P r.hotel) (rank_hotels float hotels)
  unfolding rank_hotels
  All-rank_hotels P [] h = tt
  All-rank_hotels P (first ∷ rest) h =
      All-map (λ (r : RankedHotel float). P r.hotel) _ (first ∷ rest) h

  -- Every hotel found was offered by a provider that answered and passes the filters.
  pub ordered_hotels_sound :
      (providers : List (Provider HotelSearchQuery (NormalizedHotel float)))
      (query : HotelSearchQuery) (key : HotelSortKey) (filters : HotelFilters float)
      → All
          (λ (r : RankedHotel float).
            Mem r.hotel (answered (map (λ provider. provider query) providers))
            × (hotel_matches float filters r.hotel ≡ true))
          (ordered_hotels float providers query key filters)
  unfolding ordered_hotels sort_hotels dedupe_hotels
  ordered_hotels_sound providers query key filters =
      let found = answered (map (λ provider. provider query) providers) in
      rw (fan_out_lem providers query) (
        All-sorted (hotel_key_le float key) _ _ (
          All-rank_hotels _ _ (
            All-both _ _ _
              (All-filter _ (hotel_matches float filters) _
                (dedupe_lem (hotel_key float) (night_amount float) found).1)
              (filter-All (hotel_matches float filters) (dedupe_hotels float found)))))
