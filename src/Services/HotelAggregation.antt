-- ===== src/Services/HotelAggregation.antt =====
-- app/services/hotel_aggregation.py: the hotel search. The fan-out, the removal of duplicates and
-- the pages are those of Services.Merge. `float(-n)` is the negated float of `n`.
pub mod Results
use smart_travel_aggregator.Prelude.{
  ℕ, zero, suc, ◌-◌, min, max, ◌≡◌, ◌↔◌, Bool, true, false, ◌&&◌, not, Option, none, some, List, [],
  ◌∷◌, map, arith, ltb, if◌then◌else◌, Eq, ◌==◌, nat_eq, list_eq, length, filter, any, all,
}
use smart_travel_aggregator.Prelude.Text.{Text, lower, text_eq_iff}
use smart_travel_aggregator.Prelude.Sorting.{sorted}
use smart_travel_aggregator.Domain.Floats.{Float}
use smart_travel_aggregator.Domain.{NormalizedHotel, HotelSearchQuery}
use smart_travel_aggregator.Services.Pagination.{decode_cursor}
use smart_travel_aggregator.Services.Merge
use smart_travel_aggregator.Services.Merge.{Provider, SearchMeta}

pub data HotelSortKey : Type 0 where
  best price rating reviews : HotelSortKey

-- The key under which `_dedupe` keeps the cheapest offer.
pub record HotelKey : Type 0 where
  pub name : Text
  pub city : Text

pub hotel_key_beq : HotelKey → HotelKey → Bool
hotel_key_beq a b = a.name == b.name && a.city == b.city

pub hotel_key_beq_iff : (a b : HotelKey) → (hotel_key_beq a b ≡ true) ↔ (a ≡ b)
unfolding hotel_key_beq
hotel_key_beq_iff a b = ground (arith, text_eq_iff a.name b.name, text_eq_iff a.city b.city)

instance unfoldable pub hotel_key_eq : Eq HotelKey
unfolding hotel_key_beq
hotel_key_eq = record { beq = hotel_key_beq; beq_iff = hotel_key_beq_iff }

-- `min(xs)` and `max(xs)` of a list that begins with `x`.
abbrev pub least : ℕ → List ℕ → ℕ
least x [] = x
least x (y ∷ ys) = min x (least y ys)

abbrev pub greatest : ℕ → List ℕ → ℕ
greatest x [] = x
greatest x (y ∷ ys) = max x (greatest y ys)

module _ (float : Float) where
  open float use {F, le, decimal, ratio, of_int, add, sub, mul, div, neg, round}

  pub record HotelFilters : Type 0 where
    pub max_price_minor : Option ℕ
    pub min_rating : Option F
    pub amenities : List Text

  -- `bound is not None and x < bound`
  abbrev is_below : Option F → F → Bool
  is_below none x = false
  is_below (some bound) x = not (le bound x)

  -- `bound is not None and n > bound`
  abbrev is_above : Option ℕ → ℕ → Bool
  is_above none n = false
  is_above (some bound) n = ltb bound n

  -- `wanted.issubset(offered)`
  abbrev pub issubset : List Text → List Text → Bool
  issubset wanted offered = all (λ a. any (λ b. a == b) offered) wanted

  unfoldable pub hotel_matches : HotelFilters → NormalizedHotel float → Bool
  hotel_matches filters hotel =
      if is_below filters.min_rating hotel.rating
      then false
      else if is_above filters.max_price_minor hotel.price_per_night.amount_minor
      then false
      else issubset filters.amenities hotel.amenities

  abbrev pub night_amount : NormalizedHotel float → ℕ
  night_amount hotel = hotel.price_per_night.amount_minor

  unfoldable pub hotel_key : NormalizedHotel float → HotelKey
  hotel_key hotel = record { name = lower hotel.name; city = lower hotel.city }

  unfoldable pub dedupe_hotels : List (NormalizedHotel float) → List (NormalizedHotel float)
  unfolding hotel_key_eq
  dedupe_hotels hotels = Merge.dedupe hotel_key night_amount hotels

  pub record RankedHotel : Type 0 where
    pub hotel : NormalizedHotel float
    pub score : F

  pub record HotelResult : Type 0 where
    pub items : List RankedHotel
    pub meta : SearchMeta
    pub next_cursor : Option Text
    pub has_more : Bool

  -- `n / span if span else 0.0`
  abbrev pub share : ℕ → ℕ → F
  share n zero = decimal 0 1
  share n (suc span) = ratio n (suc span)

  -- The score of a hotel, relative to the least price and to the span of the prices.
  unfoldable pub hotel_score : ℕ → ℕ → NormalizedHotel float → F
  hotel_score min_price price_span hotel =
      let price_norm = share (night_amount hotel - min_price) price_span in
      let rating_norm = div hotel.rating (decimal 50 1) in
      round (add (mul (decimal 6 1) rating_norm) (mul (decimal 4 1) (sub (of_int 1) price_norm))) 3

  unfoldable pub rank_hotels : List (NormalizedHotel float) → List RankedHotel
  rank_hotels [] = []
  rank_hotels (first ∷ rest) =
      let prices = map night_amount rest in
      let min_price = least (night_amount first) prices in
      let price_span = greatest (night_amount first) prices - min_price in
      map (λ h. record { hotel = h; score = hotel_score min_price price_span h }) (first ∷ rest)

  -- Whether the key of one hotel is at most that of another.
  unfoldable pub hotel_key_le : HotelSortKey → RankedHotel → RankedHotel → Bool
  hotel_key_le best a b = le (neg a.score) (neg b.score)
  hotel_key_le price a b = le (of_int (night_amount a.hotel)) (of_int (night_amount b.hotel))
  hotel_key_le rating a b = le (neg a.hotel.rating) (neg b.hotel.rating)
  hotel_key_le reviews a b =
      le (neg (of_int a.hotel.reviews_count)) (neg (of_int b.hotel.reviews_count))

  unfoldable pub sort_hotels : List RankedHotel → HotelSortKey → List RankedHotel
  sort_hotels ranked key = sorted (hotel_key_le key) ranked

  -- `HotelAggregationService(providers)`, with `none` for a `ValueError`.
  unfoldable pub new_hotel_service :
      List (Provider HotelSearchQuery (NormalizedHotel float))
      → Option (List (Provider HotelSearchQuery (NormalizedHotel float)))
  new_hotel_service [] = none
  new_hotel_service (p ∷ providers) = some (p ∷ providers)

  module _ (providers : List (Provider HotelSearchQuery (NormalizedHotel float)))
      (query : HotelSearchQuery) (key : HotelSortKey) (filters : HotelFilters) where
    -- `ordered`: all results, of which `search` returns a page.
    unfoldable pub ordered_hotels : List RankedHotel
    ordered_hotels =
        let (hotels, ok, failed) = Merge.fan_out providers query in
        sort_hotels (rank_hotels (filter (hotel_matches filters) (dedupe_hotels hotels))) key

    unfoldable pub search_hotels : ℕ → Option Text → HotelResult
    search_hotels limit cursor =
        let (hotels, ok, failed) = Merge.fan_out providers query in
        let offset = decode_cursor cursor in
        record {
          items = Merge.page ordered_hotels offset limit;
          meta = record {
            degraded = ltb 0 failed;
            providers_ok = ok;
            providers_failed = failed;
            total = length ordered_hotels;
          };
          next_cursor = Merge.next_cursor ordered_hotels offset limit;
          has_more = Merge.has_more ordered_hotels offset limit;
        }
