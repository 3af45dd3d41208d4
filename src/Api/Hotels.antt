-- ===== src/Api/Hotels.antt =====
-- app/api/v1/hotels.py: the route of the hotel search, and its validated query.
use smart_travel_aggregator.Prelude.{
  ℕ, ◌+◌, ◌*◌, ◌⊎◌, inl, inr, Bool, Option, List, map, leb, if◌then◌else◌, nat_eq, list_eq,
}
use smart_travel_aggregator.Prelude.Text.{Text, codes, lower}
use smart_travel_aggregator.Core.Errors.{Raised, bad_request, error_of}
use smart_travel_aggregator.Domain.{Date, NormalizedHotel, HotelSearchQuery}
use smart_travel_aggregator.Domain.Amounts.{Money}
use smart_travel_aggregator.Domain.Floats.{Float}
use smart_travel_aggregator.Services.Merge.{Provider, SearchMeta}
use smart_travel_aggregator.Services.HotelAggregation
use smart_travel_aggregator.Services.HotelAggregation.{
  HotelSortKey, HotelFilters, RankedHotel, HotelResult,
}

-- A number that orders dates as their fields do, read from the year on.
abbrev day_number : Date → ℕ
day_number d = (d.year * 13 + d.month) * 32 + d.day

module _ (float : Float) where
  -- The parameters of the route, after validation; `amenities` is empty when it is missing.
  pub record HotelParameters : Type 0 where
    pub city : Text
    pub check_in : Date
    pub check_out : Date
    pub guests : ℕ
    pub sort_key : HotelSortKey
    pub max_price : Option ℕ
    pub min_rating : Option (Float.F float)
    pub amenities : List Text
    pub limit : ℕ
    pub cursor : Option Text

  pub record HotelOfferOut : Type 0 where
    pub id : Text
    pub name : Text
    pub city : Text
    pub rating : Float.F float
    pub reviews_count : ℕ
    pub price_per_night : Money
    pub amenities : List Text
    pub provider : Text
    pub score : Float.F float

  pub record HotelSearchResponse : Type 0 where
    pub offers : List HotelOfferOut
    pub next_cursor : Option Text
    pub has_more : Bool
    pub meta : SearchMeta

  unfoldable pub hotel_offer_out : RankedHotel float → HotelOfferOut
  hotel_offer_out item = record {
    id = item.hotel.id;
    name = item.hotel.name;
    city = item.hotel.city;
    rating = item.hotel.rating;
    reviews_count = item.hotel.reviews_count;
    price_per_night = item.hotel.price_per_night;
    amenities = item.hotel.amenities;
    provider = item.hotel.provider;
    score = item.score;
  }

  unfoldable pub hotel_filters : HotelParameters → HotelFilters float
  hotel_filters q = record {
    max_price_minor = q.max_price;
    min_rating = q.min_rating;
    amenities = map lower q.amenities;
  }

  -- The response or the error.
  unfoldable pub hotel_search :
      List (Provider HotelSearchQuery (NormalizedHotel float))
      → HotelParameters
      → Raised ⊎ HotelSearchResponse
  hotel_search providers q =
      if leb (day_number q.check_out) (day_number q.check_in)
      then inl (error_of bad_request (codes "check-out must be after check-in"))
      else (let query : HotelSearchQuery = record {
        city = q.city;
        check_in = q.check_in;
        check_out = q.check_out;
        guests = q.guests;
      } in
          let result : HotelResult float =
            HotelAggregation.search_hotels float providers query q.sort_key (hotel_filters q)
              q.limit q.cursor in
          inr (record {
            offers = map hotel_offer_out result.items;
            next_cursor = result.next_cursor;
            has_more = result.has_more;
            meta = result.meta;
          }))
