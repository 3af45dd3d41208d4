-- ===== src/Providers/SampleHotels.antt =====
-- app/providers/sample_hotels.py
use smart_travel_aggregator.Prelude.{
  ℕ, zero, suc, ◌+◌, ◌-◌, ◌*◌, ◌%◌, ◌^◌, ◌&&◌, Option, none, some, List, [], ◌∷◌, ◌++◌, map,
  if◌then◌else◌, nat_eq, list_eq, length, take,
}
use smart_travel_aggregator.Prelude.Text.{Text, codes}
use smart_travel_aggregator.Prelude.Sorting.{sorted}
use smart_travel_aggregator.Prelude.Decimal
use smart_travel_aggregator.Domain.{NormalizedHotel, HotelSearchQuery}
use smart_travel_aggregator.Domain.Floats.{Float}
use smart_travel_aggregator.Services.Merge.{exception, Provider, offers}
use smart_travel_aggregator.Providers.Sampling.{Sampling, str_of_date, item_at, text_le}

pub record SampleHotelProvider : Type 0 where
  pub name : Text
  pub base_price : ℕ

abbrev pub hotel_names : List Text
hotel_names =
    codes "Grand"
    ∷ codes "Central"
    ∷ codes "Riverside"
    ∷ codes "Park"
    ∷ codes "Royal"
    ∷ codes "Harbor"
    ∷ codes "Old Town"
    ∷ codes "Skyline"
    ∷ []

abbrev pub hotel_kinds : List Text
hotel_kinds =
    codes "Hotel" ∷ codes "Suites" ∷ codes "Inn" ∷ codes "Residence" ∷ codes "Boutique" ∷ []

abbrev pub hotel_amenities : List Text
hotel_amenities =
    codes "wifi"
    ∷ codes "breakfast"
    ∷ codes "parking"
    ∷ codes "pool"
    ∷ codes "gym"
    ∷ codes "spa"
    ∷ codes "airport_shuttle"
    ∷ []

module _ {float : Float} (sampling : Sampling float) (self : SampleHotelProvider) where
  open sampling use {
    hexdigest, int_of_digest, Rng, new_rng, randint, choice, uniform, sample, int_of,
  }

  -- `_seed`
  unfoldable pub seed : HotelSearchQuery → ℕ
  seed query =
      int_of_digest (
        hexdigest (
          self.name
          ++ codes ":"
          ++ query.city
          ++ codes ":"
          ++ str_of_date query.check_in
          ++ codes ":"
          ++ str_of_date query.check_out
          ++ codes ":"
          ++ Decimal.str query.guests))
      % 2 ^ 32

  -- `_offer_id`
  unfoldable pub offer_id : HotelSearchQuery → ℕ → Text
  offer_id query index =
      codes "ho_"
      ++ take 16 (
          hexdigest (
            self.name
            ++ codes ":"
            ++ query.city
            ++ codes ":"
            ++ str_of_date query.check_in
            ++ codes ":"
            ++ Decimal.str index))

  -- The body of the loop, in the order of its draws. The query has a guest at least.
  unfoldable pub sample_hotel : HotelSearchQuery → Rng → ℕ → Rng × NormalizedHotel float
  sample_hotel query r0 index =
      let (r1, drawn) = uniform r0 (float.decimal 30 1) (float.decimal 50 1) in
      let rating = float.round drawn 1 in
      let (r2, extra) = randint r1 0 5000 in
      let base = int_of (
        float.add (float.add (float.of_int self.base_price) (float.mul rating (float.of_int 1200)))
          (float.of_int extra)) in
      let (r3, each) = randint r2 500 1500 in
      let (r4, size) = randint r3 2 5 in
      let (r5, picked) = sample r4 (length hotel_amenities) size in
      let (r6, name) = choice r5 (length hotel_names) in
      let (r7, kind) = choice r6 (length hotel_kinds) in
      let (r8, reviews) = randint r7 40 4000 in
      (
        r8,
        record {
          id = offer_id query index;
          provider = self.name;
          name = item_at [] hotel_names name ++ codes " " ++ item_at [] hotel_kinds kind;
          city = query.city;
          rating = rating;
          reviews_count = reviews;
          price_per_night = record {
            amount_minor = base + (query.guests - 1) * each;
            currency = codes "USD";
          };
          amenities = sorted text_le (map (item_at [] hotel_amenities) picked);
        },
      )

  -- The validation of `NormalizedHotel`, which raises for `none`.
  unfoldable pub validated : NormalizedHotel float → Option (NormalizedHotel float)
  validated h =
      if float.le (float.of_int 0) h.rating && float.le h.rating (float.of_int 5)
      then some h
      else none

  -- The loop over so many indices from one on.
  unfoldable pub sample_hotels :
      HotelSearchQuery → Rng → ℕ → ℕ → Option (List (NormalizedHotel float))
  sample_hotels query r index zero = some []
  sample_hotels query r index (suc n) =
      let (after, hotel) = sample_hotel query r index in
      let rest = sample_hotels query after (index + 1) n in
      elim (validated hotel) [
        | none ↦ none
        | some valid ↦ elim rest [ none ↦ none | some hotels ↦ some (valid ∷ hotels) ]
      ]

  -- `search`, as a provider of the hotel service.
  unfoldable pub search : Provider HotelSearchQuery (NormalizedHotel float)
  search query =
      let (r, count) = randint (new_rng (seed query)) 4 7 in
      elim (sample_hotels query r 0 count) [ none ↦ exception | some hotels ↦ offers hotels ]
