-- ===== src/Providers/SampleFlights.antt =====
-- app/providers/sample_flights.py
pub mod Offers
use smart_travel_aggregator.Prelude.{
  ℕ, zero, suc, ◌+◌, ◌-◌, ◌*◌, ◌/◌, ◌%◌, ◌^◌, ◌≤◌, ◌<◌, min, max, ◌≡◌, refl, sym, ap, ◌∙◌, subst,
  ◌≢◌, ◌↔◌, ◌⊎◌, inl, inr, Bool, true, false, ◌&&◌, ◌||◌, not, Option, none, some, List, [], ◌∷◌,
  ◌++◌, map, arith, ltb, leb, eqb, if◌then◌else◌, ltb→lt, lt→ltb, leb→le, le→leb, eqb_iff,
  Bool-cases, Option-cases, is_some, Eq, ◌==◌, ==_refl, nat_eq, list_eq, length, take, drop, filter,
  any, all, All, length-append, length-take, length-drop, take-append-drop, length-filter-le,
  filter-append, All-append, All-imp, All-both, All-filter, filter-All, length-map, All-map,
  All-reverse, replicate,
}
use smart_travel_aggregator.Prelude.Text.{Text, codes}
use smart_travel_aggregator.Prelude.Decimal
use smart_travel_aggregator.Domain.{Datetime, NormalizedFlight, FlightSearchQuery}
use smart_travel_aggregator.Domain.Floats.{Float}
use smart_travel_aggregator.Domain.Amounts.{Money}
use smart_travel_aggregator.Services.Merge.{exception, Provider, Answer, offers}
use smart_travel_aggregator.Providers.Sampling.{Sampling, str_of_date, item_at}

pub record SampleFlightProvider : Type 0 where
  pub name : Text
  pub airlines : List Text
  pub base_price : ℕ

module _ {float : Float} (sampling : Sampling float) (self : SampleFlightProvider) where
  open sampling use {
    hexdigest, int_of_digest, Rng, new_rng, randint, choice, choices, add_minutes, int_of,
  }

  -- `_CABIN_MULTIPLIER.get(cabin_class, 1.0)`
  unfoldable pub cabin_factor : Text → Float.F float
  cabin_factor cabin_class =
      if cabin_class == codes "economy"
      then float.decimal 10 1
      else if cabin_class == codes "premium"
      then float.decimal 16 1
      else if cabin_class == codes "business"
      then float.decimal 28 1
      else if cabin_class == codes "first"
      then float.decimal 45 1
      else float.decimal 10 1

  -- `_seed`
  unfoldable pub seed : FlightSearchQuery → ℕ
  seed query =
      int_of_digest (
        hexdigest (
          self.name
          ++ codes ":"
          ++ query.origin
          ++ codes ":"
          ++ query.destination
          ++ codes ":"
          ++ str_of_date query.departure_date
          ++ codes ":"
          ++ query.cabin_class))
      % 2 ^ 32

  -- `_offer_id`
  unfoldable pub offer_id : FlightSearchQuery → ℕ → Text
  offer_id query index =
      codes "fl_"
      ++ take 16 (
          hexdigest (
            self.name
            ++ codes ":"
            ++ query.origin
            ++ query.destination
            ++ codes ":"
            ++ str_of_date query.departure_date
            ++ codes ":"
            ++ Decimal.str index))

  -- The body of the loop, in the order of its draws. `choices` picks from 0, 1 and 2, so its index
  -- is the number of stops. There is no flight when the arrival is out of range, which raises.
  unfoldable pub sample_flight : FlightSearchQuery → Rng → ℕ → Rng × Option NormalizedFlight
  sample_flight query r0 index =
      let (r1, airline) = choice r0 (length self.airlines) in
      let (r2, stops) = choices r1 (6 ∷ 3 ∷ 1 ∷ []) in
      let (r3, depart_hour) = randint r2 5 21 in
      let (r4, flying) = randint r3 90 240 in
      let (r5, waiting) = randint r4 45 120 in
      let duration = flying + stops * waiting in
      let (r6, quarter) = choice r5 4 in
      let departure : Datetime = record {
        year = query.departure_date.year;
        month = query.departure_date.month;
        day = query.departure_date.day;
        hour = depart_hour;
        minute = item_at 0 (0 ∷ 15 ∷ 30 ∷ 45 ∷ []) quarter;
        second = 0;
        microsecond = 0;
      } in
      let base = int_of (
        float.mul (float.of_int (self.base_price + duration * 20 + stops * 1500))
          (cabin_factor query.cabin_class)) in
      let (r7, extra) = randint r6 0 4000 in
      elim (add_minutes departure duration) [
        | none ↦ (r6, none)
        | some arrival ↦ (
          r7,
          some (record {
            id = offer_id query index;
            provider = self.name;
            airline = item_at [] self.airlines airline;
            origin = query.origin;
            destination = query.destination;
            departure_time = departure;
            arrival_time = arrival;
            duration_minutes = duration;
            stops = stops;
            cabin_class = query.cabin_class;
            price = record { amount_minor = base + extra * query.adults; currency = codes "USD" };
          }),
        )
      ]

  -- The validation of `NormalizedFlight`, which raises for `none`.
  unfoldable pub validated : NormalizedFlight → Option NormalizedFlight
  validated f =
      if eqb (length f.origin) 3 && eqb (length f.destination) 3 && ltb 0 f.duration_minutes
      then some f
      else none

  -- The loop over so many indices from one on.
  unfoldable pub sample_flights : FlightSearchQuery → Rng → ℕ → ℕ → Option (List NormalizedFlight)
  sample_flights query r index zero = some []
  sample_flights query r index (suc n) =
      let (after, flight) = sample_flight query r index in
      let rest = sample_flights query after (index + 1) n in
      elim flight [
        | none ↦ none
        | some f ↦ elim (validated f) [
          | none ↦ none
          | some valid ↦ elim rest [ none ↦ none | some flights ↦ some (valid ∷ flights) ]
        ]
      ]

  -- `search`, as a provider of the flight service.
  unfoldable pub search : Provider FlightSearchQuery NormalizedFlight
  search query =
      let (r, count) = randint (new_rng (seed query)) 3 6 in
      elim (sample_flights query r 0 count) [ none ↦ exception | some flights ↦ offers flights ]
