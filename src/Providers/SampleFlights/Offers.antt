-- ===== src/Providers/SampleFlights/Offers.antt =====
-- What the sample flights of app/providers/sample_flights.py are.
use smart_travel_aggregator.Prelude.{
  ℕ, zero, suc, ◌+◌, ◌*◌, ◌≤◌, ◌<◌, ◌≡◌, refl, ap, true, some, List, [], ◌∷◌, arith, ◌==◌, ==_refl,
  nat_eq, list_eq, length, any, All,
}
use smart_travel_aggregator.Prelude.Text.{Text}
use smart_travel_aggregator.Domain.{Datetime, NormalizedFlight, FlightSearchQuery}
use smart_travel_aggregator.Domain.Floats.{Float}
use smart_travel_aggregator.Services.Merge.{offers}
use smart_travel_aggregator.Providers.Sampling.{Sampling, IsRandom, item_at, item_at-Mem-All}
use smart_travel_aggregator.Providers.SampleFlights.{
  validated, SampleFlightProvider, seed, sample_flight, sample_flights, search,
}

module _ {float : Float} (sampling : Sampling float) (random : IsRandom sampling)
    (self : SampleFlightProvider) (query : FlightSearchQuery) where
  open sampling use {Rng, new_rng, randint}

  -- An offer for the query, of this provider and by one of its airlines, within the ranges drawn.
  abbrev pub IsOffer : NormalizedFlight → Type 0
  IsOffer f =
      (f.provider ≡ self.name)
      × (any (λ airline. airline == f.airline) self.airlines ≡ true)
      × (f.origin ≡ query.origin)
      × (f.destination ≡ query.destination)
      × (f.cabin_class ≡ query.cabin_class)
      × (f.stops ≤ 2)
      × (90 ≤ f.duration_minutes)
      × (f.duration_minutes ≤ 480)
      × (5 ≤ f.departure_time.hour)
      × (f.departure_time.hour ≤ 21)
      × (f.departure_time.minute ≤ 45)

  airline_lem :
      (airlines : List Text) (n : ℕ)
      → n < length airlines
      → any (λ airline. airline == item_at [] airlines n) airlines ≡ true
  airline_lem [] n h = absurd (omega (arith, h))
  airline_lem (a ∷ airlines) zero h = rw (==_refl a) refl
  airline_lem (a ∷ airlines) (suc n) h = ground (arith, airline_lem airlines n)

  minute_lem : (n : ℕ) → n < 4 → item_at 0 (0 ∷ 15 ∷ 30 ∷ 45 ∷ []) n ≤ 45
  minute_lem n h =
      item_at-Mem-All (λ m. m ≤ 45) 0 (0 ∷ 15 ∷ 30 ∷ 45 ∷ []) n
        (omega arith, (omega arith, (omega arith, (omega arith, tt)))) h

  duration_lem :
      (flying stops waiting : ℕ)
      → 90 ≤ flying
      → flying ≤ 240
      → stops ≤ 2
      → waiting ≤ 120
      → (90 ≤ flying + stops * waiting) × (flying + stops * waiting ≤ 480)
  duration_lem flying zero waiting a b c d = (omega arith, omega arith)
  duration_lem flying (suc zero) waiting a b c d = (omega arith, omega arith)
  duration_lem flying (suc (suc zero)) waiting a b c d = (omega arith, omega arith)
  duration_lem flying (suc (suc (suc n))) waiting a b c d = absurd (omega (arith, c))

  sample_flight-IsOffer :
      0 < length self.airlines
      → query.departure_date.year < 9999
      → (r : Rng) (index : ℕ)
      → (f : NormalizedFlight) × ((sample_flight sampling self query r index).1 ≡ some f)
        × IsOffer f
  unfolding sample_flight
  sample_flight-IsOffer some_airline early r0 index =
      let (r1, airline) = sampling.choice r0 (length self.airlines) in
      let (r2, stops) = sampling.choices r1 (6 ∷ 3 ∷ 1 ∷ []) in
      let (r3, hour) = randint r2 5 21 in
      let (r4, flying) = randint r3 90 240 in
      let (r5, waiting) = randint r4 45 120 in
      let few : stops ≤ 2 = ground (arith, random.choices-lt r1 (6 ∷ 3 ∷ 1 ∷ []) (omega arith)) in
      let flies = random.randint-range r3 90 240 (omega arith) in
      let waits = random.randint-range r4 45 120 (omega arith) in
      let starts = random.randint-range r2 5 21 (omega arith) in
      let lasts = duration_lem flying stops waiting flies.0 flies.1 few waits.1 in
      let (r6, quarter) = sampling.choice r5 4 in
      let departure : Datetime = record {
        year = query.departure_date.year;
        month = query.departure_date.month;
        day = query.departure_date.day;
        hour = hour;
        minute = item_at 0 (0 ∷ 15 ∷ 30 ∷ 45 ∷ []) quarter;
        second = 0;
        microsecond = 0;
      } in
      let (arrival, arrives) =
        random.add_minutes-some departure (flying + stops * waiting) early
          (omega (arith, lasts.1)) in
      rw (sample_flight, arrives)
        (
          _,
          refl,
          (
            refl,
            airline_lem self.airlines airline
                (random.choice-lt r0 (length self.airlines) some_airline),
            refl,
            refl,
            refl,
            few,
            lasts.0,
            lasts.1,
            starts.0,
            starts.1,
            minute_lem _ (random.choice-lt r5 4 (omega arith)),
          ),
        )

  -- The query names two airports by three letters, as the routes and the alerts see to, and a day before
  -- the year 9999.
  abbrev pub IsValidQuery : Type 0
  IsValidQuery =
      (length query.origin ≡ 3)
      × (length query.destination ≡ 3)
      × (query.departure_date.year < 9999)

  validated_lem :
      IsValidQuery → (f : NormalizedFlight) → IsOffer f → validated sampling self f ≡ some f
  unfolding validated
  validated_lem valid f offer = ground (arith, valid.0, valid.1, offer)

  sample_flights_lem :
      IsValidQuery
      → 0 < length self.airlines
      → (n : ℕ) (r : Rng) (index : ℕ)
      → (flights : List NormalizedFlight) × (sample_flights sampling self query r index n
          ≡ some flights)
        × (length flights ≡ n)
        × All IsOffer flights
  unfolding sample_flights
  sample_flights_lem valid some_airline zero r index = ([], refl, refl, tt)
  sample_flights_lem valid some_airline (suc n) r index =
      let (flight, drawn, offer) = sample_flight-IsOffer some_airline (valid.2) r index in
      let (flights, found, size, rest) =
        sample_flights_lem valid some_airline n (sample_flight sampling self query r index).0
          (index + 1) in
      (
        flight ∷ flights,
        ground (arith, drawn, validated_lem valid flight offer, found),
        ap suc size,
        (offer, rest),
      )

  -- A sample provider with an airline answers every valid query for a day before the year 9999 with
  -- three to six flights, each for that query, by one of its airlines, with at most two stops, of 90
  -- to 480 minutes, that departs from 5:00 to 21:45.
  pub search_offers :
      IsValidQuery
      → 0 < length self.airlines
      → (flights : List NormalizedFlight) × (search sampling self query ≡ offers flights)
        × (3 ≤ length flights)
        × (length flights ≤ 6)
        × All IsOffer flights
  unfolding search
  search_offers valid some_airline =
      let (r, count) = randint (new_rng (seed sampling self query)) 3 6 in
      let (low, high) =
        random.randint-range (new_rng (seed sampling self query)) 3 6 (omega arith) in
      let (flights, found, size, all_) = sample_flights_lem valid some_airline count r 0 in
      (flights, ground (arith, found), omega (arith, size, low), omega (arith, size, high), all_)
