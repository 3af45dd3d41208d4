-- ===== src/Tests/Samples.antt =====
-- Concrete inputs: flights, hotels and providers, floats with whole values, a scripted network, and
-- packages whose results can be computed.
use native.Mathlib.Nat.{mul-le-mul_left, le-div_iff_mul-le, div-mul-le_self}
use smart_travel_aggregator.Prelude.{
  ℕ, zero, suc, ◌+◌, ◌*◌, ◌/◌, ◌≤◌, Bool, List, [], ◌∷◌, arith, leb, nat_eq, list_eq,
}
use smart_travel_aggregator.Prelude.Text.{Text, codes}
use smart_travel_aggregator.Prelude.Sorting.{IsOrder}
use smart_travel_aggregator.Domain.{
  NormalizedFlight, NormalizedHotel, FlightSearchQuery, HotelSearchQuery, Datetime,
}
use smart_travel_aggregator.Domain.Floats.{Float, IsMonotone}
use smart_travel_aggregator.Services.Merge.{Provider, offers, exception}

-- A whole number as a difference.
abbrev pub Whole : Type 0
Whole = ℕ × ℕ

abbrev pub le_whole : Whole → Whole → Bool
le_whole (a, b) (c, d) = leb (a + d) (c + b)

-- Floats that are rounded to whole numbers: a literal is its digits, a quotient is rounded down.
abbrev pub quotient : ℕ → ℕ → ℕ
quotient a zero = 0
quotient a (suc b) = a / suc b

abbrev pub whole_floats : Float
whole_floats = record {
  F = Whole;
  le = le_whole;
  decimal = λ m k. (m, 0);
  ratio = λ a b. (quotient a b, 0);
  of_int = λ n. (n, 0);
  add = λ (a, b) (c, d). (a + c, b + d);
  sub = λ (a, b) (c, d). (a + d, b + c);
  mul = λ (a, b) (c, d). (a * c + b * d, a * d + b * c);
  div = λ x y. x;
  neg = λ (a, b). (b, a);
  round = λ x digits. x;
}

le_whole-IsOrder : IsOrder le_whole
le_whole-IsOrder = record {
  total = λ (a, b) (c, d). ground arith;
  trans = λ (a, b) (c, d) (e, f) h k. ground arith;
}

quotient_mono : (a b s : ℕ) → a ≤ b → quotient a s ≤ quotient b s
quotient_mono a b zero h = omega arith
quotient_mono a b (suc s) h =
    (le-div_iff_mul-le (omega arith)).1 (omega (arith, div-mul-le_self a (suc s)))

mul_mono_lem : (m a b c d : ℕ) → a + d ≤ c + b → m * a + m * d ≤ m * c + m * b
mul_mono_lem m a b c d h = omega (arith, mul-le-mul_left m h)

pub whole_floats-IsMonotone : IsMonotone whole_floats
whole_floats-IsMonotone = record {
  order = le_whole-IsOrder;
  neg-le = λ (a, b) (c, d). ground arith;
  ratio_mono = λ a b s h. ground (arith, quotient_mono a b s h);
  mul_mono = λ m k (a, b) (c, d) h. ground (arith, mul_mono_lem m a b c d, h);
  div_mono = λ m k a b h. h;
  add_mono = λ (a, b) (c, d) (e, f) (g, i) h k. ground arith;
  sub_anti = λ (a, b) (c, d) (e, f) h. ground arith;
  round_mono = λ a b digits h. h;
}

abbrev pub at_hour : ℕ → Datetime
at_hour h = record {
  year = 2026;
  month = 9;
  day = 1;
  hour = h;
  minute = 0;
  second = 0;
  microsecond = 0;
}

abbrev pub flight : Text → Text → ℕ → ℕ → ℕ → ℕ → NormalizedFlight
flight provider airline hour minutes stops amount = record {
  id = codes "fl_1";
  provider = provider;
  airline = airline;
  origin = codes "IKA";
  destination = codes "DXB";
  departure_time = at_hour hour;
  arrival_time = at_hour (hour + 3);
  duration_minutes = minutes;
  stops = stops;
  cabin_class = codes "economy";
  price = record { amount_minor = amount; currency = codes "USD" };
}

-- The same flight from two providers, the second cheaper, and another flight.
abbrev pub dear : NormalizedFlight
dear = flight (codes "amber") (codes "Aurora") 9 120 0 200

abbrev pub cheap : NormalizedFlight
cheap = flight (codes "basalt") (codes "AURORA") 9 120 0 150

abbrev pub slow : NormalizedFlight
slow = flight (codes "basalt") (codes "Zephyr") 7 300 2 90

abbrev pub flight_query : FlightSearchQuery
flight_query = record {
  origin = codes "IKA";
  destination = codes "DXB";
  departure_date = record { year = 2026; month = 9; day = 1 };
  adults = 1;
  cabin_class = codes "economy";
}

-- Two providers answer and one fails.
abbrev pub flight_providers : List (Provider FlightSearchQuery NormalizedFlight)
flight_providers =
    (λ q. offers (dear ∷ [])) ∷ (λ q. exception) ∷ (λ q. offers (cheap ∷ slow ∷ [])) ∷ []

abbrev pub hotel : NormalizedHotel whole_floats
hotel = record {
  id = codes "ht_1";
  provider = codes "amber";
  name = codes "Grand";
  city = codes "Dubai";
  rating = (4, 0);
  reviews_count = 10;
  price_per_night = record { amount_minor = 100; currency = codes "USD" };
  amenities = codes "wifi" ∷ [];
}

abbrev pub hotel_query : HotelSearchQuery
hotel_query = record {
  city = codes "Dubai";
  check_in = record { year = 2026; month = 9; day = 1 };
  check_out = record { year = 2026; month = 9; day = 3 };
  guests = 2;
}

abbrev pub hotel_providers : List (Provider HotelSearchQuery (NormalizedHotel whole_floats))
hotel_providers = (λ q. offers (hotel ∷ [])) ∷ (λ q. exception) ∷ []
