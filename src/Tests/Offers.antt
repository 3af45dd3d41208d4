-- ===== src/Tests/Offers.antt =====
-- The sample providers with draws that can be computed.
use smart_travel_aggregator.Prelude.{
  ℕ, zero, suc, ◌+◌, ◌-◌, ◌*◌, ◌/◌, ◌%◌, ◌^◌, ◌≤◌, ◌<◌, min, max, ◌≡◌, refl, sym, ap, ◌∙◌, subst,
  ◌≢◌, ◌↔◌, ◌⊎◌, inl, inr, Bool, true, false, ◌&&◌, ◌||◌, not, Option, none, some, List, [], ◌∷◌,
  ◌++◌, map, arith, ltb, leb, eqb, if◌then◌else◌, ltb→lt, lt→ltb, leb→le, le→leb, eqb_iff,
  Bool-cases, Option-cases, is_some, Eq, ◌==◌, ==_refl, nat_eq, list_eq, length, take, drop, filter,
  any, all, All, length-append, length-take, length-drop, take-append-drop, length-filter-le,
  filter-append, All-append, All-imp, All-both, All-filter, filter-All, length-map, All-map,
  All-reverse, replicate,
}
use smart_travel_aggregator.Prelude.Text.{Text, codes, upper}
use smart_travel_aggregator.Domain.{FlightSearchQuery}
use smart_travel_aggregator.Providers.Sampling.{Sampling, IsRandom}
use smart_travel_aggregator.Services.Aggregation.{price, no_filters, search, RankedFlight}
use smart_travel_aggregator.Domain.{Date}
use smart_travel_aggregator.Repositories.PriceAlerts.{PriceAlert, push}
use smart_travel_aggregator.Services.PriceMonitor.{Monitor, cheapest_price}
use smart_travel_aggregator.Api.PriceAlerts.{PriceAlertCreate, accepts_alert, create_alert}
use smart_travel_aggregator.Container.Monitoring.{cheapest_price-create_alert}
use smart_travel_aggregator.Tests.Packages.{alice}
use smart_travel_aggregator.Container.{flight_providers, flight_providers_answer}
use smart_travel_aggregator.Tests.Samples.{whole_floats}

abbrev indices : ℕ → ℕ → List ℕ
indices start zero = []
indices start (suc k) = start ∷ indices (start + 1) k

length-indices : (start k : ℕ) → length (indices start k) ≡ k
length-indices start zero = refl
length-indices start (suc k) = ap suc (length-indices (start + 1) k)

indices-lt : (n start k : ℕ) → start + k ≤ n → All (λ i. i < n) (indices start k)
indices-lt n start zero h = tt
indices-lt n start (suc k) h = (omega (arith, h), indices-lt n (start + 1) k (omega (arith, h)))

abbrev first_draws : Sampling whole_floats
first_draws = record {
  hexdigest = λ raw. raw;
  int_of_digest = length;
  Rng = ℕ;
  new_rng = λ seed. seed;
  randint = λ r a b. (r, a);
  choice = λ r n. (r, 0);
  choices = λ r weights. (r, 0);
  uniform = λ r a b. (r, a);
  sample = λ r n k. (r, indices 0 k);
  add_minutes = λ d n. if ltb d.year 9999 then some d else none;
  int_of = λ x. x.0;
}

first_draws-IsRandom : IsRandom first_draws
first_draws-IsRandom = record {
  randint-range = λ r a b h. (omega arith, h);
  choice-lt = λ r n h. h;
  choices-lt = λ r weights h. h;
  sample-length = λ r n k h. length-indices 0 k;
  add_minutes-some = λ d n early short. (d, ground (arith, early));
  sample-lt = λ r n k h. indices-lt n 0 k (omega (arith, h));
}

abbrev query : FlightSearchQuery
query = record {
  origin = codes "FRA";
  destination = codes "JFK";
  departure_date = record { year = 2026; month = 9; day = 1 };
  adults = 1;
  cabin_class = codes "economy";
}

flight_providers_answer_example :
    let result = search whole_floats (flight_providers first_draws) query price no_filters 1 none in
    (result.meta.providers_ok ≡ 2)
    × (result.meta.degraded ≡ false)
    × ((r : RankedFlight whole_floats) × (result.items ≡ r ∷ []))
flight_providers_answer_example =
    flight_providers_answer first_draws first_draws-IsRandom query (refl, refl, omega arith)

abbrev body : PriceAlertCreate
body = record {
  origin = codes "fra";
  destination = codes "jfk";
  departure_date = codes "2026-09-01";
  target_amount_minor = 100;
  currency = codes "usd";
  channel = push;
}

abbrev created : PriceAlert
created = record {
  id = 1;
  user_id = 1;
  origin = codes "FRA";
  destination = codes "JFK";
  departure_date = codes "2026-09-01";
  target_amount_minor = 100;
  currency = codes "USD";
  channel = push;
  is_active = true;
  triggered_at = none;
  created_at = 10;
}

abbrev first_of_september : Text → Option Date
first_of_september s = some (record { year = 2026; month = 9; day = 1 })

abbrev watch : Monitor
watch = record {
  float = whole_floats;
  flights = flight_providers first_draws;
  parse_date = first_of_september;
  body_of = λ a price_minor. a.currency;
  clock = λ a. 1000;
}

accepted : accepts_alert body ≡ true
unfolding accepts_alert smart_travel_aggregator.Api.PriceAlerts.is_date_text
accepted = refl

made : (create_alert upper [] alice body 1 10).1 ≡ inr created
unfolding create_alert smart_travel_aggregator.Prelude.Text.upper
made = refl

cheapest_price-create_alert_example :
    (cheapest : ℕ) × (cheapest_price watch created ≡ some cheapest)
cheapest_price-create_alert_example =
    cheapest_price-create_alert watch first_draws first_draws-IsRandom upper [] alice body 1 10
      created (record { year = 2026; month = 9; day = 1 }) (λ s h. refl) refl accepted
      (omega arith, (omega arith, (omega arith, tt)))
      (omega arith, (omega arith, (omega arith, tt))) refl (omega arith) made
