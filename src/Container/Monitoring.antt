-- ===== src/Container/Monitoring.antt =====
-- Alerts made over app/api/v1/price_alerts.py, under the monitor of app/workers/tasks.py with the
-- providers of app/container.py.
use smart_travel_aggregator.Prelude.{
  ℕ, suc, ◌<◌, ◌≡◌, refl, sym, ap, ◌∙◌, subst, inr, true, none, some, List, [], ◌∷◌, arith, nat_eq,
  list_eq, length, All,
}
use smart_travel_aggregator.Prelude.Text.{Text, codes, upper}
use smart_travel_aggregator.Domain.{Date, FlightSearchQuery}
use smart_travel_aggregator.Repositories.Users.{User}
use smart_travel_aggregator.Repositories.PriceAlerts.{PriceAlert}
use smart_travel_aggregator.Services.Aggregation.{RankedFlight, price, no_filters, search, amount}
use smart_travel_aggregator.Services.PriceMonitor.{Monitor, query_of, cheapest_price}
use smart_travel_aggregator.Providers.Sampling.{Sampling, IsRandom}
use smart_travel_aggregator.Api.PriceAlerts.{PriceAlertCreate, accepts_alert, create_alert}
use smart_travel_aggregator.Container.{flight_providers, flight_providers_answer}

length-upper : (s : Text) → length (upper s) ≡ length s
unfolding upper
length-upper [] = refl
length-upper (c ∷ s) = ap suc (length-upper s)

abbrev pub IsAscii : Text → Type 0
IsAscii s = All (λ c. c < 128) s

-- `str.upper` changes the letters of a text in ASCII, and no other character of it.
abbrev pub IsUpper : (Text → Text) → Type 0
IsUpper python_upper = (s : Text) → IsAscii s → python_upper s ≡ upper s

-- An accepted alert names its airports by three letters each.
create_alert_lem :
    (python_upper : Text → Text) (upcase : IsUpper python_upper) (alerts : List PriceAlert)
    (u : User) (payload : PriceAlertCreate) (id created_at : ℕ) (alert : PriceAlert)
    → accepts_alert payload ≡ true
    → IsAscii payload.origin
    → IsAscii payload.destination
    → (create_alert python_upper alerts u payload id created_at).1 ≡ inr alert
    → (length alert.origin ≡ 3)
      × (length alert.destination ≡ 3)
      × (alert.departure_date ≡ payload.departure_date)
unfolding create_alert accepts_alert
create_alert_lem python_upper upcase alerts u payload id created_at alert valid from_ascii to_ascii
      made =
    let from : alert.origin ≡ upper payload.origin =
      ground (arith, upcase payload.origin from_ascii) in
    let to : alert.destination ≡ upper payload.destination =
      ground (arith, upcase payload.destination to_ascii) in
    (
      ap length from ∙ length-upper payload.origin ∙ ground arith,
      ap length to ∙ length-upper payload.destination ∙ ground arith,
      ground arith,
    )

query_of_lem :
    (mon : Monitor) (alert : PriceAlert) (day : Date)
    → mon.parse_date alert.departure_date ≡ some day
    → query_of mon alert
      ≡ some (record {
        origin = alert.origin;
        destination = alert.destination;
        departure_date = day;
        adults = 1;
        cabin_class = codes "economy";
      })
unfolding query_of
query_of_lem mon alert day parsed = ground (arith, parsed)

cheapest_price_lem :
    (mon : Monitor) (alert : PriceAlert) (query : FlightSearchQuery) (r : RankedFlight mon.float)
    → query_of mon alert ≡ some query
    → (search mon.float mon.flights query price no_filters 1 none).items ≡ r ∷ []
    → cheapest_price mon alert ≡ some (amount r.flight)
unfolding cheapest_price
cheapest_price_lem mon alert query r asked items = ground (arith, asked, items)

-- For every alert that the route makes of an accepted payload with airport codes in ASCII and a good
-- date before the year 9999, the monitor finds a cheapest fare among the offers of the providers that
-- the container builds.
pub cheapest_price-create_alert :
    (mon : Monitor) (sampling : Sampling mon.float) (random : IsRandom sampling)
    (python_upper : Text → Text) (alerts : List PriceAlert) (u : User) (payload : PriceAlertCreate)
    (id created_at : ℕ) (alert : PriceAlert) (day : Date)
    → IsUpper python_upper
    → mon.flights ≡ flight_providers sampling
    → accepts_alert payload ≡ true
    → IsAscii payload.origin
    → IsAscii payload.destination
    → mon.parse_date payload.departure_date ≡ some day
    → day.year < 9999
    → (create_alert python_upper alerts u payload id created_at).1 ≡ inr alert
    → (cheapest : ℕ) × (cheapest_price mon alert ≡ some cheapest)
cheapest_price-create_alert mon sampling random python_upper alerts u payload id created_at alert
      day upcase built valid from_ascii to_ascii good early made =
    let (from, to, dated) =
      create_alert_lem python_upper upcase alerts u payload id created_at alert valid from_ascii
        to_ascii made in
    let query : FlightSearchQuery = record {
      origin = alert.origin;
      destination = alert.destination;
      departure_date = day;
      adults = 1;
      cabin_class = codes "economy";
    } in
    let (ok, whole, (r, items)) = flight_providers_answer sampling random query (from, to, early) in
    let parsed : mon.parse_date alert.departure_date ≡ some day = ap mon.parse_date dated ∙ good in
    (
      amount r.flight,
      cheapest_price_lem mon alert query r (query_of_lem mon alert day parsed) (
          subst (λ flights. (search mon.float flights query price no_filters 1 none).items ≡ r ∷ [])
            (sym built) items),
    )
