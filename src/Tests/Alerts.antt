-- ===== src/Tests/Alerts.antt =====
-- Price alerts on concrete rows and fares.
use smart_travel_aggregator.Api.Flights.{SearchHistory}
use smart_travel_aggregator.Api.Admin.{popular, is_no_less, SearchRoute}
use smart_travel_aggregator.Api.Admin.Popular.{popular_lem, searches_of, is_listed}
use smart_travel_aggregator.Prelude.Sorting.{IsSorted}
use smart_travel_aggregator.Prelude.{
  ℕ, ◌≤◌, ◌<◌, ◌≡◌, refl, ◌⊎◌, true, false, ◌&&◌, Option, none, some, List, [], ◌∷◌, arith, leb,
  nat_eq, list_eq, length, filter, any, All,
}
use smart_travel_aggregator.Prelude.Text.{Text, codes}
use smart_travel_aggregator.Domain.{Date}
use smart_travel_aggregator.Services.Aggregation.{amount}
use smart_travel_aggregator.Repositories.PriceAlerts.{PriceAlert, push, list_active}
use smart_travel_aggregator.Services.PriceMonitor.{Monitor, MonitorState, run_once, query_of}
use smart_travel_aggregator.Services.PriceMonitor.Runs.{is_met, is_met_iff, run_once_lem}
use smart_travel_aggregator.Api.PriceAlerts.{delete_alert, rows_of, delete_alert-rows_of}
use smart_travel_aggregator.Tests.Samples.{
  whole_floats, flight_providers, flight_query, dear, cheap, slow,
}
use smart_travel_aggregator.Tests.Packages.{alice}

abbrev alert : ℕ → ℕ → ℕ → PriceAlert
alert id user_id target = record {
  id = id;
  user_id = user_id;
  origin = codes "IKA";
  destination = codes "DXB";
  departure_date = codes "2026-09-01";
  target_amount_minor = target;
  currency = codes "USD";
  channel = push;
  is_active = true;
  triggered_at = none;
  created_at = 10;
}

abbrev alerts : List PriceAlert
alerts = alert 1 1 100 ∷ alert 2 7 50 ∷ []

abbrev first_of_september : Text → Option Date
first_of_september [] = none
first_of_september (c ∷ s) = some (record { year = 2026; month = 9; day = 1 })

abbrev monitor : Monitor
monitor = record {
  float = whole_floats;
  flights = flight_providers;
  parse_date = first_of_september;
  body_of = λ a price_minor. a.currency;
  clock = λ a. 1000;
}

abbrev state : MonitorState
state = record { users = alice ∷ []; alerts = alerts; sent = [] }

good_date : query_of monitor (alert 1 1 100) ≡ some flight_query
unfolding query_of
good_date = refl

is_met_iff_example :
    is_met monitor (alert 1 1 100) ≡ any (λ a. leb (amount a) 100) (dear ∷ cheap ∷ slow ∷ [])
is_met_iff_example = is_met_iff monitor (alert 1 1 100) flight_query good_date

run_once_lem_example :
    let (after, report) = run_once monitor state in
    (report.checked ≡ length (list_active alerts))
    × (report.triggered ≡ length (filter (is_met monitor) (list_active alerts)))
    × All (λ row. (row.is_active && is_met monitor row) ≡ false) after.alerts
    × ((run_once monitor after).1.triggered ≡ 0)
run_once_lem_example = run_once_lem monitor state

delete_alert-rows_of_example :
    rows_of 7 (delete_alert (λ s. some 2) alerts alice (codes "2")).0 ≡ rows_of 7 alerts
delete_alert-rows_of_example =
    delete_alert-rows_of (λ s. some 2) alerts alice (codes "2") 7
      ((λ e. ground arith, tt), (tt, tt)) (λ e. ground arith)

abbrev searched : Text → Text → SearchHistory
searched origin destination = record {
  user_id = 1;
  origin = origin;
  destination = destination;
  departure_date = record { year = 2026; month = 9; day = 1 };
  result_count = 2;
  latency_ms = 5;
}

abbrev history : List SearchHistory
history =
    searched (codes "FRA") (codes "JFK")
    ∷ searched (codes "OSL") (codes "BER")
    ∷ searched (codes "FRA") (codes "JFK")
    ∷ []

popular_lem_example :
    (length (popular history) ≤ 10)
    × IsSorted is_no_less (popular history)
    × All (λ entry. entry.1 ≡ searches_of entry.0 history) (popular history)
    × ((route : SearchRoute)
        → 0 < searches_of route history
        → (is_listed (popular history) route ≡ true)
          ⊎ ((length (popular history) ≡ 10)
              × All (λ entry. searches_of route history ≤ entry.1) (popular history)))
popular_lem_example = popular_lem history
