-- ===== src/Services/PriceMonitor.antt =====
-- app/services/price_monitor.py, with `ConsoleNotifier` of app/services/notifications.py, which keeps
-- what it is given to send. `date.fromisoformat` and the text of a mail are parameters.
pub mod Runs
use smart_travel_aggregator.Prelude.{
  ℕ, ◌+◌, Bool, true, false, not, Option, none, some, List, [], ◌∷◌, ◌++◌, ltb, eqb, if◌then◌else◌,
  nat_eq, list_eq, length, drop,
}
use smart_travel_aggregator.Prelude.Text.{Text, codes}
use smart_travel_aggregator.Domain.{Date, NormalizedFlight, FlightSearchQuery}
use smart_travel_aggregator.Domain.Floats.{Float}
use smart_travel_aggregator.Repositories.Users.{User, get_by_id}
use smart_travel_aggregator.Repositories.PriceAlerts.{PriceAlert, list_active}
use smart_travel_aggregator.Services.Merge.{Provider}
use smart_travel_aggregator.Services.Aggregation.{price, no_filters, search, RankedFlight, amount}
use smart_travel_aggregator.Services.AuthService.{Mail}

pub record MonitorReport : Type 0 where
  pub checked : ℕ
  pub triggered : ℕ

pub record MonitorState : Type 0 where
  pub users : List User
  pub alerts : List PriceAlert
  pub sent : List Mail

-- The flight service, with the floats it computes with, `date.fromisoformat` with `none` for a
-- `ValueError`, the text of a mail for an alert and a price, and the time at which an alert is
-- triggered.
pub record Monitor : Type 1 where
  pub float : Float
  pub flights : List (Provider FlightSearchQuery NormalizedFlight)
  pub parse_date : Text → Option Date
  pub body_of : PriceAlert → ℕ → Text
  pub clock : PriceAlert → ℕ

-- The query of an alert, `none` for a bad date.
unfoldable pub query_of : Monitor → PriceAlert → Option FlightSearchQuery
query_of mon alert = elim (mon.parse_date alert.departure_date) [
  | none ↦ none
  | some departure ↦ some (record {
    origin = alert.origin;
    destination = alert.destination;
    departure_date = departure;
    adults = 1;
    cabin_class = codes "economy";
  })
]

abbrev pub first_price : (float : Float) → List (RankedFlight float) → Option ℕ
first_price float [] = none
first_price float (item ∷ items) = some (amount item.flight)

unfoldable pub cheapest_price : Monitor → PriceAlert → Option ℕ
cheapest_price mon alert = elim (query_of mon alert) [
  | none ↦ none
  | some query ↦
      first_price mon.float (search mon.float mon.flights query price no_filters 1 none).items
]

unfoldable pub notify : Monitor → MonitorState → User → PriceAlert → ℕ → MonitorState
notify mon s u alert price_minor = record s {
  sent =
      s.sent
      ++ record {
        to = u.email;
        subject = codes "Price drop: " ++ alert.origin ++ codes " to " ++ alert.destination;
        body = mon.body_of alert price_minor;
      }
        ∷ [];
}

-- `alert.is_active = False`, `alert.triggered_at = datetime.now(UTC)`, in the row of the alert.
abbrev pub deactivated : ℕ → PriceAlert → PriceAlert
deactivated time alert = record alert { is_active = false; triggered_at = some time }

unfoldable pub deactivate : ℕ → ℕ → List PriceAlert → List PriceAlert
deactivate id time [] = []
deactivate id time (row ∷ rows) =
    if eqb row.id id
    then deactivated time row ∷ deactivate id time rows
    else row ∷ deactivate id time rows

-- Whether an alert is triggered by a price.
abbrev pub is_met_by : Option ℕ → ℕ → Bool
is_met_by none target = false
is_met_by (some cheapest) target = not (ltb target cheapest)

-- `_check`: the state afterwards, and whether the alert was triggered.
unfoldable pub check_alert : Monitor → MonitorState → PriceAlert → MonitorState × Bool
check_alert mon s alert = elim (cheapest_price mon alert) [
  | none ↦ (s, false)
  | some cheapest ↦
      if ltb alert.target_amount_minor cheapest
      then (s, false)
      else (let told : MonitorState = elim (get_by_id s.users alert.user_id) [
        | none ↦ s
        | some u ↦ notify mon s u alert cheapest
      ] in
          (record told { alerts = deactivate alert.id (mon.clock alert) told.alerts }, true))
]

-- The loop of `run_once` over the active alerts.
unfoldable pub check_all : Monitor → MonitorState → ℕ → List PriceAlert → MonitorState × ℕ
unfolding check_alert
check_all mon s triggered [] = (s, triggered)
check_all mon s triggered (alert ∷ active) =
    let (after, met) = check_alert mon s alert in
    check_all mon after (if met then triggered + 1 else triggered) active

unfoldable pub run_once : Monitor → MonitorState → MonitorState × MonitorReport
unfolding check_all
run_once mon s =
    let active = list_active s.alerts in
    let (after, triggered) = check_all mon s 0 active in
    (after, record { checked = length active; triggered = triggered })
