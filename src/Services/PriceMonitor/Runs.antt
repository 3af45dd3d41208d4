-- ===== src/Services/PriceMonitor/Runs.antt =====
-- What a run of app/services/price_monitor.py does.
use mathlib.Core.List.{Mem}
use smart_travel_aggregator.Prelude.{
  ℕ, ◌+◌, ◌≤◌, ◌≡◌, refl, sym, ap, ◌∙◌, inl, inr, Bool, true, false, ◌&&◌, not, none, some, List,
  [], ◌∷◌, map, arith, leb, eqb, if◌then◌else◌, Bool-cases, nat_eq, list_eq, length, take, filter,
  any, All, All-imp,
}
use smart_travel_aggregator.Prelude.Sorting.{test_of_Mem}
use smart_travel_aggregator.Domain.{NormalizedFlight, FlightSearchQuery}
use smart_travel_aggregator.Repositories.PriceAlerts.{PriceAlert, list_active}
use smart_travel_aggregator.Services.Pagination.{decode_cursor}
use smart_travel_aggregator.Services.Merge
use smart_travel_aggregator.Services.Merge.FanOut.{answered}
use smart_travel_aggregator.Services.Aggregation.{
  price, no_filters, search, RankedFlight, amount, ordered, matches,
}
use smart_travel_aggregator.Services.Aggregation.Search.{ordered_sound}
use smart_travel_aggregator.Services.Aggregation.Cheapest.{search_cheapest}
use smart_travel_aggregator.Services.PriceMonitor.{
  Monitor, MonitorState, query_of, cheapest_price, first_price, is_met_by, check_alert, check_all,
  deactivate, notify, run_once,
}

module _ (mon : Monitor) where
  -- Whether the cheapest fare meets the target of an alert.
  abbrev pub is_met : PriceAlert → Bool
  is_met alert = is_met_by (cheapest_price mon alert) alert.target_amount_minor

  check_alert_lem :
      (s : MonitorState) (alert : PriceAlert)
      → ((check_alert mon s alert).1 ≡ is_met alert)
        × ((check_alert mon s alert).0.alerts
            ≡ (if is_met alert then deactivate alert.id (mon.clock alert) s.alerts else s.alerts))
  unfolding check_alert notify
  check_alert_lem s alert = ground arith

  triggered_lem :
      (s : MonitorState) (n : ℕ) (active : List PriceAlert)
      → (check_all mon s n active).1 ≡ n + length (filter is_met active)
  unfolding check_all
  triggered_lem s n [] = ground arith
  triggered_lem s n (alert ∷ active) =
      let (after, met) = check_alert mon s alert in
      ground
        (arith, (check_alert_lem s alert).0, triggered_lem after (if met then n + 1 else n) active)

  -- A row that is active and met is still to come, as an alert with its id.
  abbrev waits : List PriceAlert → PriceAlert → Bool
  waits active row = any (λ a. eqb a.id row.id && is_met a) active

  abbrev IsCovered : List PriceAlert → PriceAlert → Type 0
  IsCovered active row = (row.is_active && is_met row && not (waits active row)) ≡ false

  deactivate-IsCovered :
      (alert : PriceAlert) (active rows : List PriceAlert) (time : ℕ)
      → All (IsCovered (alert ∷ active)) rows
      → All (IsCovered active) (deactivate alert.id time rows)
  unfolding deactivate
  deactivate-IsCovered alert active [] time h = tt
  deactivate-IsCovered alert active (row ∷ rows) time h =
      let rest = deactivate-IsCovered alert active rows time h.1 in
      elim (Bool-cases (eqb row.id alert.id)) [
        | inl same ↦ rw same (refl, rest)
        | inr other ↦ rw other (ground (arith, h.0, other), rest)
      ]

  skip-IsCovered :
      (alert : PriceAlert) (active rows : List PriceAlert)
      → is_met alert ≡ false
      → All (IsCovered (alert ∷ active)) rows
      → All (IsCovered active) rows
  skip-IsCovered alert active rows unmet h = All-imp (λ row c. ground (arith, c, unmet)) rows h

  check_all-settles :
      (s : MonitorState) (n : ℕ) (active : List PriceAlert)
      → All (IsCovered active) s.alerts
      → All (λ row. (row.is_active && is_met row) ≡ false) (check_all mon s n active).0.alerts
  unfolding check_all
  check_all-settles s n [] h = All-imp (λ row c. ground (arith, c)) s.alerts h
  check_all-settles s n (alert ∷ active) h =
      let (after, met) = check_alert mon s alert in
      check_all-settles after (if met then n + 1 else n) active (
        rw (check_alert_lem s alert).1 (elim (Bool-cases (is_met alert)) [
          | inl m ↦ rw m (deactivate-IsCovered alert active s.alerts (mon.clock alert) h)
          | inr m ↦ rw m (skip-IsCovered alert active s.alerts m h)
        ]))

  list_active_on :
      (row : PriceAlert) (rows : List PriceAlert)
      → row.is_active ≡ true
      → list_active (row ∷ rows) ≡ row ∷ list_active rows
  unfolding list_active
  list_active_on row rows on = ground (arith, on)

  list_active_off :
      (row : PriceAlert) (rows : List PriceAlert)
      → row.is_active ≡ false
      → list_active (row ∷ rows) ≡ list_active rows
  unfolding list_active
  list_active_off row rows off = ground (arith, off)

  list_active-IsCovered : (rows : List PriceAlert) → All (IsCovered (list_active rows)) rows
  list_active-IsCovered [] = tt
  list_active-IsCovered (row ∷ rows) =
      let rest = list_active-IsCovered rows in
      elim (Bool-cases row.is_active) [
        | inl on ↦
            let e = list_active_on row rows on in
            (rw e (ground arith), All-imp (λ r c. rw e (ground (arith, c))) rows rest)
        | inr off ↦
            let e = list_active_off row rows off in
            (ground (arith, off), All-imp (λ r c. rw e c) rows rest)
      ]

  none_met :
      (rows : List PriceAlert)
      → All (λ row. (row.is_active && is_met row) ≡ false) rows
      → filter is_met (list_active rows) ≡ []
  unfolding list_active
  none_met [] h = refl
  none_met (row ∷ rows) h = ground (arith, h.0, none_met rows h.1)

  -- A run checks every active alert, reports how many of them the cheapest fares met, and leaves no
  -- active alert whose target is met: no alert is triggered by a second run at the same fares.
  pub run_once_lem :
      (s : MonitorState)
      → let active = list_active s.alerts in
        let (after, report) = run_once mon s in
        (report.checked ≡ length active)
        × (report.triggered ≡ length (filter is_met active))
        × All (λ row. (row.is_active && is_met row) ≡ false) after.alerts
        × ((run_once mon after).1.triggered ≡ 0)
  unfolding run_once
  run_once_lem s =
      let active = list_active s.alerts in
      let settled = check_all-settles s 0 active (list_active-IsCovered s.alerts) in
      let after = (check_all mon s 0 active).0 in
      (
        refl,
        ground (arith, triggered_lem s 0 active),
        settled,
        ground (
          arith,
          triggered_lem after 0 (list_active after.alerts),
          none_met after.alerts settled,
        ),
      )

  met_by_offer :
      (offers : List NormalizedFlight) (items : List (RankedFlight mon.float)) (target : ℕ)
      → All
          (λ a. (r : RankedFlight mon.float) × (items ≡ r ∷ []) × (amount r.flight ≤ amount a))
          offers
      → any (λ a. leb (amount a) target) offers ≡ true
      → is_met_by (first_price mon.float items) target ≡ true
  met_by_offer [] items target h some_low = absurd (ground arith)
  met_by_offer (a ∷ offers) items target ((r, is, low), h) some_low =
      elim (Bool-cases (leb (amount a) target)) [
        | inl here ↦ rw is (ground (arith, here, low))
        | inr above ↦ met_by_offer offers items target h (ground (arith, above))
      ]

  high_offers :
      (offers : List NormalizedFlight) (target : ℕ)
      → any (λ a. leb (amount a) target) offers ≡ false
      → All (λ a. not (leb (amount a) target) ≡ true) offers
  high_offers [] target h = tt
  high_offers (a ∷ offers) target h =
      (ground (arith, h), high_offers offers target (ground (arith, h)))

  unmet_by_offers :
      (offers : List NormalizedFlight) (found : List (RankedFlight mon.float)) (target : ℕ)
      → All
          (λ (r : RankedFlight mon.float).
            Mem r.flight offers × (matches no_filters r.flight ≡ true))
          found
      → any (λ a. leb (amount a) target) offers ≡ false
      → is_met_by (first_price mon.float (take 1 found)) target ≡ false
  unmet_by_offers offers [] target h none_low = refl
  unmet_by_offers offers (r ∷ found) target h none_low = ground (
    arith,
    test_of_Mem (λ a. not (leb (amount a) target)) r.flight offers
        (high_offers offers target none_low) h.0.0,
  )

  first_page :
      (query : FlightSearchQuery)
      → (search mon.float mon.flights query price no_filters 1 none).items
        ≡ take 1 (ordered mon.float mon.flights query price no_filters)
  unfolding search Merge.page decode_cursor
  first_page query = refl

  -- An alert with a good date is met exactly when some provider that answered has an offer at or
  -- below its target.
  pub is_met_iff :
      (alert : PriceAlert) (query : FlightSearchQuery)
      → query_of mon alert ≡ some query
      → is_met alert
        ≡ any
            (λ a. leb (amount a) alert.target_amount_minor)
            (answered (map (λ provider. provider query) mon.flights))
  unfolding cheapest_price
  is_met_iff alert query good =
      let offers = answered (map (λ provider. provider query) mon.flights) in
      let target = alert.target_amount_minor in
      let items = (search mon.float mon.flights query price no_filters 1 none).items in
      let by_items : is_met alert ≡ is_met_by (first_price mon.float items) target =
        ground (arith, good) in
      elim (Bool-cases (any (λ a. leb (amount a) target) offers)) [
        | inl low ↦
            by_items
            ∙ met_by_offer offers items target (search_cheapest mon.float mon.flights query) low
            ∙ sym low
        | inr high ↦
            by_items
            ∙ ap (λ i. is_met_by (first_price mon.float i) target) (first_page query)
            ∙ unmet_by_offers offers (ordered mon.float mon.flights query price no_filters) target
                (ordered_sound mon.float mon.flights query price no_filters) high
            ∙ sym high
      ]
