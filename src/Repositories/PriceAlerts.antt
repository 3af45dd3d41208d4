-- ===== src/Repositories/PriceAlerts.antt =====
-- app/repositories/price_alerts.py, over the rows of `PriceAlert` in app/db/models.py. A session has
-- one object for each row, so a change of an alert is a change of the row with its id.
use smart_travel_aggregator.Prelude.{
  ℕ, ◌≡◌, ap, inl, inr, Bool, ◌&&◌, not, Option, some, List, [], ◌∷◌, ◌++◌, arith, leb, eqb,
  Bool-cases, nat_eq, list_eq, filter,
}
use smart_travel_aggregator.Prelude.Text.{Text}
use smart_travel_aggregator.Prelude.Sorting.{sorted}
use smart_travel_aggregator.Repositories.Users.{first_row}

pub data AlertChannel : Type 0 where
  email push : AlertChannel

-- Times are whole seconds.
pub record PriceAlert : Type 0 where
  pub id : ℕ
  pub user_id : ℕ
  pub origin : Text
  pub destination : Text
  pub departure_date : Text
  pub target_amount_minor : ℕ
  pub currency : Text
  pub channel : AlertChannel
  pub is_active : Bool
  pub triggered_at : Option ℕ
  pub created_at : ℕ

unfoldable pub create_alert_row : List PriceAlert → PriceAlert → List PriceAlert
create_alert_row alerts alert = alerts ++ alert ∷ []

-- The newest first.
unfoldable pub list_for_user : List PriceAlert → ℕ → List PriceAlert
list_for_user alerts user_id =
    sorted (λ a b. leb b.created_at a.created_at) (filter (λ a. eqb a.user_id user_id) alerts)

unfoldable pub get_owned : List PriceAlert → ℕ → ℕ → Option PriceAlert
get_owned alerts alert_id user_id =
    first_row (λ a. eqb a.id alert_id && eqb a.user_id user_id) alerts

unfoldable pub delete_alert_row : List PriceAlert → PriceAlert → List PriceAlert
delete_alert_row alerts alert = filter (λ a. not (eqb a.id alert.id)) alerts

unfoldable pub list_active : List PriceAlert → List PriceAlert
list_active alerts = filter (λ a. a.is_active) alerts

-- What is owned is a row of the user with that id.
pub get_owned_sound :
    (alerts : List PriceAlert) (alert_id user_id : ℕ) (a : PriceAlert)
    → get_owned alerts alert_id user_id ≡ some a
    → (a.id ≡ alert_id) × (a.user_id ≡ user_id)
unfolding get_owned
get_owned_sound [] alert_id user_id a h = absurd (ground arith)
get_owned_sound (b ∷ alerts) alert_id user_id a h =
    elim (Bool-cases (eqb b.id alert_id && eqb b.user_id user_id)) [
      | inl same_id ↦
          let same : b ≡ a = ground (arith, same_id) in
          (
            ground (arith, same_id, ap (λ x. x.id) same),
            ground (arith, same_id, ap (λ x. x.user_id) same),
          )
      | inr other ↦ get_owned_sound alerts alert_id user_id a (ground (arith, other))
    ]
