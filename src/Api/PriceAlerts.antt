-- ===== src/Api/PriceAlerts.antt =====
-- app/api/v1/price_alerts.py, for a user that passed the checks of app/api/deps.py. `uuid.UUID` of a
-- text is a parameter.
use smart_travel_aggregator.Prelude.{
  ℕ, ◌≡◌, refl, subst, ◌≢◌, ◌⊎◌, inl, inr, Bool, true, false, ◌&&◌, not, Option, none, some, List,
  [], ◌∷◌, arith, ltb, eqb, if◌then◌else◌, Bool-cases, Option-cases, ◌==◌, nat_eq, list_eq, length,
  filter, all, All,
}
use smart_travel_aggregator.Schemas.{is_digit}
use smart_travel_aggregator.Prelude.Text.{Text, codes, upper}
use smart_travel_aggregator.Core.Errors.{Raised, bad_request, not_found, error_of}
use smart_travel_aggregator.Repositories.Users.{User}
use smart_travel_aggregator.Repositories.PriceAlerts.{
  PriceAlert, AlertChannel, create_alert_row, list_for_user, get_owned, delete_alert_row,
}

-- `PriceAlertCreate`, after validation.
pub record PriceAlertCreate : Type 0 where
  pub origin : Text
  pub destination : Text
  pub departure_date : Text
  pub target_amount_minor : ℕ
  pub currency : Text
  pub channel : AlertChannel

-- `pattern=r"^\d{4}-\d{2}-\d{2}$"`
unfoldable pub is_date_text : Text → Bool
is_date_text (a ∷ b ∷ c ∷ d ∷ e ∷ f ∷ g ∷ h ∷ i ∷ j ∷ []) =
    all is_digit (a ∷ b ∷ c ∷ d ∷ f ∷ g ∷ i ∷ j ∷ []) && eqb e b'-' && eqb h b'-'
is_date_text s = false

-- The validation of `PriceAlertCreate`; that of the channel is in its type.
unfoldable pub accepts_alert : PriceAlertCreate → Bool
accepts_alert payload =
    eqb (length payload.origin) 3
    && eqb (length payload.destination) 3
    && is_date_text payload.departure_date
    && ltb 0 payload.target_amount_minor
    && eqb (length payload.currency) 3

-- The rows afterwards, and the new row or the error, where `upper` is `str.upper` of Python. The database
-- gives the row its id and time.
unfoldable pub create_alert :
    (Text → Text)
    → List PriceAlert
    → User
    → PriceAlertCreate
    → ℕ
    → ℕ
    → List PriceAlert × (Raised ⊎ PriceAlert)
create_alert upper alerts current_user payload id created_at =
    if upper payload.origin == upper payload.destination
    then (alerts, inl (error_of bad_request (codes "origin and destination must differ")))
    else (let alert : PriceAlert = record {
      id = id;
      user_id = current_user.id;
      origin = upper payload.origin;
      destination = upper payload.destination;
      departure_date = payload.departure_date;
      target_amount_minor = payload.target_amount_minor;
      currency = upper payload.currency;
      channel = payload.channel;
      is_active = true;
      triggered_at = none;
      created_at = created_at;
    } in
        (create_alert_row alerts alert, inr alert))

unfoldable pub list_alerts : List PriceAlert → User → List PriceAlert
list_alerts alerts current_user = list_for_user alerts current_user.id

-- The rows afterwards, and nothing or the error.
unfoldable pub delete_alert :
    (Text → Option ℕ) → List PriceAlert → User → Text → List PriceAlert × (Raised ⊎ Unit {0})
delete_alert parse alerts current_user alert_id = elim (parse alert_id) [
  | none ↦ (alerts, inl (error_of not_found (codes "alert not found")))
  | some parsed ↦ elim (get_owned alerts parsed current_user.id) [
    | none ↦ (alerts, inl (error_of not_found (codes "alert not found")))
    | some alert ↦ (delete_alert_row alerts alert, inr tt)
  ]
]

-- No two rows share an id.
abbrev pub HasDistinctIds : List PriceAlert → Type 0
HasDistinctIds [] = Unit
HasDistinctIds (a ∷ alerts) = All (λ b. a.id ≢ b.id) alerts × HasDistinctIds alerts

-- The rows of one user.
abbrev pub rows_of : ℕ → List PriceAlert → List PriceAlert
rows_of user_id alerts = filter (λ a. eqb a.user_id user_id) alerts

keep-All :
    (alerts : List PriceAlert) (a : PriceAlert)
    → All (λ b. a.id ≢ b.id) alerts
    → filter (λ b. not (eqb b.id a.id)) alerts ≡ alerts
keep-All [] a h = refl
keep-All (b ∷ alerts) a h = ground (arith, h.0, keep-All alerts a h.1)

get_owned-All :
    (P : PriceAlert → Type 0) (alerts : List PriceAlert) (id user_id : ℕ) (a : PriceAlert)
    → All P alerts
    → get_owned alerts id user_id ≡ some a
    → P a
unfolding get_owned
get_owned-All P [] id user_id a h found = absurd (ground arith)
get_owned-All P (b ∷ alerts) id user_id a h found =
    elim (Bool-cases (eqb b.id id && eqb b.user_id user_id)) [
      | inl here ↦ subst P (ground (arith, here)) h.0
      | inr there ↦ get_owned-All P alerts id user_id a h.1 (ground (arith, there))
    ]

delete-rows_of :
    (alerts : List PriceAlert) (id user_id other : ℕ) (a : PriceAlert)
    → HasDistinctIds alerts
    → user_id ≢ other
    → get_owned alerts id user_id ≡ some a
    → rows_of other (delete_alert_row alerts a) ≡ rows_of other alerts
unfolding get_owned delete_alert_row
delete-rows_of [] id user_id other a distinct differ h = refl
delete-rows_of (b ∷ alerts) id user_id other a distinct differ h =
    elim (Bool-cases (eqb b.id id && eqb b.user_id user_id)) [
      | inl here ↦
          let same : b ≡ a = ground (arith, here) in
          subst (λ x. rows_of other (delete_alert_row (b ∷ alerts) x) ≡ rows_of other (b ∷ alerts))
            same (ground (arith, here, keep-All alerts b distinct.0))
      | inr there ↦
          let found : get_owned alerts id user_id ≡ some a = ground (arith, there) in
          ground (
            arith,
            get_owned-All (λ c. b.id ≢ c.id) alerts id user_id a distinct.0 found,
            delete-rows_of alerts id user_id other a distinct.1 differ found,
          )
    ]

-- Deleting an alert never touches the alerts of another user, whatever id is asked for, when no two
-- rows share an id.
pub delete_alert-rows_of :
    (parse : Text → Option ℕ) (alerts : List PriceAlert) (current_user : User) (alert_id : Text)
    (other : ℕ)
    → HasDistinctIds alerts
    → current_user.id ≢ other
    → rows_of other (delete_alert parse alerts current_user alert_id).0 ≡ rows_of other alerts
unfolding delete_alert
delete_alert-rows_of parse alerts current_user alert_id other distinct differ =
    elim (Option-cases (parse alert_id)) [
      | inl bad ↦ ground (arith, bad)
      | inr (parsed, good) ↦ elim (Option-cases (get_owned alerts parsed current_user.id)) [
        | inl missing ↦ ground (arith, good, missing)
        | inr (a, found) ↦ ground (
          arith,
          good,
          found,
          delete-rows_of alerts parsed current_user.id other a distinct differ found,
        )
      ]
    ]
