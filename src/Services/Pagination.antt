-- ===== src/Services/Pagination.antt =====
-- app/services/pagination.py. A cursor is the offset in decimal digits, in URL-safe base64. Python's
-- `base64` is modelled in a child module, its `str` and `int` in Prelude.Decimal.
pub mod Base64
pub mod RoundTrip
use smart_travel_aggregator.Prelude.{ℕ, Option, none, some, [], ◌∷◌, if◌then◌else◌, nat_eq, list_eq}
use smart_travel_aggregator.Prelude.Text.{Text}
use smart_travel_aggregator.Prelude.Decimal
use smart_travel_aggregator.Services.Pagination.Base64

unfoldable pub encode_cursor : ℕ → Text
encode_cursor offset = Base64.urlsafe_b64encode (Decimal.str offset)

-- `max(0, int(text))`: an integer with a minus sign counts as 0.
unfoldable pub decode_cursor : Option Text → ℕ
decode_cursor none = 0
decode_cursor (some []) = 0
decode_cursor (some (c ∷ cursor)) = elim (Base64.urlsafe_b64decode (c ∷ cursor)) [
  | none ↦ 0
  | some text ↦ elim (Decimal.int text) [
    | none ↦ 0
    | some (negative, n) ↦ if negative then 0 else n
  ]
]
