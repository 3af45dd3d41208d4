-- ===== src/Services/Pagination/RoundTrip.antt =====
-- Cursors of app/services/pagination.py and the offsets that they stand for.
use smart_travel_aggregator.Prelude.{
  ℕ, ◌≡◌, refl, ◌≢◌, false, some, [], ◌∷◌, arith, nat_eq, list_eq, All-imp,
}
use smart_travel_aggregator.Prelude.Text.{Text}
use smart_travel_aggregator.Services.Pagination.{encode_cursor, decode_cursor}
use smart_travel_aggregator.Prelude.Decimal
use smart_travel_aggregator.Services.Pagination.Base64

decode_cursor_of_text :
    (cursor text : Text) (n : ℕ)
    → Base64.urlsafe_b64decode cursor ≡ some text
    → Decimal.int text ≡ some (false, n)
    → cursor ≢ []
    → decode_cursor (some cursor) ≡ n
unfolding decode_cursor
decode_cursor_of_text [] text n d e ne = absurd (ne refl)
decode_cursor_of_text (c ∷ cursor) text n d e ne = ground arith

-- Every offset comes back from its cursor.
pub decode_cursor-encode_cursor :
    (offset : ℕ) → decode_cursor (some (encode_cursor offset)) ≡ offset
unfolding encode_cursor
decode_cursor-encode_cursor offset =
    decode_cursor_of_text (Base64.urlsafe_b64encode (Decimal.str offset)) (Decimal.str offset)
      offset
      (Base64.decode-encode (Decimal.str offset)
        (All-imp (λ c d. ground arith) (Decimal.str offset) (Decimal.str-digits offset)))
      (Decimal.int-str offset)
      (Base64.encode-ne-nil (Decimal.str offset) (Decimal.str-ne-nil offset))
