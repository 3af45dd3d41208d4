-- ===== src/Domain/Amounts.antt =====
-- app/domain/money.py: the value object and the validation of its currency.
use smart_travel_aggregator.Prelude.{
  ℕ, ◌≡◌, refl, Bool, true, ◌&&◌, ◌||◌, Option, none, some, [], ◌∷◌, arith, leb, eqb, if◌then◌else◌,
  nat_eq, list_eq, length, all,
}
use smart_travel_aggregator.Prelude.Text.{Text, upper, upper_char}

pub record Money : Type 0 where
  pub amount_minor : ℕ
  pub currency : Text

-- `str.isalpha` of one character.
unfoldable pub is_alpha : ℕ → Bool
is_alpha c = leb b'A' c && leb c b'Z' || leb b'a' c && leb c b'z'

-- `Money(amount_minor=..., currency=...)`, with `none` for a `ValidationError`: the length first,
-- then the validator, which also puts the code in upper case.
unfoldable pub money : ℕ → Text → Option Money
unfolding is_alpha
money amount currency =
    if eqb (length currency) 3 && all is_alpha currency
    then some (record { amount_minor = amount; currency = upper currency })
    else none

abbrev pub is_upper_letter : ℕ → Bool
is_upper_letter c = leb b'A' c && leb c b'Z'

pub upper-letters :
    (s : Text)
    → all is_alpha s ≡ true
    → (length (upper s) ≡ length s) × (all is_upper_letter (upper s) ≡ true)
unfolding upper upper_char is_alpha
upper-letters [] h = (refl, refl)
upper-letters (c ∷ s) h = ground (arith, upper-letters s)

upper_again : (s : Text) → all is_upper_letter s ≡ true → (all is_alpha s ≡ true) × (upper s ≡ s)
unfolding upper upper_char is_alpha
upper_again [] h = (refl, refl)
upper_again (c ∷ s) h = ground (arith, upper_again s)

-- Every `Money` that validation lets through has the given amount and three letters in upper case
-- for its currency, and validation gives it back unchanged.
pub money_valid :
    (amount : ℕ) (currency : Text) (m : Money)
    → money amount currency ≡ some m
    → (m.amount_minor ≡ amount)
      × (length m.currency ≡ 3)
      × (all (λ c. leb b'A' c && leb c b'Z') m.currency ≡ true)
      × (money m.amount_minor m.currency ≡ some m)
unfolding money
money_valid amount currency m h =
    ground (arith, upper-letters currency, upper_again (upper currency))
