-- ===== src/Schemas.antt =====
-- app/schemas/auth.py: the passwords that a registration or a reset may set. Letters, digits and case
-- are those of ASCII.
use smart_travel_aggregator.Prelude.{
  ℕ, ◌≤◌, ◌<◌, ◌≡◌, refl, inl, inr, Bool, true, false, ◌&&◌, ◌||◌, not, Option, none, some, [], ◌∷◌,
  arith, leb, if◌then◌else◌, Bool-cases, ◌==◌, nat_eq, list_eq, length, any, all,
}
use smart_travel_aggregator.Prelude.Text.{
  Text, lower, upper, text_eq_iff, strip, lower_char, upper_char,
}

abbrev pub is_upper : ℕ → Bool
is_upper c = leb b'A' c && leb c b'Z'

abbrev pub is_lower : ℕ → Bool
is_lower c = leb b'a' c && leb c b'z'

abbrev pub is_digit : ℕ → Bool
is_digit c = leb b'0' c && leb c b'9'

-- `value.isalpha()`, `value.isdigit()`
abbrev pub isalpha : Text → Bool
isalpha [] = false
isalpha (c ∷ s) = all (λ c. is_upper c || is_lower c) (c ∷ s)

abbrev pub isdigit : Text → Bool
isdigit [] = false
isdigit (c ∷ s) = all is_digit (c ∷ s)

-- Whether `validate_password_strength` returns.
unfoldable pub validate_password_strength : Text → Bool
validate_password_strength value =
    if isalpha value || isdigit value
    then false
    else if lower value == value || upper value == value
    then false
    else true

-- `RegisterRequest._strip_name`
unfoldable pub strip_name : Option Text → Option Text
strip_name none = none
strip_name (some value) = elim (strip value) [ [] ↦ none | c ∷ s ↦ some (c ∷ s) ]

-- The field `password` with its bounds on the length.
unfoldable pub accepts_password : Text → Bool
accepts_password value =
    leb 10 (length value) && leb (length value) 128 && validate_password_strength value

lower_fixed : (s : Text) → any is_upper s ≡ false → lower s ≡ s
unfolding lower lower_char
lower_fixed [] h = refl
lower_fixed (c ∷ s) h = ground (arith, h, lower_fixed s)

upper_fixed : (s : Text) → any is_lower s ≡ false → upper s ≡ s
unfolding upper upper_char
upper_fixed [] h = refl
upper_fixed (c ∷ s) h = ground (arith, h, upper_fixed s)

all-any : (p : ℕ → Bool) (s : Text) → any (λ c. not (p c)) s ≡ false → all p s ≡ true
all-any p [] h = refl
all-any p (c ∷ s) h = ground (arith, h, all-any p s)

isalpha_lem :
    (s : Text)
    → 0 < length s
    → any (λ c. not (is_upper c || is_lower c)) s ≡ false
    → isalpha s ≡ true
isalpha_lem [] h k = absurd (ground arith)
isalpha_lem (c ∷ s) h k = all-any (λ c. is_upper c || is_lower c) (c ∷ s) k

-- A password that is accepted has 10 to 128 characters, among them an upper case letter, a lower
-- case letter, and one that is no letter.
pub accepts_password_sound :
    (value : Text)
    → accepts_password value ≡ true
    → (10 ≤ length value)
      × (length value ≤ 128)
      × (any is_upper value ≡ true)
      × (any is_lower value ≡ true)
      × (any (λ c. not (is_upper c || is_lower c)) value ≡ true)
unfolding accepts_password validate_password_strength
accepts_password_sound value h = (
  ground (arith, h),
  ground (arith, h),
  elim (Bool-cases (any is_upper value)) [
    | inl some_upper ↦ some_upper
    | inr no_upper ↦
        absurd (ground (arith, h, (text_eq_iff (lower value) value).1 (lower_fixed value no_upper)))
  ],
  elim (Bool-cases (any is_lower value)) [
    | inl some_lower ↦ some_lower
    | inr no_lower ↦
        absurd (ground (arith, h, (text_eq_iff (upper value) value).1 (upper_fixed value no_lower)))
  ],
  elim (Bool-cases (any (λ c. not (is_upper c || is_lower c)) value)) [
    | inl other ↦ other
    | inr letters ↦ absurd (ground (arith, h, isalpha_lem value (ground (arith, h)) letters))
  ],
)
