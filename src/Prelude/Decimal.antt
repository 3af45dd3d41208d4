-- ===== src/Prelude/Decimal.antt =====
-- Python's `str` of a number that is not negative, and `int` of an ASCII text.
use smart_travel_aggregator.Prelude.{
  ℕ, zero, suc, ◌+◌, ◌-◌, ◌*◌, ◌/◌, ◌%◌, ◌<◌, ◌≡◌, refl, ◌≢◌, inl, inr, Bool, true, false, ◌&&◌,
  Option, none, some, [], ◌∷◌, arith, ltb, leb, eqb, if◌then◌else◌, Bool-cases, nat_eq, list_eq,
  All, All-imp,
}
use mathlib.Core.Option
use smart_travel_aggregator.Prelude.Text.{Text, strip, strip_bare, is_space}

-- The digits of `n` before `rest`. The fuel is spent by one for each digit.
digits_before : ℕ → ℕ → Text → Text
digits_before zero n rest = rest
digits_before (suc f) n rest =
    let longer = digits_before f (n / 10) ((48 + n % 10) ∷ rest) in
    if ltb n 10 then (48 + n) ∷ rest else longer

-- `str(n)`. A number has at most `n + 1` digits.
unfoldable pub str : ℕ → Text
unfolding digits_before
str n = digits_before (suc n) n []

abbrev is_digit : ℕ → Bool
is_digit c = leb b'0' c && leb c b'9'

-- Digits with single underscores between them: the value so far, and whether a digit stands before.
scan : ℕ → Bool → Text → Option ℕ
scan acc after_digit [] = if after_digit then some acc else none
scan acc after_digit (c ∷ s) = elim (is_digit c) [
  | true ↦ scan (acc * 10 + (c - 48)) true s
  | false ↦ elim (eqb c b'_' && after_digit) [ true ↦ scan acc false s | false ↦ none ]
]

-- An integer by its sign and its magnitude.
signed : Text → Option (Bool × ℕ)
unfolding scan
signed [] = none
signed (c ∷ s) =
    if eqb c b'-'
    then Option.map (λ n. (true, n)) (scan 0 false s)
    else if eqb c b'+'
    then Option.map (λ n. (false, n)) (scan 0 false s)
    else Option.map (λ n. (false, n)) (scan 0 false (c ∷ s))

-- `int(text)`, with `none` for a `ValueError`. The integer is negative where the first part is true.
unfoldable pub int : Text → Option (Bool × ℕ)
unfolding signed
int text = signed (strip text)

scan-digits :
    (f n : ℕ) (rest : Text) → n < f → scan 0 false (digits_before f n rest) ≡ scan n true rest
unfolding scan digits_before
scan-digits zero n rest h = absurd (omega arith)
scan-digits (suc f) n rest h = ground (arith, scan-digits f (n / 10) ((48 + n % 10) ∷ rest))

IsDigits-digits :
    (f n : ℕ) (rest : Text)
    → All (λ c. is_digit c ≡ true) rest
    → All (λ c. is_digit c ≡ true) (digits_before f n rest)
unfolding digits_before
IsDigits-digits zero n rest h = h
IsDigits-digits (suc f) n rest h = elim (Bool-cases (ltb n 10)) [
  | inl e ↦ rw e (ground arith, h)
  | inr e ↦ rw e (IsDigits-digits f (n / 10) ((48 + n % 10) ∷ rest) (ground arith, h))
]

pub str-digits : (n : ℕ) → All (λ c. is_digit c ≡ true) (str n)
unfolding str
str-digits n = IsDigits-digits (suc n) n [] tt

signed_digits :
    (s : Text)
    → All (λ c. is_digit c ≡ true) s
    → s ≢ []
    → signed s ≡ Option.map (λ n. (false, n)) (scan 0 false s)
unfolding signed
signed_digits [] h ne = absurd (ne refl)
signed_digits (c ∷ s) h ne = ground (arith, h.0)

digits-ne-nil : (f n c : ℕ) (rest : Text) → digits_before f n (c ∷ rest) ≢ []
unfolding digits_before
digits-ne-nil zero n c rest = ground arith
digits-ne-nil (suc f) n c rest = ground (arith, digits-ne-nil f (n / 10) (48 + n % 10) (c ∷ rest))

pub str-ne-nil : (n : ℕ) → str n ≢ []
unfolding str
str-ne-nil n = ground (arith, digits-ne-nil n (n / 10) (48 + n % 10) [])

digit-not-space : (c : ℕ) → is_digit c ≡ true → is_space c ≡ false
unfolding is_space
digit-not-space c h = ground arith

scan-str : (n : ℕ) → scan 0 false (str n) ≡ some n
unfolding str scan
scan-str n = scan-digits (suc n) n [] (omega arith)

-- `int` undoes `str`.
pub int-str : (n : ℕ) → int (str n) ≡ some (false, n)
unfolding int
int-str n = rw (
  strip_bare (str n) (All-imp digit-not-space (str n) (str-digits n)),
  signed_digits (str n) (str-digits n) (str-ne-nil n),
  scan-str n,
)
