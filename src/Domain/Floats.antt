-- ===== src/Domain/Floats.antt =====
-- Python's `float`, as the scores and ratings use it. The operations are parameters; the laws that
-- the theorems need are those of IEEE 754 arithmetic on numbers that are not NaN, each operation
-- rounding a result monotonically.
use smart_travel_aggregator.Prelude.{ℕ, suc, ◌≤◌, ◌≡◌, Bool, true, nat_eq, list_eq}
use smart_travel_aggregator.Prelude.Sorting.{IsOrder}

pub record Float : Type 1 where
  pub F : Type 0
  pub le : F → F → Bool
  -- The literal `m * 10 ** -k`: 0.5 is `decimal 5 1`.
  pub decimal : ℕ → ℕ → F
  -- `a / b` of two integers.
  pub ratio : ℕ → ℕ → F
  -- `float(n)`
  pub of_int : ℕ → F
  pub add : F → F → F
  pub sub : F → F → F
  pub mul : F → F → F
  pub div : F → F → F
  pub neg : F → F
  -- `round(x, digits)`
  pub round : F → ℕ → F

pub record IsMonotone (f : Float) : Type 0 where
  pub order : IsOrder (Float.le f)
  pub neg-le : (a b : Float.F f) → f.le (f.neg a) (f.neg b) ≡ f.le b a
  pub ratio_mono : (a b s : ℕ) → a ≤ b → f.le (f.ratio a s) (f.ratio b s) ≡ true
  -- Multiplying by a literal, which is not negative.
  pub mul_mono :
      (m k : ℕ) (a b : Float.F f)
      → f.le a b ≡ true
      → f.le (f.mul (f.decimal m k) a) (f.mul (f.decimal m k) b) ≡ true
  -- Dividing by a literal above 0.
  pub div_mono :
      (m k : ℕ) (a b : Float.F f)
      → f.le a b ≡ true
      → f.le (f.div a (f.decimal (suc m) k)) (f.div b (f.decimal (suc m) k)) ≡ true
  pub add_mono :
      (a b c d : Float.F f)
      → f.le a b ≡ true
      → f.le c d ≡ true
      → f.le (f.add a c) (f.add b d) ≡ true
  pub sub_anti : (a b c : Float.F f) → f.le a b ≡ true → f.le (f.sub c b) (f.sub c a) ≡ true
  pub round_mono :
      (a b : Float.F f) (digits : ℕ)
      → f.le a b ≡ true
      → f.le (f.round a digits) (f.round b digits) ≡ true
