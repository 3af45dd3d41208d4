-- ===== src/Providers/Sampling.antt =====
-- What the sample providers of app/providers take from Python: hashlib, random and datetime. The
-- draws are those of one `random.Random`, so each returns the generator afterwards.
use smart_travel_aggregator.Prelude.{
  ℕ, zero, suc, ◌≤◌, ◌<◌, ◌≡◌, Bool, true, false, Option, some, List, [], ◌∷◌, ◌++◌, arith, ltb,
  eqb, if◌then◌else◌, nat_eq, list_eq, length, All,
}
use smart_travel_aggregator.Prelude.Text.{Text, codes}
use smart_travel_aggregator.Domain.{Datetime, Date, zero_filled}
use smart_travel_aggregator.Domain.Floats.{Float}

pub record Sampling (float : Float) : Type 1 where
  -- `int(hashlib.sha256(raw.encode()).hexdigest(), 16)` and the digest itself.
  pub hexdigest : Text → Text
  pub int_of_digest : Text → ℕ
  pub Rng : Type 0
  -- `random.Random(seed)`
  pub new_rng : ℕ → Rng
  pub randint : Rng → ℕ → ℕ → Rng × ℕ
  -- The index of what `choice` picks from so many, and `choices` by weights.
  pub choice : Rng → ℕ → Rng × ℕ
  pub choices : Rng → List ℕ → Rng × ℕ
  pub uniform : Rng → Float.F float → Float.F float → Rng × Float.F float
  -- The indices of what `sample` picks from so many.
  pub sample : Rng → ℕ → ℕ → Rng × List ℕ
  -- `departure + timedelta(minutes=n)`, with `none` for the `OverflowError` past the year 9999.
  pub add_minutes : Datetime → ℕ → Option Datetime
  -- `int(x)` of a float that is not negative.
  pub int_of : Float.F float → ℕ

-- The documented ranges of the draws, and of datetime: the day after one before 9999 is in range.
pub record IsRandom {float : Float} (sampling : Sampling float) : Type 0 where
  pub randint-range :
      (r : Sampling.Rng sampling) (a b : ℕ)
      → a ≤ b
      → (a ≤ (sampling.randint r a b).1) × ((sampling.randint r a b).1 ≤ b)
  pub choice-lt : (r : Sampling.Rng sampling) (n : ℕ) → 0 < n → (sampling.choice r n).1 < n
  pub choices-lt :
      (r : Sampling.Rng sampling) (weights : List ℕ)
      → 0 < length weights
      → (sampling.choices r weights).1 < length weights
  pub sample-length :
      (r : Sampling.Rng sampling) (n k : ℕ) → k ≤ n → length (sampling.sample r n k).1 ≡ k
  pub add_minutes-some :
      (d : Datetime) (n : ℕ)
      → d.year < 9999
      → n ≤ 1440
      → (later : Datetime) × (sampling.add_minutes d n ≡ some later)
  pub sample-lt :
      (r : Sampling.Rng sampling) (n k : ℕ) → k ≤ n → All (λ i. i < n) (sampling.sample r n k).1

-- `str(date)`
unfoldable pub str_of_date : Date → Text
str_of_date d =
    zero_filled 4 d.year ++ codes "-" ++ zero_filled 2 d.month ++ codes "-" ++ zero_filled 2 d.day

-- `s <= t` of two texts.
abbrev pub text_le : Text → Text → Bool
text_le [] t = true
text_le (c ∷ s) [] = false
text_le (c ∷ s) (d ∷ t) = if eqb c d then text_le s t else ltb c d

-- `items[index]`, with an item for an index that is out of range, which no draw is.
abbrev pub item_at : {A : Type 0} → A → List A → ℕ → A
item_at default [] n = default
item_at default (a ∷ items) zero = a
item_at default (a ∷ items) (suc n) = item_at default items n

pub item_at-Mem-All :
    {A : Type 0} (P : A → Type 0) (default : A) (items : List A) (n : ℕ)
    → All P items
    → n < length items
    → P (item_at default items n)
item_at-Mem-All P default [] n h le = absurd (omega (arith, le))
item_at-Mem-All P default (a ∷ items) zero h le = h.0
item_at-Mem-All P default (a ∷ items) (suc n) h le =
    item_at-Mem-All P default items n h.1 (omega (arith, le))
