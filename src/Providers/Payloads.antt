-- ===== src/Providers/Payloads.antt =====
-- The payloads that the providers of app/providers read: what `json.loads` gives, and what Python does
-- with it. Floats are a parameter.
use smart_travel_aggregator.Prelude.{
  ℕ, min, Bool, true, false, not, Option, none, some, List, [], ◌∷◌, map, if◌then◌else◌, ◌==◌,
  nat_eq, list_eq,
}
use smart_travel_aggregator.Prelude.Text.{Text}
use smart_travel_aggregator.Domain.Floats.{Float}

mutual
  pub data Json (F : Type 0) : Type 0 where
    null : Json F
    bool : Bool → Json F
    number : F → Json F
    text : Text → Json F
    array : Items F → Json F
    object : Fields F → Json F

  pub data Items (F : Type 0) : Type 0 where
    no_items : Items F
    item : Json F → Items F → Items F

  -- The members of an object; the last of a name counts, so they stand here last first.
  pub data Fields (F : Type 0) : Type 0 where
    no_fields : Fields F
    field : Text → Json F → Fields F → Fields F

-- Python's `int`, and what converting to it gives or raises.
pub data ℤ : Type 0 where
  pos negsuc : ℕ → ℤ

pub data Integer : Type 0 where
  integer : ℤ → Integer
  value_error overflow_error : Integer

-- `max(0, min(100, n))`
abbrev pub clamp : ℤ → ℕ
clamp (pos n) = min 100 n
clamp (negsuc n) = 0

pub record Reading (float : Float) : Type 0 where
  -- `float(text)`, with `none` for a `ValueError`.
  pub float_of_text : Text → Option (Float.F float)
  -- `str(value)`
  pub str_of : Json (Float.F float) → Text
  -- `int(x)`, `int(text)` and `round(x)`.
  pub int_of_float : Float.F float → Integer
  pub int_of_text : Text → Integer
  pub round_int : Float.F float → Integer
  -- `statistics.fmean`
  pub fmean : List (Float.F float) → Float.F float
  -- `x == 0`
  pub is_zero : Float.F float → Bool
  -- `x > 0`
  pub is_positive : Float.F float → Bool

module _ {F : Type 0} where
  unfoldable pub lookup : Fields F → Text → Option (Json F)
  lookup no_fields key = none
  lookup (field name value fields) key = if name == key then some value else lookup fields key

  -- `payload[key]`, with `none` for a `KeyError` or a `TypeError`.
  unfoldable pub get_item : Json F → Text → Option (Json F)
  get_item (object fields) key = lookup fields key
  get_item payload key = none

  -- `value[0]`, with `none` for an `IndexError`, a `KeyError` or a `TypeError`.
  unfoldable pub get_first : Json F → Option (Json F)
  get_first (array (item value values)) = some value
  get_first (text (c ∷ s)) = some (text (c ∷ []))
  get_first value = none

  unfoldable pub items : Items F → List (Json F)
  items no_items = []
  items (item value values) = value ∷ items values

  unfoldable pub names : Fields F → List (Json F)
  names no_fields = []
  names (field name value fields) = text name ∷ names fields

  -- `iter(value)` as a list, with `none` for a `TypeError`.
  unfoldable pub iterate : Json F → Option (List (Json F))
  iterate (array values) = some (items values)
  iterate (text s) = some (map (λ c. text (c ∷ [])) s)
  iterate (object fields) = some (names fields)
  iterate value = none

  -- `payload.get(key, default)` of an object.
  unfoldable pub get_or : Json F → Text → Json F → Json F
  get_or (object members) key default = elim (lookup members key) [
    | none ↦ default
    | some value ↦ value
  ]
  get_or payload key default = default

-- `float(value)`, with `none` for a `ValueError` or a `TypeError`.
unfoldable pub float_of :
    {float : Float} → Reading float → Json (Float.F float) → Option (Float.F float)
float_of reading (number x) = some x
float_of reading (text t) = reading.float_of_text t
float_of {float} reading (bool b) = some (float.of_int (if b then 1 else 0))
float_of reading value = none

module _ {float : Float} (reading : Reading float) where
  -- `bool(value)`
  unfoldable pub is_truthy : Json (Float.F float) → Bool
  is_truthy null = false
  is_truthy (bool b) = b
  is_truthy (number x) = not (reading.is_zero x)
  is_truthy (text []) = false
  is_truthy (array no_items) = false
  is_truthy (object no_fields) = false
  is_truthy value = true

  -- `int(value or 0)`, with `none` for a `TypeError`.
  unfoldable pub int_or_zero : Json (Float.F float) → Option Integer
  int_or_zero value = if not (is_truthy value) then some (integer (pos 0)) else elim value [
    | null ↦ none
    | bool b ↦ some (integer (pos 1))
    | number x ↦ some (reading.int_of_float x)
    | text s ↦ some (reading.int_of_text s)
    | array values ↦ none
    | object members ↦ none
  ]
