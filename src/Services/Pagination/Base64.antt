-- ===== src/Services/Pagination/Base64.antt =====
-- Python's `base64.urlsafe_b64encode` and `base64.urlsafe_b64decode` on bytes, as
-- app/services/pagination.py uses them. The decoder is that of `binascii` without validation:
-- characters outside the alphabet are passed over, and what follows the padding is not read.
use smart_travel_aggregator.Prelude.{
  ℕ, zero, suc, ◌+◌, ◌-◌, ◌*◌, ◌/◌, ◌%◌, ◌<◌, ◌≡◌, refl, ◌≢◌, true, false, ◌&&◌, ◌||◌, Option, none,
  some, List, [], ◌∷◌, arith, ltb, leb, eqb, if◌then◌else◌, nat_eq, list_eq, All,
}
use mathlib.Core.Option
use smart_travel_aggregator.Prelude.Text.{Text}

-- The character for a value below 64.
unfoldable pub symbol : ℕ → ℕ
symbol v =
    if ltb v 26
    then v + 65
    else if ltb v 52
    then v + 71
    else if ltb v 62
    then v - 4
    else if eqb v 62
    then b'-'
    else b'_'

-- The value of a character of the alphabet; `+` and `/` of the standard alphabet are read too.
unfoldable pub symbol_value : ℕ → Option ℕ
symbol_value c =
    if leb b'A' c && leb c b'Z'
    then some (c - 65)
    else if leb b'a' c && leb c b'z'
    then some (c - 71)
    else if leb b'0' c && leb c b'9'
    then some (c + 4)
    else if eqb c b'-' || eqb c b'+'
    then some 62
    else if eqb c b'_' || eqb c b'/'
    then some 63
    else none

unfoldable pub urlsafe_b64encode : List ℕ → Text
unfolding symbol
urlsafe_b64encode [] = []
urlsafe_b64encode (a ∷ []) = symbol (a / 4) ∷ symbol (a % 4 * 16) ∷ b'=' ∷ b'=' ∷ []
urlsafe_b64encode (a ∷ b ∷ []) =
    symbol (a / 4) ∷ symbol (a % 4 * 16 + b / 16) ∷ symbol (b % 16 * 4) ∷ b'=' ∷ []
urlsafe_b64encode (a ∷ b ∷ c ∷ rest) =
    symbol (a / 4)
    ∷ symbol (a % 4 * 16 + b / 16)
    ∷ symbol (b % 16 * 4 + c / 64)
    ∷ symbol (c % 64)
    ∷ urlsafe_b64encode rest

-- Where the decoder stands in a group of four characters, with the bits left over.
pub data Quad : Type 0 where
  first : Quad
  second third fourth : ℕ → Quad

-- A character's value: the byte that it completes, if any, and the next position.
feed : Quad → ℕ → Option ℕ × Quad
feed first v = (none, second v)
feed (second left) v = (some (left * 4 + v / 16), third (v % 16))
feed (third left) v = (some (left * 16 + v / 4), fourth (v % 4))
feed (fourth left) v = (some (left * 64 + v), first)

emit : Option ℕ → Option (List ℕ) → Option (List ℕ)
emit none rest = rest
emit (some b) rest = Option.map (λ bs. b ∷ bs) rest

-- How far in a group a padding character counts: 0 where it is passed over.
place : Quad → ℕ
place first = 0
place (second _) = 0
place (third _) = 2
place (fourth _) = 3

-- The end of the text inside a group is an error.
finish : Quad → Option (List ℕ)
finish first = some []
finish (second _) = none
finish (third _) = none
finish (fourth _) = none

unfoldable pub decode_from : Quad → ℕ → Text → Option (List ℕ)
unfolding feed emit place finish symbol_value
decode_from q pads [] = finish q
decode_from q pads (c ∷ s) = elim (eqb c b'=') [
  | true ↦ elim (place q) [
    | zero ↦ decode_from q pads s
    | suc n ↦ elim (leb 4 (suc n + (pads + 1))) [
      | true ↦ some []
      | false ↦ decode_from q (pads + 1) s
    ]
  ]
  | false ↦ elim (symbol_value c) [
    | none ↦ decode_from q pads s
    | some v ↦ let (byte, q') = feed q v in emit byte (decode_from q' 0 s)
  ]
]

-- `none` for `binascii.Error`.
unfoldable pub urlsafe_b64decode : Text → Option (List ℕ)
urlsafe_b64decode s = decode_from first 0 s

symbol_value-symbol : (v : ℕ) → v < 64 → symbol_value (symbol v) ≡ some v
unfolding symbol symbol_value
symbol_value-symbol v h = ground arith

symbol-ne-pad : (v : ℕ) → v < 64 → eqb (symbol v) b'=' ≡ false
unfolding symbol
symbol-ne-pad v h = ground arith

-- A character of the alphabet is fed to the decoder.
decode_symbol :
    (q : Quad) (pads v : ℕ) (s : Text)
    → v < 64
    → decode_from q pads (symbol v ∷ s) ≡ emit (feed q v).0 (decode_from (feed q v).1 0 s)
unfolding decode_from
decode_symbol q pads v s h = ground (arith, symbol-ne-pad v h, symbol_value-symbol v h)

two_pads : (l : ℕ) → decode_from (third l) 0 (b'=' ∷ b'=' ∷ []) ≡ some []
unfolding decode_from
two_pads l = refl

one_pad : (l : ℕ) → decode_from (fourth l) 0 (b'=' ∷ []) ≡ some []
unfolding decode_from
one_pad l = refl

module _ (a b c : ℕ) (s : Text) (ha : a < 256) (hb : b < 256) (hc : c < 256) where
  two_symbols :
      decode_from first 0 (symbol (a / 4) ∷ symbol (a % 4 * 16 + b / 16) ∷ s)
      ≡ Option.map (λ bs. a ∷ bs) (decode_from (third (b / 16)) 0 s)
  unfolding feed emit
  two_symbols = ground (
    arith,
    decode_symbol first 0 (a / 4) (symbol (a % 4 * 16 + b / 16) ∷ s) (omega arith),
    decode_symbol (second (a / 4)) 0 (a % 4 * 16 + b / 16) s (omega arith),
  )

  third_symbol :
      decode_from (third (b / 16)) 0 (symbol (b % 16 * 4 + c / 64) ∷ s)
      ≡ Option.map (λ bs. b ∷ bs) (decode_from (fourth (c / 64)) 0 s)
  unfolding feed emit
  third_symbol =
      ground (arith, decode_symbol (third (b / 16)) 0 (b % 16 * 4 + c / 64) s (omega arith))

  fourth_symbol :
      decode_from (fourth (c / 64)) 0 (symbol (c % 64) ∷ s)
      ≡ Option.map (λ bs. c ∷ bs) (decode_from first 0 s)
  unfolding feed emit
  fourth_symbol = ground (arith, decode_symbol (fourth (c / 64)) 0 (c % 64) s (omega arith))

decode_one : (a : ℕ) → a < 256 → decode_from first 0 (urlsafe_b64encode (a ∷ [])) ≡ some (a ∷ [])
unfolding urlsafe_b64encode feed emit
decode_one a h = ground (
  arith,
  decode_symbol first 0 (a / 4) (symbol (a % 4 * 16) ∷ b'=' ∷ b'=' ∷ []) (omega arith),
  decode_symbol (second (a / 4)) 0 (a % 4 * 16) (b'=' ∷ b'=' ∷ []) (omega arith),
  two_pads 0,
)

decode_two :
    (a b : ℕ)
    → a < 256
    → b < 256
    → decode_from first 0 (urlsafe_b64encode (a ∷ b ∷ [])) ≡ some (a ∷ b ∷ [])
unfolding urlsafe_b64encode feed emit
decode_two a b ha hb = ground (
  arith,
  two_symbols a b 0 (symbol (b % 16 * 4) ∷ b'=' ∷ []) ha hb (omega arith),
  decode_symbol (third (b / 16)) 0 (b % 16 * 4) (b'=' ∷ []) (omega arith),
  one_pad 0,
)

decode_nil : decode_from first 0 [] ≡ some []
unfolding decode_from
decode_nil = refl

-- `urlsafe_b64decode` undoes `urlsafe_b64encode`.
pub decode-encode :
    (bs : List ℕ) → All (λ b. b < 256) bs → urlsafe_b64decode (urlsafe_b64encode bs) ≡ some bs
unfolding urlsafe_b64decode urlsafe_b64encode
decode-encode [] h = decode_nil
decode-encode (a ∷ []) h = decode_one a h.0
decode-encode (a ∷ b ∷ []) h = decode_two a b h.0 h.1.0
decode-encode (a ∷ b ∷ c ∷ rest) h =
    let tail = symbol (c % 64) ∷ urlsafe_b64encode rest in
    ground (
      arith,
      two_symbols a b c (symbol (b % 16 * 4 + c / 64) ∷ tail) h.0 h.1.0 h.1.1.0,
      third_symbol a b c tail h.0 h.1.0 h.1.1.0,
      fourth_symbol a b c (urlsafe_b64encode rest) h.0 h.1.0 h.1.1.0,
      decode-encode rest h.1.1.1,
    )

pub encode-ne-nil : (bs : List ℕ) → bs ≢ [] → urlsafe_b64encode bs ≢ []
unfolding urlsafe_b64encode
encode-ne-nil [] ne = ne
encode-ne-nil (a ∷ []) ne = ground arith
encode-ne-nil (a ∷ b ∷ []) ne = ground arith
encode-ne-nil (a ∷ b ∷ c ∷ rest) ne = ground arith
