-- ===== src/Prelude/Text.antt =====
-- Text as the list of its code points. Case and character classes are those of ASCII.
use Prim.Native.Char.{code}
use Prim.Native.String.{String}
use mathlib.Core.List.{reverse, reverse-reverse}
use smart_travel_aggregator.Prelude.{
  ℕ, ◌+◌, ◌-◌, ◌≡◌, refl, ◌≢◌, ◌↔◌, Bool, true, false, ◌&&◌, ◌||◌, List, [], ◌∷◌, ◌++◌, map, arith,
  leb, if◌then◌else◌, ◌==◌, ==_refl, nat_eq, list_eq, All, All-reverse,
}

abbrev pub Text : Type 0
Text = List ℕ

-- A literal.
abbrev pub codes : String → Text
codes String.[] = []
codes (String.◌∷◌ c s) = code c ∷ codes s

is_upper_char : ℕ → Bool
is_upper_char c = leb b'A' c && leb c b'Z'

is_lower_char : ℕ → Bool
is_lower_char c = leb b'a' c && leb c b'z'

unfoldable pub lower_char : ℕ → ℕ
unfolding is_upper_char
lower_char c = if is_upper_char c then c + 32 else c

unfoldable pub upper_char : ℕ → ℕ
unfolding is_lower_char
upper_char c = if is_lower_char c then c - 32 else c

-- `s.lower()`, `s.upper()`
unfoldable pub lower : Text → Text
unfolding lower_char
lower s = map lower_char s

unfoldable pub upper : Text → Text
unfolding upper_char
upper s = map upper_char s

pub lower-lower : (s : Text) → lower (lower s) ≡ lower s
unfolding lower
lower-lower [] = refl
lower-lower (c ∷ s) = ground (arith, lower-lower s)

pub upper-upper : (s : Text) → upper (upper s) ≡ upper s
unfolding upper
upper-upper [] = refl
upper-upper (c ∷ s) = ground (arith, upper-upper s)

pub text_eq_iff : (s t : Text) → ((s == t) ≡ true) ↔ (s ≡ t)
text_eq_iff s t = list_eq.beq_iff s t

unfoldable pub is_space : ℕ → Bool
is_space c = leb 9 c && leb c 13 || leb 28 c && leb c 32

unfoldable pub lstrip : Text → Text
unfolding is_space
lstrip [] = []
lstrip (c ∷ s) = if is_space c then lstrip s else c ∷ s

-- `s.strip()`
unfoldable pub strip : Text → Text
unfolding lstrip
strip s = reverse (lstrip (reverse (lstrip s)))

pub lstrip_bare : (s : Text) → All (λ c. is_space c ≡ false) s → lstrip s ≡ s
unfolding lstrip
lstrip_bare [] h = refl
lstrip_bare (c ∷ s) h = ground (arith, h.0)

pub strip_bare : (s : Text) → All (λ c. is_space c ≡ false) s → strip s ≡ s
unfolding strip
strip_bare s h = rw (
  lstrip_bare s h,
  lstrip_bare (reverse s) (All-reverse (λ c. is_space c ≡ false) s h),
  reverse-reverse s,
)

abbrev add_first : ℕ → List Text → List Text
add_first c [] = (c ∷ []) ∷ []
add_first c (part ∷ parts) = (c ∷ part) ∷ parts

-- `s.split(sep)`, for a separator of one character.
unfoldable pub split : ℕ → Text → List Text
split sep [] = [] ∷ []
split sep (c ∷ s) = let parts = split sep s in if c == sep then [] ∷ parts else add_first c parts

add_first-append :
    (c : ℕ) (xs ys : List Text) → xs ≢ [] → add_first c (xs ++ ys) ≡ add_first c xs ++ ys
add_first-append c [] ys h = absurd (h refl)
add_first-append c (x ∷ xs) ys h = refl

split-ne-nil : (sep : ℕ) (s : Text) → split sep s ≢ []
unfolding split
split-ne-nil sep [] h = ground arith
split-ne-nil sep (c ∷ s) h = ground (arith, split-ne-nil sep s)

pub split-append : (sep : ℕ) (s t : Text) → split sep (s ++ sep ∷ t) ≡ split sep s ++ split sep t
unfolding split
split-append sep [] t = ground (arith, ==_refl sep)
split-append sep (c ∷ s) t = ground (
  arith,
  split-append sep s t,
  add_first-append c (split sep s) (split sep t) (split-ne-nil sep s),
)
