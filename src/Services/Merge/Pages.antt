-- ===== src/Services/Merge/Pages.antt =====
-- Pages of app/services/aggregation.py and app/services/hotel_aggregation.py, one after another.
use smart_travel_aggregator.Prelude.{
  ℕ, zero, suc, ◌+◌, ◌≤◌, ◌<◌, ◌≡◌, refl, sym, inl, inr, true, false, Option, none, some, List, [],
  ◌∷◌, ◌++◌, arith, Bool-cases, nat_eq, list_eq, length, take, drop, length-drop, take-append-drop,
}
use smart_travel_aggregator.Prelude.Text.{Text}
use smart_travel_aggregator.Services.Pagination.{encode_cursor, decode_cursor}
use smart_travel_aggregator.Services.Pagination.RoundTrip.{decode_cursor-encode_cursor}
use mathlib.Core.List.{append-nil}
use smart_travel_aggregator.Services.Merge.{page, has_more, next_cursor}

module _ {A : Type 0} where
  -- A client that asks for pages until there is no further cursor, at most `fuel` of them.
  unfoldable pub crawl : ℕ → List A → ℕ → Option Text → List A
  crawl zero ordered limit cursor = []
  crawl (suc fuel) ordered limit cursor =
      let offset = decode_cursor cursor in
      page ordered offset limit ++ elim (next_cursor ordered offset limit) [
        | none ↦ []
        | some c ↦ crawl fuel ordered limit (some c)
      ]

  drop-nil : (n : ℕ) → drop {A = A} n [] ≡ []
  drop-nil zero = refl
  drop-nil (suc n) = refl

  drop-drop : (m n : ℕ) (xs : List A) → drop n (drop m xs) ≡ drop (m + n) xs
  drop-drop zero n xs = let e : 0 + n ≡ n = omega arith in rw e
  drop-drop (suc m) n [] = rw (drop-nil n, drop-nil (suc m + n))
  drop-drop (suc m) n (x ∷ xs) =
      let e : suc m + n ≡ suc (m + n) = omega arith in rw e (drop-drop m n xs)

  drop_of_length-le : (n : ℕ) (xs : List A) → length xs ≤ n → drop n xs ≡ []
  drop_of_length-le n [] h = drop-nil n
  drop_of_length-le zero (x ∷ xs) h = absurd (omega arith)
  drop_of_length-le (suc n) (x ∷ xs) h = drop_of_length-le n xs (omega arith)

  take_of_length-le : (n : ℕ) (xs : List A) → length xs ≤ n → take n xs ≡ xs
  take_of_length-le zero xs h = sym (drop_of_length-le 0 xs h)
  take_of_length-le (suc n) [] h = refl
  take_of_length-le (suc n) (x ∷ xs) h = ground (arith, take_of_length-le n xs)

  next_more :
      (ordered : List A) (offset limit : ℕ)
      → has_more ordered offset limit ≡ true
      → next_cursor ordered offset limit ≡ some (encode_cursor (offset + limit))
  unfolding next_cursor
  next_more ordered offset limit h = ground arith

  next_done :
      (ordered : List A) (offset limit : ℕ)
      → has_more ordered offset limit ≡ false
      → next_cursor ordered offset limit ≡ none
  unfolding next_cursor
  next_done ordered offset limit h = ground arith

  last_page :
      (ordered : List A) (offset limit : ℕ)
      → has_more ordered offset limit ≡ false
      → length (drop offset ordered) ≤ limit
  unfolding has_more
  last_page ordered offset limit h = ground (arith, length-drop offset ordered)

  -- The pages from a cursor on make up the list from its offset on: none overlaps another, and
  -- nothing is left out. One page for each element is enough.
  pub crawl-drop :
      (fuel : ℕ) (ordered : List A) (limit : ℕ) (cursor : Option Text)
      → 0 < limit
      → length ordered ≤ decode_cursor cursor + fuel
      → crawl fuel ordered limit cursor ≡ drop (decode_cursor cursor) ordered
  unfolding crawl page
  crawl-drop zero ordered limit cursor pos h =
      sym (drop_of_length-le (decode_cursor cursor) ordered (omega arith))
  crawl-drop (suc fuel) ordered limit cursor pos h =
      let offset = decode_cursor cursor in
      elim (Bool-cases (has_more ordered offset limit)) [
        | inl more ↦ rw (next_more ordered offset limit more) (
            rw
              (
                crawl-drop fuel ordered limit (some (encode_cursor (offset + limit))) pos
                    (omega (arith, decode_cursor-encode_cursor (offset + limit))),
                decode_cursor-encode_cursor (offset + limit),
                ← drop-drop offset limit ordered,
              )
              (take-append-drop limit (drop offset ordered)))
        | inr done ↦ rw (next_done ordered offset limit done) (
            rw append-nil
              (take_of_length-le limit (drop offset ordered) (last_page ordered offset limit done)))
      ]
