-- ===== src/Services/Merge.antt =====
-- What app/services/aggregation.py and app/services/hotel_aggregation.py do alike: the fan-out over
-- the providers, the removal of duplicates, and the cut of one page. Each of the two files has its
-- own copy of this code; `A` is the offer, `Q` the query.
pub mod Dedupe
pub mod Pages
pub mod FanOut
use smart_travel_aggregator.Prelude.{
  ℕ, ◌+◌, Bool, Option, none, some, List, [], ◌∷◌, ◌++◌, map, ltb, if◌then◌else◌, Eq, nat_eq,
  list_eq, length, take, drop,
}
use smart_travel_aggregator.Prelude.Text.{Text}
use smart_travel_aggregator.Prelude.Dict.{Dict, values}
use smart_travel_aggregator.Prelude.Dict
use smart_travel_aggregator.Services.Pagination.{encode_cursor, decode_cursor}

pub record SearchMeta : Type 0 where
  pub degraded : Bool
  pub providers_ok : ℕ
  pub providers_failed : ℕ
  pub total : ℕ

-- What `gather(return_exceptions=True)` has for a provider: its offers, or its exception.
pub data Answer (A : Type 0) : Type 0 where
  offers : List A → Answer A
  exception : Answer A

-- A provider is its answer to a query.
abbrev pub Provider : Type 0 → Type 0 → Type 0
Provider Q A = Q → Answer A

module _ {A : Type 0} where
  -- The loop over the answers, from the offers and the two counts so far.
  unfoldable pub collect : List A → ℕ → ℕ → List (Answer A) → List A × ℕ × ℕ
  collect found ok failed [] = (found, ok, failed)
  collect found ok failed (exception ∷ results) = collect found ok (failed + 1) results
  collect found ok failed (offers result ∷ results) =
      collect (found ++ result) (ok + 1) failed results

  unfoldable pub fan_out : {Q : Type 0} → List (Provider Q A) → Q → List A × ℕ × ℕ
  unfolding collect
  fan_out providers query = collect [] 0 0 (map (λ provider. provider query) providers)

  -- One page: `ordered[offset : offset + limit]`, whether there is more, and its cursor.
  unfoldable pub page : List A → ℕ → ℕ → List A
  page ordered offset limit = take limit (drop offset ordered)

  unfoldable pub has_more : List A → ℕ → ℕ → Bool
  has_more ordered offset limit = ltb (offset + limit) (length ordered)

  unfoldable pub next_cursor : List A → ℕ → ℕ → Option Text
  next_cursor ordered offset limit =
      if has_more ordered offset limit then some (encode_cursor (offset + limit)) else none

module _ {A K : Type 0} ⦃e : Eq K⦄ (key : A → K) (price : A → ℕ) where
  -- The body of the loop: `best` afterwards.
  unfoldable pub keep_best : Dict K A → A → Dict K A
  keep_best best offer = elim (Dict.get best (key offer)) [
    | none ↦ Dict.set best (key offer) offer
    | some existing ↦
        if ltb (price offer) (price existing) then Dict.set best (key offer) offer else best
  ]

  unfoldable pub dedupe_from : Dict K A → List A → Dict K A
  unfolding keep_best
  dedupe_from best [] = best
  dedupe_from best (offer ∷ rest) = dedupe_from (keep_best best offer) rest

  unfoldable pub dedupe : List A → List A
  unfolding dedupe_from
  dedupe found = values (dedupe_from [] found)
