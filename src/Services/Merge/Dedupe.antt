-- ===== src/Services/Merge/Dedupe.antt =====
-- The removal of duplicates in app/services/aggregation.py and app/services/hotel_aggregation.py.
use mathlib.Core.List.{Mem, mem-cons_self, mem-cons_of_mem}
use smart_travel_aggregator.Prelude.{
  ℕ, ◌≤◌, ◌≡◌, refl, ◌≢◌, ◌⊎◌, inl, inr, Option, none, some, List, [], ◌∷◌, arith, ltb,
  if◌then◌else◌, Bool-cases, Eq, ◌==◌, ==_refl, nat_eq, list_eq, All, All-imp, All-both,
}
use smart_travel_aggregator.Prelude.Dict
use smart_travel_aggregator.Prelude.Dict.{Dict, values}
use smart_travel_aggregator.Services.Merge.{dedupe, keep_best, dedupe_from}

module _ {A K : Type 0} ⦃e : Eq K⦄ (key : A → K) (price : A → ℕ) where
  abbrev better : Option A → A → A
  better none offer = offer
  better (some existing) offer = if ltb (price offer) (price existing) then offer else existing

  get-keep_best :
      (best : Dict K A) (offer : A) (k : K)
      → Dict.get (keep_best key price best offer) k
        ≡ (if key offer == k then some (better (Dict.get best k) offer) else Dict.get best k)
  unfolding keep_best
  get-keep_best best offer k =
      ground (arith, Dict.get-set best (key offer) offer k, e.beq_iff (key offer) k)

  -- An offer for the key, no dearer than `p`, is in the dictionary.
  abbrev Holds : Dict K A → K → ℕ → Type 0
  Holds best k p = (r : A) × (Dict.get best k ≡ some r) × (price r ≤ p)

  keep_best-Holds :
      (best : Dict K A) (offer : A) (k : K) (p : ℕ)
      → Holds best k p
      → Holds (keep_best key price best offer) k p
  keep_best-Holds best offer k p (r, found, le) = elim (Bool-cases (key offer == k)) [
    | inl same ↦ (better (some r) offer, rw (get-keep_best, same, found), ground arith)
    | inr other ↦ (r, rw (get-keep_best, other) found, le)
  ]

  keep_best_self :
      (best : Dict K A) (offer : A)
      → Holds (keep_best key price best offer) (key offer) (price offer)
  keep_best_self best offer = (
    better (Dict.get best (key offer)) offer,
    rw (get-keep_best, ==_refl (key offer)),
    ground arith,
  )

  dedupe_from-Holds :
      (found : List A) (best : Dict K A) (k : K) (p : ℕ)
      → Holds best k p
      → Holds (dedupe_from key price best found) k p
  unfolding dedupe_from
  dedupe_from-Holds [] best k p h = h
  dedupe_from-Holds (offer ∷ rest) best k p h =
      dedupe_from-Holds rest (keep_best key price best offer) k p (keep_best-Holds best offer k p h)

  dedupe_from-covers :
      (found : List A) (best : Dict K A)
      → All (λ a. Holds (dedupe_from key price best found) (key a) (price a)) found
  unfolding dedupe_from
  dedupe_from-covers [] best = tt
  dedupe_from-covers (offer ∷ rest) best = (
    dedupe_from-Holds rest (keep_best key price best offer) (key offer) (price offer)
        (keep_best_self best offer),
    dedupe_from-covers rest (keep_best key price best offer),
  )

  -- Every entry of the dictionary stands under its own key, each key once.
  record IsKeyed (best : Dict K A) : Type 0 where
    keyed : All (λ entry. key entry.1 ≡ entry.0) best
    unique : Dict.IsUnique best

  set-keyed :
      (best : Dict K A) (offer : A)
      → All (λ entry. key entry.1 ≡ entry.0) best
      → All (λ entry. key entry.1 ≡ entry.0) (Dict.set best (key offer) offer)
  unfolding Dict.set
  set-keyed [] offer h = (refl, tt)
  set-keyed ((k, v) ∷ best) offer h = elim (Bool-cases (k == key offer)) [
    | inl same ↦ rw same (ground (arith, e.beq_iff k (key offer)), h.1)
    | inr other ↦ rw other (h.0, set-keyed best offer h.1)
  ]

  keep_best_cases :
      (best : Dict K A) (offer : A)
      → (keep_best key price best offer ≡ Dict.set best (key offer) offer)
        ⊎ (keep_best key price best offer ≡ best)
  unfolding keep_best
  keep_best_cases best offer = ground arith

  keep_best-IsKeyed :
      (best : Dict K A) (offer : A) → IsKeyed best → IsKeyed (keep_best key price best offer)
  keep_best-IsKeyed best offer h = elim (keep_best_cases best offer) [
    | inl put ↦ rw put (record {
      keyed = set-keyed best offer h.keyed;
      unique = Dict.set-IsUnique best (key offer) offer h.unique;
    })
    | inr kept ↦ rw kept h
  ]

  dedupe_from-IsKeyed :
      (found : List A) (best : Dict K A) → IsKeyed best → IsKeyed (dedupe_from key price best found)
  unfolding dedupe_from
  dedupe_from-IsKeyed [] best h = h
  dedupe_from-IsKeyed (offer ∷ rest) best h =
      dedupe_from-IsKeyed rest (keep_best key price best offer) (keep_best-IsKeyed best offer h)

  -- What is under a key is among the values, and has that key.
  value_of_get :
      (best : Dict K A) (k : K) (r : A)
      → All (λ entry. key entry.1 ≡ entry.0) best
      → Dict.get best k ≡ some r
      → Mem r (values best) × (key r ≡ k)
  unfolding Dict.get
  value_of_get [] k r h found = cc
  value_of_get ((j, v) ∷ best) k r h found = elim (Bool-cases (j == k)) [
    | inl same ↦
        let here : v ≡ r = ground arith in
        (rw here mem-cons_self, ground (arith, e.beq_iff j k, h.0))
    | inr other ↦
        let (m, named) = value_of_get best k r h.1 (ground arith) in (mem-cons_of_mem v m, named)
  ]

  All-set {κ} :
      (P : A → Type κ) (best : Dict K A) (k : K) (v : A)
      → P v
      → All P (values best)
      → All P (values (Dict.set best k v))
  unfolding Dict.set
  All-set P [] k v p h = (p, tt)
  All-set P ((j, w) ∷ best) k v p h = elim (Bool-cases (j == k)) [
    | inl same ↦ rw same (p, h.1)
    | inr other ↦ rw other (h.0, All-set P best k v p h.1)
  ]

  All-keep_best {κ} :
      (P : A → Type κ) (best : Dict K A) (offer : A)
      → P offer
      → All P (values best)
      → All P (values (keep_best key price best offer))
  All-keep_best P best offer p h = elim (keep_best_cases best offer) [
    | inl put ↦ rw put (All-set P best (key offer) offer p h)
    | inr kept ↦ rw kept h
  ]

  All-dedupe_from {κ} :
      (P : A → Type κ) (found : List A) (best : Dict K A)
      → All P found
      → All P (values best)
      → All P (values (dedupe_from key price best found))
  unfolding dedupe_from
  All-dedupe_from P [] best hf hb = hb
  All-dedupe_from P (offer ∷ rest) best hf hb =
      All-dedupe_from P rest (keep_best key price best offer) hf.1
        (All-keep_best P best offer hf.0 hb)

  -- No key of an entry is that of a later one.
  keys_differ :
      (best : Dict K A) (k : K)
      → Dict.get best k ≡ none
      → All (λ entry. key entry.1 ≡ entry.0) best
      → All (λ v. k ≢ key v) (values best)
  unfolding Dict.get
  keys_differ [] k absent h = tt
  keys_differ ((j, v) ∷ best) k absent h = elim (Bool-cases (j == k)) [
    | inl same ↦ absurd (ground arith)
    | inr other ↦ (λ p. ground (arith, e.beq_iff j k, h.0), keys_differ best k (ground arith) h.1)
  ]

  -- No two elements have the same key.
  abbrev pub HasDistinctKeys : List A → Type 0
  HasDistinctKeys [] = Unit
  HasDistinctKeys (x ∷ xs) = All (λ y. key x ≢ key y) xs × HasDistinctKeys xs

  values-HasDistinctKeys : (best : Dict K A) → IsKeyed best → HasDistinctKeys (values best)
  values-HasDistinctKeys [] h = tt
  values-HasDistinctKeys ((k, v) ∷ best) h = (
    rw (h.keyed.0) (keys_differ best k h.unique.0 h.keyed.1),
    values-HasDistinctKeys best (record { keyed = h.keyed.1; unique = h.unique.1 }),
  )

  All-Mem : (xs : List A) → All (λ x. Mem x xs) xs
  All-Mem [] = tt
  All-Mem (x ∷ xs) = (mem-cons_self, All-imp (λ y m. mem-cons_of_mem x m) xs (All-Mem xs))

  -- The offers that are left: every offer found has one of its key among them that is no dearer,
  -- each of them is an offer that was found, and no two have the same key.
  pub dedupe_lem :
      (found : List A)
      → All
          (λ a. (r : A) × Mem r (dedupe key price found) × (key r ≡ key a) × (price r ≤ price a))
          found
        × All (λ r. Mem r found) (dedupe key price found)
        × HasDistinctKeys (dedupe key price found)
  unfolding dedupe
  dedupe_lem found =
      let start : IsKeyed [] = record { keyed = tt; unique = tt } in
      let k = dedupe_from-IsKeyed found [] start in
      (
        All-imp
            (λ a (r, at, le).
              let (m, named) = value_of_get (dedupe_from key price [] found) (key a) r k.keyed at in
              (r, m, named, le))
            found (dedupe_from-covers found []),
        All-dedupe_from (λ r. Mem r found) found [] (All-Mem found) tt,
        values-HasDistinctKeys (dedupe_from key price [] found) k,
      )

  -- What is left is found under its own key.
  values_get :
      (best : Dict K A) → IsKeyed best → All (λ v. Dict.get best (key v) ≡ some v) (values best)
  unfolding Dict.get
  values_get [] h = tt
  values_get ((k, v) ∷ best) h = (
    ground (arith, h.keyed.0, e.beq_iff k (key v)),
    All-imp (λ w (found, differ). ground (arith, found, differ, e.beq_iff k (key w))) (values best)
        (All-both _ _ (values best)
          (values_get best (record { keyed = h.keyed.1; unique = h.unique.1 }))
          (keys_differ best k h.unique.0 h.keyed.1)),
  )

  -- An offer that is left is no dearer than any offer found with its key.
  pub dedupe_lowest :
      (found : List A)
      → All (λ r. All (λ a. key a ≡ key r → price r ≤ price a) found) (dedupe key price found)
  unfolding dedupe
  dedupe_lowest found =
      let start : IsKeyed [] = record { keyed = tt; unique = tt } in
      let left = dedupe_from key price [] found in
      All-imp
        (λ v at.
          All-imp (λ a (r, there, le) same. ground (arith, at, there, le, same)) found
            (dedupe_from-covers found []))
        (values left) (values_get left (dedupe_from-IsKeyed found [] start))
