-- ===== src/Api/Admin/Popular.antt =====
-- Which routes the metrics of app/api/v1/admin.py show.
use smart_travel_aggregator.Prelude.{
  ℕ, zero, suc, ◌≤◌, ◌<◌, ◌≡◌, refl, sym, ap, ◌∙◌, subst, ◌⊎◌, inl, inr, Bool, true, Option, none,
  some, List, [], ◌∷◌, arith, if◌then◌else◌, leb→le, Bool-cases, Eq, ◌==◌, ==_refl, nat_eq, list_eq,
  length, take, any, All, length-take, All-imp, All-both,
}
use smart_travel_aggregator.Prelude.Dict.{Dict}
use smart_travel_aggregator.Prelude.Dict
use smart_travel_aggregator.Prelude.Sorting.{
  sorted, IsSorted, IsOrder, sorted-IsSorted, All-sorted, All-of_sorted,
}
use smart_travel_aggregator.Api.Flights.{SearchHistory}
use smart_travel_aggregator.Api.Admin.{
  SearchRoute, search_route_eq, route_of, or_zero, group_by_route, is_no_less, popular,
}

-- How many searches of the history are for a route.
abbrev pub searches_of : SearchRoute → List SearchHistory → ℕ
searches_of route [] = 0
searches_of route (row ∷ rows) =
    if route_of row == route then suc (searches_of route rows) else searches_of route rows

-- A count as `GROUP BY` has it: no row without a search.
abbrev counted : ℕ → Option ℕ
counted zero = none
counted (suc n) = some (suc n)

or_zero-counted : (n : ℕ) → or_zero (counted n) ≡ n
or_zero-counted zero = refl
or_zero-counted (suc n) = refl

counted_pos : (n : ℕ) → 0 < n → counted n ≡ some n
counted_pos zero h = absurd (omega (arith, h))
counted_pos (suc n) h = refl

counted_some : (m n : ℕ) → counted m ≡ some n → n ≡ m
counted_some zero n h = absurd (ground arith)
counted_some (suc m) n h = ground arith

get-group_by_route :
    (history : List SearchHistory) (route : SearchRoute)
    → Dict.get (group_by_route history) route ≡ counted (searches_of route history)
unfolding group_by_route Dict.get
get-group_by_route [] route = refl
get-group_by_route (row ∷ rows) route =
    let counts = group_by_route rows in
    let again : or_zero (Dict.get counts route) ≡ searches_of route rows =
      ap or_zero (get-group_by_route rows route) ∙ or_zero-counted (searches_of route rows) in
    Dict.get-set counts (route_of row) (suc (or_zero (Dict.get counts (route_of row)))) route
    ∙ elim (Bool-cases (route_of row == route)) [
      | inl same ↦
          let is : route_of row ≡ route = (search_route_eq.beq_iff (route_of row) route).0 same in
          rw same (ap (λ n. some (suc n)) (ap (λ k. or_zero (Dict.get counts k)) is ∙ again))
      | inr other ↦ rw other (get-group_by_route rows route)
    ]

group_by_route-IsUnique : (history : List SearchHistory) → Dict.IsUnique (group_by_route history)
unfolding group_by_route
group_by_route-IsUnique [] = tt
group_by_route-IsUnique (row ∷ rows) =
    Dict.set-IsUnique (group_by_route rows) (route_of row) _ (group_by_route-IsUnique rows)

module _ {K V : Type 0} ⦃e : Eq K⦄ where
  -- Every entry is found under its key, and what is found is an entry.
  All-get : (d : Dict K V) → Dict.IsUnique d → All (λ x. Dict.get d x.0 ≡ some x.1) d
  unfolding Dict.get
  All-get [] u = tt
  All-get ((k, v) ∷ d) u = (
    rw (==_refl k) refl,
    All-imp
        (λ x h. elim (Bool-cases (k == x.0)) [
          | inl same ↦ absurd (ground (arith, u.0, h, ap (Dict.get d) ((e.beq_iff k x.0).0 same)))
          | inr other ↦ rw other h
        ])
        d (All-get d u.1),
  )

  get-All :
      (P : K × V → Type 0) (d : Dict K V) (k : K) (v : V)
      → All P d
      → Dict.get d k ≡ some v
      → P (k, v)
  unfolding Dict.get
  get-All P [] k v h found = absurd (ground arith)
  get-All P ((j, w) ∷ d) k v h found = elim (Bool-cases (j == k)) [
    | inl same ↦
        let key : j ≡ k = (e.beq_iff j k).0 same in
        let held : w ≡ v = ground (arith, found, same) in
        subst P (ap (λ x. (x, w)) key ∙ ap (λ y. (k, y)) held) h.0
    | inr other ↦ get-All P d k v h.1 (ground (arith, found, other))
  ]

-- Whether a list has an entry for a route.
abbrev pub is_listed : List (SearchRoute × ℕ) → SearchRoute → Bool
is_listed entries route = any (λ entry. entry.0 == route) entries

is_no_less-IsOrder : IsOrder is_no_less
is_no_less-IsOrder = record { total = λ a b. ground arith; trans = λ a b c h k. ground arith }

All-take {κ} : {A : Type 0} (P : A → Type κ) (n : ℕ) (xs : List A) → All P xs → All P (take n xs)
All-take P zero xs h = tt
All-take P (suc n) [] h = tt
All-take P (suc n) (x ∷ xs) h = (h.0, All-take P n xs h.1)

take-IsSorted :
    (n : ℕ) (s : List (SearchRoute × ℕ)) → IsSorted is_no_less s → IsSorted is_no_less (take n s)
take-IsSorted zero s sorts = tt
take-IsSorted (suc n) [] sorts = tt
take-IsSorted (suc n) (x ∷ s) sorts =
    (All-take (λ y. is_no_less x y ≡ true) n s sorts.0, take-IsSorted n s sorts.1)

-- An entry is among the first `n` of a list, or these are `n` and none of them is below it.
abbrev IsBelow : ℕ → List (SearchRoute × ℕ) → SearchRoute × ℕ → Type 0
IsBelow n s x =
    (is_listed (take n s) x.0 ≡ true)
    ⊎ ((length (take n s) ≡ n) × All (λ y. is_no_less y x ≡ true) (take n s))

IsBelow-cons :
    (n : ℕ) (y : SearchRoute × ℕ) (s : List (SearchRoute × ℕ)) (x : SearchRoute × ℕ)
    → is_no_less y x ≡ true
    → IsBelow n s x
    → IsBelow (suc n) (y ∷ s) x
IsBelow-cons n y s x above (inl listed) = inl (ground (arith, listed))
IsBelow-cons n y s x above (inr (size, rest)) = inr (ap suc size, (above, rest))

All-IsBelow : (n : ℕ) (s : List (SearchRoute × ℕ)) → IsSorted is_no_less s → All (IsBelow n s) s
All-IsBelow n [] sorts = tt
All-IsBelow zero (y ∷ s) sorts = (inr (refl, tt), All-imp (λ x h. inr (refl, tt)) s sorts.0)
All-IsBelow (suc n) (y ∷ s) sorts = (
  inl (rw (==_refl y.0) refl),
  All-imp (λ x h. IsBelow-cons n y s x h.0 h.1) s
      (All-both (λ x. is_no_less y x ≡ true) (IsBelow n s) s sorts.0 (All-IsBelow n s sorts.1)),
)

-- The routes shown are at most ten, the most searched first, each with the number of its searches in the
-- history; and a route that was searched is shown, unless ten routes are that were each searched at
-- least as often.
pub popular_lem :
    (history : List SearchHistory)
    → (length (popular history) ≤ 10)
      × IsSorted is_no_less (popular history)
      × All (λ entry. entry.1 ≡ searches_of entry.0 history) (popular history)
      × ((route : SearchRoute)
          → 0 < searches_of route history
          → (is_listed (popular history) route ≡ true)
            ⊎ ((length (popular history) ≡ 10)
                × All (λ entry. searches_of route history ≤ entry.1) (popular history)))
unfolding popular
popular_lem history =
    let counts = group_by_route history in
    let s = sorted is_no_less counts in
    let sorts = sorted-IsSorted is_no_less is_no_less-IsOrder counts in
    let below = All-of_sorted is_no_less (IsBelow 10 s) counts (All-IsBelow 10 s sorts) in
    (
      omega (arith, length-take 10 s),
      take-IsSorted 10 s sorts,
      All-take _ 10 s (
          All-sorted is_no_less (λ x. x.1 ≡ searches_of x.0 history) counts
            (All-imp
              (λ x h.
                counted_some (searches_of x.0 history) x.1
                  (sym (get-group_by_route history x.0) ∙ h))
              counts (All-get counts (group_by_route-IsUnique history)))),
      λ route searched.
          elim (get-All (IsBelow 10 s) counts route (searches_of route history) below
            (get-group_by_route history route ∙ counted_pos (searches_of route history) searched)) [
              | inl listed ↦ inl listed
              | inr (full, above) ↦ inr (
                full,
                All-imp (λ y h. leb→le (searches_of route history) y.1 h) (take 10 s) above,
              )
            ],
    )
