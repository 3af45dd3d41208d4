-- ===== src/Prelude/Sorting.antt =====
-- `sorted`: the stable sort by a test `le`. The result is the ascending rearrangement of the input
-- that keeps equal elements in their order.
use mathlib.Core.List.{Mem, mem-cons, not-mem-nil, Perm}
use mathlib.Core.Logic.Or
use mathlib.Core.Bool.{Bool-set}
use mathlib.Core.List.Perm
use smart_travel_aggregator.Prelude.{
  suc, ◌≡◌, refl, ap, ◌∙◌, ◌⊎◌, inl, inr, Bool, true, List, [], ◌∷◌, arith, if◌then◌else◌,
  Bool-cases, nat_eq, list_eq, length, filter, All, All-imp,
}

-- `le` orders all elements, ties allowed.
pub record IsOrder {ℓ} {A : Type ℓ} (le : A → A → Bool) : Type ℓ where
  pub total : (a b : A) → (le a b ≡ true) ⊎ (le b a ≡ true)
  pub trans : (a b c : A) → le a b ≡ true → le b c ≡ true → le a c ≡ true

module _ {ℓ} {A : Type ℓ} (le : A → A → Bool) where
  insert : A → List A → List A
  insert x [] = x ∷ []
  insert x (y ∷ ys) = if le x y then x ∷ y ∷ ys else y ∷ insert x ys

  unfoldable pub sorted : List A → List A
  unfolding insert
  sorted [] = []
  sorted (x ∷ xs) = insert x (sorted xs)

  abbrev pub IsSorted : List A → Type 0
  IsSorted [] = Unit
  IsSorted (x ∷ xs) = All (λ y. le x y ≡ true) xs × IsSorted xs

  insert-perm : (x : A) (xs : List A) → Perm (insert x xs) (x ∷ xs)
  unfolding insert
  insert-perm x [] = Perm.rfl
  insert-perm x (y ∷ ys) = elim (Bool-cases (le x y)) [
    | inl h ↦ rw h Perm.rfl
    | inr h ↦ rw h (Perm.trans (Perm.cons y (insert-perm x ys)) (Perm.swap x y ys))
  ]

  pub sorted-perm : (xs : List A) → Perm (sorted xs) xs
  unfolding sorted
  sorted-perm [] = Perm.rfl
  sorted-perm (x ∷ xs) = Perm.trans (insert-perm x (sorted xs)) (Perm.cons x (sorted-perm xs))

  All-insert {κ} : (P : A → Type κ) (x : A) (xs : List A) → P x → All P xs → All P (insert x xs)
  unfolding insert
  All-insert P x [] p h = (p, tt)
  All-insert P x (y ∷ ys) p h = elim (Bool-cases (le x y)) [
    | inl b ↦ rw b (p, h)
    | inr b ↦ rw b (h.0, All-insert P x ys p h.1)
  ]

  pub All-sorted {κ} : (P : A → Type κ) (xs : List A) → All P xs → All P (sorted xs)
  unfolding sorted
  All-sorted P [] h = tt
  All-sorted P (x ∷ xs) h = All-insert P x (sorted xs) h.0 (All-sorted P xs h.1)

  All-of_insert {κ} : (P : A → Type κ) (x : A) (xs : List A) → All P (insert x xs) → P x × All P xs
  unfolding insert
  All-of_insert P x [] h = h
  All-of_insert P x (y ∷ ys) h = elim (Bool-cases (le x y)) [
    | inl b ↦ rw b at h
    | inr b ↦
        let k : All P (y ∷ insert x ys) = rw b at h in
        let (px, rest) = All-of_insert P x ys k.1 in (px, (k.0, rest))
  ]

  pub All-of_sorted {κ} : (P : A → Type κ) (xs : List A) → All P (sorted xs) → All P xs
  unfolding sorted
  All-of_sorted P [] h = tt
  All-of_sorted P (x ∷ xs) h =
      let (px, rest) = All-of_insert P x (sorted xs) h in (px, All-of_sorted P xs rest)

  length-insert : (x : A) (xs : List A) → length (insert x xs) ≡ suc (length xs)
  unfolding insert
  length-insert x [] = refl
  length-insert x (y ∷ ys) = ground (arith, length-insert x ys)

  pub length-sorted : (xs : List A) → length (sorted xs) ≡ length xs
  unfolding sorted
  length-sorted [] = refl
  length-sorted (x ∷ xs) = omega (arith, length-insert x (sorted xs), length-sorted xs)

  module _ (o : IsOrder le) where
    insert-IsSorted : (x : A) (xs : List A) → IsSorted xs → IsSorted (insert x xs)
    unfolding insert
    insert-IsSorted x [] s = (tt, tt)
    insert-IsSorted x (y ∷ ys) s = elim (Bool-cases (le x y)) [
      | inl h ↦ rw h ((h, All-imp (λ z. o.trans x y z h) ys s.0), s)
      | inr h ↦ rw h (
        All-insert (λ z. le y z ≡ true) x ys (ground (arith, o.total x y)) s.0,
        insert-IsSorted x ys s.1,
      )
    ]

    pub sorted-IsSorted : (xs : List A) → IsSorted (sorted xs)
    unfolding sorted
    sorted-IsSorted [] = tt
    sorted-IsSorted (x ∷ xs) = insert-IsSorted x (sorted xs) (sorted-IsSorted xs)

  -- Elements that a test singles out, and that tie with one another, keep their order.
  module _ (p : A → Bool) (ties : (a b : A) → p a ≡ true → p b ≡ true → le a b ≡ true) where
    filter-insert : (x : A) (xs : List A) → filter p (insert x xs) ≡ filter p (x ∷ xs)
    unfolding insert
    filter-insert x [] = refl
    filter-insert x (y ∷ ys) = ground (arith, ties x y, filter-insert x ys)

    pub filter-sorted : (xs : List A) → filter p (sorted xs) ≡ filter p xs
    unfolding sorted
    filter-sorted [] = refl
    filter-sorted (x ∷ xs) = ground (arith, filter-insert x (sorted xs), filter-sorted xs)

-- What a test finds of all elements it finds of each.
pub test_of_Mem {ℓ} :
    {A : Type ℓ} (p : A → Bool) (x : A) (xs : List A)
    → All (λ y. p y ≡ true) xs
    → Mem x xs
    → p x ≡ true
test_of_Mem p x [] h m = absurd (not-mem-nil m)
test_of_Mem p x (y ∷ ys) h m =
    Or.elim (Bool-set (p x) true) (mem-cons.0 m) (λ e. ap p e ∙ h.0) (λ n. test_of_Mem p x ys h.1 n)
