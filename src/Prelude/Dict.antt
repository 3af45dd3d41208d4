-- ===== src/Prelude/Dict.antt =====
-- A Python dictionary as the list of its items in insertion order. Assigning to a key that is there
-- keeps its place, and a key stands once in every dictionary built by `set` and `del`.
use smart_travel_aggregator.Prelude.{
  ◌≡◌, refl, inl, inr, Bool, Option, none, some, List, [], ◌∷◌, map, arith, if◌then◌else◌,
  Bool-cases, Eq, ◌==◌, nat_eq, list_eq,
}

abbrev pub Dict {ℓ κ} : Type ℓ → Type κ → Type (ℓ ⊔ κ)
Dict K V = List (K × V)

abbrev pub keep_if {κ} : {V : Type κ} → (V → Bool) → Option V → Option V
keep_if p none = none
keep_if p (some v) = if p v then some v else none

module _ {ℓ κ} {K : Type ℓ} {V : Type κ} where
  -- `list(d.values())`
  abbrev pub values : Dict K V → List V
  values d = map (λ e. e.1) d

module _ {ℓ κ} {K : Type ℓ} {V : Type κ} ⦃e : Eq K⦄ where
  -- `d.get(k)`
  unfoldable pub get : Dict K V → K → Option V
  get [] k = none
  get ((j, v) ∷ d) k = if j == k then some v else get d k

  -- `d[k] = v`
  unfoldable pub set : Dict K V → K → V → Dict K V
  set [] k v = (k, v) ∷ []
  set ((j, w) ∷ d) k v = if j == k then (j, v) ∷ d else (j, w) ∷ set d k v

  -- `d.pop(k, None)`, `del d[k]`
  unfoldable pub del : Dict K V → K → Dict K V
  del [] k = []
  del ((j, w) ∷ d) k = if j == k then del d k else (j, w) ∷ del d k

  pub get-set :
      (d : Dict K V) (k : K) (v : V) (q : K)
      → get (set d k v) q ≡ (if k == q then some v else get d q)
  unfolding get set
  get-set [] k v q = refl
  get-set ((j, w) ∷ d) k v q =
      ground (arith, e.beq_iff j k, e.beq_iff k q, e.beq_iff j q, get-set d k v q)

  pub get-del : (d : Dict K V) (k q : K) → get (del d k) q ≡ (if k == q then none else get d q)
  unfolding get del
  get-del [] k q = ground arith
  get-del ((j, w) ∷ d) k q =
      ground (arith, e.beq_iff j k, e.beq_iff k q, e.beq_iff j q, get-del d k q)

  -- Every key stands once, as in any dictionary.
  abbrev pub IsUnique : Dict K V → Type κ
  IsUnique [] = Unit
  IsUnique ((k, v) ∷ d) = (get d k ≡ none) × IsUnique d

  -- Deletes the keys whose values fail a test.
  unfoldable pub prune : (V → Bool) → Dict K V → Dict K V
  prune p [] = []
  prune p ((k, v) ∷ d) = if p v then (k, v) ∷ prune p d else prune p d

  get-prune-none : (p : V → Bool) (d : Dict K V) (q : K) → get d q ≡ none → get (prune p d) q ≡ none
  unfolding get prune
  get-prune-none p [] q h = refl
  get-prune-none p ((k, v) ∷ d) q h = ground (arith, get-prune-none p d q)

  pub get-prune :
      (p : V → Bool) (d : Dict K V) (q : K) → IsUnique d → get (prune p d) q ≡ keep_if p (get d q)
  unfolding get prune
  get-prune p [] q u = refl
  get-prune p ((k, v) ∷ d) q u =
      ground (arith, e.beq_iff k q, get-prune p d q u.1, get-prune-none p d k u.0)

  pub prune-IsUnique : (p : V → Bool) (d : Dict K V) → IsUnique d → IsUnique (prune p d)
  unfolding prune
  prune-IsUnique p [] u = tt
  prune-IsUnique p ((k, v) ∷ d) u = elim (Bool-cases (p v)) [
    | inl h ↦ rw h (get-prune-none p d k u.0, prune-IsUnique p d u.1)
    | inr h ↦ rw h (prune-IsUnique p d u.1)
  ]

  pub set-IsUnique : (d : Dict K V) (k : K) (v : V) → IsUnique d → IsUnique (set d k v)
  unfolding set get
  set-IsUnique [] k v u = (refl, tt)
  set-IsUnique ((j, w) ∷ d) k v u = elim (Bool-cases (j == k)) [
    | inl h ↦ rw h u
    | inr h ↦
        rw h (ground (arith, get-set d k v j, e.beq_iff j k, e.beq_iff k j), set-IsUnique d k v u.1)
  ]
