-- ===== src/Repositories/Users/Rows.antt =====
-- Rows of the table users of app/repositories/users.py that are found by their key.
use smart_travel_aggregator.Prelude.{
  ℕ, ◌≡◌, subst, ◌≢◌, inl, inr, Bool, Option, some, List, [], ◌∷◌, ◌++◌, arith, Bool-cases, ◌==◌,
  nat_eq, list_eq, any, All, All-imp,
}
use smart_travel_aggregator.Prelude.Text.{Text, lower}
use smart_travel_aggregator.Repositories.Users.{
  User, UserRole, first_row, get_by_id, get_by_email, create, new_user, IsTable,
}

first_row-All :
    {A : Type 0} (P : A → Type 0) (test : A → Bool) (rows : List A) (row : A)
    → All P rows
    → first_row test rows ≡ some row
    → P row
first_row-All P test [] row h found = absurd (ground arith)
first_row-All P test (r ∷ rows) row h found = elim (Bool-cases (test r)) [
  | inl here ↦ subst P (ground (arith, here)) h.0
  | inr there ↦ first_row-All P test rows row h.1 (ground (arith, there))
]

-- What an address finds, its id finds.
pub get_by_id-get_by_email :
    (users : List User) (email : Text) (u : User)
    → IsTable users
    → get_by_email users email ≡ some u
    → get_by_id users u.id ≡ some u
unfolding get_by_id get_by_email
get_by_id-get_by_email [] email u t found = absurd (ground arith)
get_by_id-get_by_email (v ∷ users) email u t found = elim (Bool-cases (v.email == lower email)) [
  | inl here ↦
      let same : v ≡ u = ground (arith, here) in
      subst (λ x. get_by_id (v ∷ users) x.id ≡ some x) same (ground arith)
  | inr there ↦
      let rest : get_by_email users email ≡ some u = ground (arith, there) in
      ground (
        arith,
        first_row-All (λ x. v.id ≢ x.id) (λ x. x.email == lower email) users u
            (All-imp (λ x h. h.1) users t.1) rest,
        get_by_id-get_by_email users email u t.2 rest,
      )
]

get_by_id-append :
    (users : List User) (new : User)
    → All (λ u. u.id ≢ new.id) users
    → get_by_id (users ++ new ∷ []) new.id ≡ some new
unfolding get_by_id
get_by_id-append [] new fresh = ground arith
get_by_id-append (u ∷ users) new fresh = ground (arith, fresh.0, get_by_id-append users new fresh.1)

-- A new row with a new id is found by its id.
pub get_by_id-create :
    (users : List User) (id : ℕ) (email hashed : Text) (name : Option Text) (role : UserRole)
    (after : List User) (created : User)
    → All (λ u. u.id ≢ id) users
    → create users id email hashed name role ≡ some (after, created)
    → get_by_id after id ≡ some created
unfolding create
get_by_id-create users id email hashed name role after created fresh h =
    elim (Bool-cases (any (λ u. u.email == lower email) users)) [
      | inl taken ↦ absurd (ground arith)
      | inr free ↦
          let new = new_user id email hashed name role in
          let e : users ++ new ∷ [] ≡ after = ground arith in
          let f : new ≡ created = ground arith in rw (← e, ← f) (get_by_id-append users new fresh)
    ]
