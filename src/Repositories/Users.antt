-- ===== src/Repositories/Users.antt =====
-- app/repositories/users.py, over the rows of `User` in app/db/models.py. A session has one object for
-- each row, so a change of a user is a change of the row with its id.
pub mod Rows
use smart_travel_aggregator.Prelude.{
  ℕ, ◌≡◌, refl, sym, subst, ◌≢◌, inl, inr, Bool, true, false, Option, none, some, List, [], ◌∷◌,
  ◌++◌, arith, eqb, if◌then◌else◌, Bool-cases, is_some, ◌==◌, ==_refl, nat_eq, list_eq, any, All,
  All-append, All-both,
}
use smart_travel_aggregator.Prelude.Text.{Text, lower, text_eq_iff, lower-lower}

pub data UserRole : Type 0 where
  user admin : UserRole

pub record User : Type 0 where
  pub id : ℕ
  pub email : Text
  pub hashed_password : Text
  pub full_name : Option Text
  pub role : UserRole
  pub is_active : Bool
  pub is_verified : Bool

-- The first row that passes a test: the queries are for a key or a unique column.
abbrev pub first_row : {A : Type 0} → (A → Bool) → List A → Option A
first_row p [] = none
first_row p (row ∷ rows) = if p row then some row else first_row p rows

unfoldable pub get_by_id : List User → ℕ → Option User
get_by_id users user_id = first_row (λ u. eqb u.id user_id) users

unfoldable pub get_by_email : List User → Text → Option User
get_by_email users email = first_row (λ u. u.email == lower email) users

unfoldable pub exists_by_email : List User → Text → Bool
exists_by_email users email = any (λ u. u.email == lower email) users

-- `User(...)` with the defaults of its columns.
abbrev pub new_user : ℕ → Text → Text → Option Text → UserRole → User
new_user id email hashed_password full_name role = record {
  id = id;
  email = lower email;
  hashed_password = hashed_password;
  full_name = full_name;
  role = role;
  is_active = true;
  is_verified = false;
}

-- `create`, whose row is given its id by the database. `none` is the `IntegrityError` for an address
-- that is there already: the column is unique.
unfoldable pub create :
    List User → ℕ → Text → Text → Option Text → UserRole → Option (List User × User)
create users id email hashed_password full_name role =
    let created = new_user id email hashed_password full_name role in
    if any (λ u. u.email == lower email) users then none else some (users ++ created ∷ [], created)

-- The rows after `change` of the object with an id.
unfoldable pub update : (User → User) → ℕ → List User → List User
update change id [] = []
update change id (u ∷ users) =
    if eqb u.id id then change u ∷ update change id users else u ∷ update change id users

unfoldable pub update_password : List User → User → Text → List User
unfolding update
update_password users u hashed_password =
    update (λ row. record row { hashed_password = hashed_password }) u.id users

unfoldable pub mark_verified : List User → User → List User
unfolding update
mark_verified users u = update (λ row. record row { is_verified = true }) u.id users

-- No two rows share an address or an id, and every address is in lower case.
abbrev pub IsTable : List User → Type 0
IsTable [] = Unit
IsTable (u ∷ users) =
    (lower u.email ≡ u.email) × All (λ v. (u.email ≢ v.email) × (u.id ≢ v.id)) users × IsTable users

-- What `exists_by_email` says is what `get_by_email` finds.
pub exists_lem :
    (users : List User) (email : Text)
    → exists_by_email users email ≡ is_some (get_by_email users email)
unfolding exists_by_email get_by_email
exists_lem [] email = refl
exists_lem (u ∷ users) email = ground (arith, exists_lem users email)

abbrev pub map_row : (User → User) → Option User → Option User
map_row change none = none
map_row change (some u) = some (change u)

pub get_by_id-update :
    (change : User → User) (users : List User) (id q : ℕ)
    → ((u : User) → (change u).id ≡ u.id)
    → get_by_id (update change id users) q
      ≡ (if eqb id q then map_row change (get_by_id users q) else get_by_id users q)
unfolding get_by_id update
get_by_id-update change [] id q keeps = ground arith
get_by_id-update change (u ∷ users) id q keeps =
    ground (arith, keeps u, get_by_id-update change users id q keeps)

pub get_by_email-update :
    (change : User → User) (users : List User) (id : ℕ) (email : Text)
    → ((u : User) → (change u).email ≡ u.email)
    → get_by_email (update change id users) email
      ≡ map_row (λ u. if eqb u.id id then change u else u) (get_by_email users email)
unfolding get_by_email update
get_by_email-update change [] id email keeps = refl
get_by_email-update change (u ∷ users) id email keeps =
    ground (arith, keeps u, get_by_email-update change users id email keeps)

first_row-append :
    {A : Type 0} (p : A → Bool) (rows : List A) (row : A)
    → any p rows ≡ false
    → p row ≡ true
    → first_row p (rows ++ row ∷ []) ≡ some row
first_row-append p [] row none_passes passes = ground arith
first_row-append p (r ∷ rows) row none_passes passes = ground (arith, first_row-append p rows row)

-- A new row is found under its address.
pub get_by_email-create :
    (users : List User) (id : ℕ) (email hashed : Text) (name : Option Text) (role : UserRole)
    (after : List User) (created : User)
    → create users id email hashed name role ≡ some (after, created)
    → (get_by_email after email ≡ some created) × (created ≡ new_user id email hashed name role)
unfolding create get_by_email
get_by_email-create users id email hashed name role after created h =
    elim (Bool-cases (any (λ u. u.email == lower email) users)) [
      | inl taken ↦ absurd (ground arith)
      | inr free ↦
          let new = new_user id email hashed name role in
          let e : users ++ new ∷ [] ≡ after = ground arith in
          let f : new ≡ created = ground arith in
          (
            rw (← e, ← f)
                (first_row-append (λ u. u.email == lower email) users new free
                  (==_refl (lower email))),
            sym f,
          )
    ]

pub IsTable-append :
    (users : List User) (new : User)
    → IsTable users
    → lower new.email ≡ new.email
    → All (λ u. (u.email ≢ new.email) × (u.id ≢ new.id)) users
    → IsTable (users ++ new ∷ [])
IsTable-append [] new t low fresh = (low, tt, tt)
IsTable-append (u ∷ users) new t low fresh =
    (t.0, All-append _ users (new ∷ []) t.1 (fresh.0, tt), IsTable-append users new t.2 low fresh.1)

absent_email :
    (users : List User) (email : Text)
    → any (λ u. u.email == lower email) users ≡ false
    → All (λ u. u.email ≢ lower email) users
absent_email [] email h = tt
absent_email (u ∷ users) email h = (
  λ p. ground (arith, text_eq_iff u.email (lower email)),
  absent_email users email (ground arith),
)

-- Creating a user with a new id keeps the table well formed, whatever the case of the address: no
-- two rows share an address or an id, and every address is in lower case.
pub create-IsTable :
    (users : List User) (id : ℕ) (email hashed : Text) (name : Option Text) (role : UserRole)
    (after : List User) (created : User)
    → IsTable users
    → All (λ u. u.id ≢ id) users
    → create users id email hashed name role ≡ some (after, created)
    → IsTable after
unfolding create
create-IsTable users id email hashed name role after created t fresh h =
    elim (Bool-cases (any (λ u. u.email == lower email) users)) [
      | inl taken ↦ absurd (ground arith)
      | inr free ↦
          let created = new_user id email hashed name role in
          let e : users ++ created ∷ [] ≡ after = ground arith in
          subst IsTable e (
            IsTable-append users created t (lower-lower email)
              (All-both _ _ users (absent_email users email free) fresh))
    ]
