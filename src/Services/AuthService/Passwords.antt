-- ===== src/Services/AuthService/Passwords.antt =====
-- Which passwords app/services/auth_service.py accepts.
use smart_travel_aggregator.Prelude.{
  ℕ, ◌+◌, ◌≤◌, ◌<◌, ◌≡◌, refl, ap, ◌≢◌, ◌⊎◌, inl, inr, true, Option, none, some, arith,
  Option-cases, nat_eq, list_eq,
}
use smart_travel_aggregator.Prelude.Text.{Text}
use smart_travel_aggregator.Core.Errors.{Raised}
use smart_travel_aggregator.Core.Security.{
  IsHash, IsJwt, matched, verify_password, reset, create_token, ttl_of, new_claims,
}
use smart_travel_aggregator.Core.Security.Tokens.{decode_token_iff}
use smart_travel_aggregator.Repositories.Users
use smart_travel_aggregator.Repositories.Users.{
  User, get_by_id, get_by_email, exists_by_email, create, update_password, get_by_email-update,
  get_by_email-create, map_row, new_user,
}
use smart_travel_aggregator.Services.AuthService.{
  Packages, World, Moment, Uuids, authenticate, register, send_verification, send, reset_password,
  decode, subject_user,
}

-- The id of the user that a method returns.
abbrev pub id_of : Raised ⊎ User → Option ℕ
id_of (inl e) = none
id_of (inr u) = some u.id

module _ (p : Packages) where
  -- Whoever is authenticated is the user with that address, is active, and has a stored hash that
  -- the password matches.
  pub authenticate_sound :
      (w : World p) (m : Moment) (email password : Text) (u : User)
      → (authenticate p w m email password).0 ≡ inr u
      → (v : User) × (get_by_email w.users email ≡ some v)
        × (p.hasher.verify v.hashed_password password ≡ matched)
        × (v.is_active ≡ true)
        × (u.id ≡ v.id)
  unfolding authenticate verify_password
  authenticate_sound w m email password u h = elim (Option-cases (get_by_email w.users email)) [
    | inl e ↦ absurd (ground (arith, e))
    | inr (v, e) ↦ (v, ground (arith, e), ground (arith, e), ground (arith, e), ground (arith, e))
  ]

  -- A user that is there and active is let in by the password that its hash was made from.
  authenticate_own :
      (hashes : IsHash p.hasher) (w : World p) (m : Moment) (email password : Text) (u : User)
      (salt : ℕ)
      → get_by_email w.users email ≡ some u
      → u.hashed_password ≡ p.hasher.hash salt password
      → u.is_active ≡ true
      → id_of (authenticate p w m email password).0 ≡ some u.id
  unfolding authenticate verify_password
  authenticate_own hashes w m email password u salt found made active =
      ground (arith, found, made, active, hashes.own salt password)

  -- Any other password is refused.
  authenticate_other :
      (hashes : IsHash p.hasher) (w : World p) (m : Moment) (email password guess : Text) (u : User)
      (salt : ℕ)
      → get_by_email w.users email ≡ some u
      → u.hashed_password ≡ p.hasher.hash salt password
      → guess ≢ password
      → id_of (authenticate p w m email guess).0 ≡ none
  unfolding authenticate verify_password
  authenticate_other hashes w m email password guess u salt found made differ =
      ground (arith, found, made, hashes.other salt password guess differ)

  register_lem :
      (w : World p) (m : Moment) (email password : Text) (name : Option Text) (u : User)
      → (register p w m email password name).0 ≡ inr u
      → create w.users m.row_id email (p.hasher.hash m.salt password) name Users.user
        ≡ some ((register p w m email password name).1.users, u)
  unfolding register send_verification send
  register_lem w m email password name u h = ground arith

  -- Who registers can log in with the same address and password, and is that user.
  pub authenticate-register :
      (hashes : IsHash p.hasher) (w : World p) (m later : Moment) (email password : Text)
      (name : Option Text) (u : User)
      → (register p w m email password name).0 ≡ inr u
      → id_of (authenticate p (register p w m email password name).1 later email password).0
        ≡ some u.id
  authenticate-register hashes w m later email password name u h =
      let (found, new) =
        get_by_email-create w.users m.row_id email (p.hasher.hash m.salt password) name Users.user _
          u (register_lem w m email password name u h) in
      authenticate_own hashes (register p w m email password name).1 later email password u m.salt
        found (ap (λ x. x.hashed_password) new) (ap (λ x. x.is_active) new)

  -- `uuid.UUID` reads what `str` writes.
  abbrev pub IsUuids : Uuids → Type 0
  IsUuids uuids = (id : ℕ) → uuids.parse (uuids.str id) ≡ some id

  reset_password_lem :
      (jwts : IsJwt p.jwt) (ids : IsUuids p.uuids) (w : World p) (m : Moment) (u : User)
      (new : Text) (issued : ℕ) (jti : Text)
      → get_by_id w.users u.id ≡ some u
      → u.is_active ≡ true
      → issued ≤ m.now
      → m.now < issued + ttl_of reset p.settings
      → reset_password p w m (create_token p.jwt p.settings reset (p.uuids.str u.id) issued jti) new
        ≡ (inr tt, record w { users = update_password w.users u (p.hasher.hash m.salt new) })
  unfolding reset_password decode subject_user new_claims
  reset_password_lem jwts ids w m u new issued jti found active made alive = ground (
    arith,
    found,
    (decode_token_iff p.jwt jwts p.settings reset (p.uuids.str u.id) issued m.now jti reset).1
        (refl, made, alive),
    ids u.id,
  )

  reset_user :
      (w : World p) (m : Moment) (u : User) (email new : Text)
      → get_by_email w.users email ≡ some u
      → get_by_email (update_password w.users u (p.hasher.hash m.salt new)) email
        ≡ some (record u { hashed_password = p.hasher.hash m.salt new })
  unfolding update_password
  reset_user w m u email new by_email = ground (
    arith,
    by_email,
    get_by_email-update (λ row. record row { hashed_password = p.hasher.hash m.salt new }) w.users
        u.id email (λ row. refl),
  )

  -- A reset token that was not issued later and has not expired, used for an active user, makes the
  -- new password the one that logs the user in: no other password does.
  pub authenticate-reset_password :
      (hashes : IsHash p.hasher) (jwts : IsJwt p.jwt) (ids : IsUuids p.uuids) (w : World p)
      (m later : Moment) (u : User) (email new guess : Text) (issued : ℕ) (jti : Text)
      → get_by_id w.users u.id ≡ some u
      → get_by_email w.users email ≡ some u
      → u.is_active ≡ true
      → issued ≤ m.now
      → m.now < issued + ttl_of reset p.settings
      → guess ≢ new
      → let token = create_token p.jwt p.settings reset (p.uuids.str u.id) issued jti in
        let after = (reset_password p w m token new).1 in
        (id_of (authenticate p after later email new).0 ≡ some u.id)
        × (id_of (authenticate p after later email guess).0 ≡ none)
  authenticate-reset_password hashes jwts ids w m later u email new guess issued jti by_id by_email
        active made alive differ =
      let changed : User = record u { hashed_password = p.hasher.hash m.salt new } in
      let there = reset_user w m u email new by_email in
      rw (reset_password_lem jwts ids w m u new issued jti by_id active made alive) (
        authenticate_own hashes _ later email new changed m.salt there refl active,
        authenticate_other hashes _ later email new guess changed m.salt there refl differ,
      )
