-- ===== src/Api/Auth/Registration.antt =====
-- What a registration stores and mails, and the verification of its address (app/api/v1/auth.py).
use smart_travel_aggregator.Prelude.{
  ◌+◌, ◌≤◌, ◌<◌, ◌≡◌, refl, ◌≢◌, inl, inr, true, false, some, List, [], ◌∷◌, ◌++◌, arith,
  Option-cases, nat_eq, list_eq, All,
}
use smart_travel_aggregator.Prelude.Text.{Text, codes, lower}
use smart_travel_aggregator.Core.ClientIp.{IpAddresses, Request, client_ip}
use smart_travel_aggregator.Core.Security.{IsJwt, verify, create_token, new_claims, ttl_of}
use smart_travel_aggregator.Core.Security.Tokens.{decode_token_iff}
use smart_travel_aggregator.Repositories.Users
use smart_travel_aggregator.Repositories.Users.{
  User, get_by_id, get_by_email, mark_verified, get_by_email-update, get_by_email-create, create,
  new_user, map_row,
}
use smart_travel_aggregator.Repositories.Users.Rows.{get_by_id-create}
use smart_travel_aggregator.Services.AuthService
use smart_travel_aggregator.Services.AuthService.{
  Packages, World, Moment, Mail, authenticate, subject_user, decode, send, send_verification,
}
use smart_travel_aggregator.Services.AuthService.Passwords.{IsUuids}
use smart_travel_aggregator.Api.Auth.{
  State, UserOut, user_out, message_response, entry, served, RegisterRequest, register,
  verify_email,
}

module _ (p : Packages) (m : Moment) where
  abbrev pub new_account : RegisterRequest → User
  new_account body =
      new_user m.row_id body.email (p.hasher.hash m.salt body.password) body.full_name Users.user

  -- The token of the mail that a registration sends.
  abbrev pub verify_token : Text
  verify_token = create_token p.jwt p.settings verify (p.uuids.str m.row_id) m.now m.jti

  abbrev pub verify_mail : RegisterRequest → Mail
  verify_mail body = record {
    to = lower body.email;
    subject = codes "Verify your Smart Travel account";
    body =
        codes "Welcome! Confirm your email to activate your account. Verification token: "
        ++ verify_token;
  }

  verify_email_own :
      (jwts : IsJwt p.jwt) (ids : IsUuids p p.uuids) (s : State p) (later : Moment) (email : Text)
      (u : User)
      → get_by_id s.world.users m.row_id ≡ some u
      → get_by_email s.world.users email ≡ some u
      → u.id ≡ m.row_id
      → u.is_verified ≡ false
      → m.now ≤ later.now
      → later.now < m.now + ttl_of verify p.settings
      → ((served (verify_email p later verify_token) s).0
          ≡ inr (message_response (codes "email verified")))
        × (get_by_email (served (verify_email p later verify_token) s).1.world.users email
            ≡ some (record u { is_verified = true }))
  unfolding served verify_email AuthService.verify_email decode subject_user new_claims
      mark_verified
  verify_email_own jwts ids s later email u by_id by_email same pending goes alive =
      let good =
        (decode_token_iff p.jwt jwts p.settings verify (p.uuids.str m.row_id) m.now later.now m.jti
            verify).1
          (refl, goes, alive) in
      let marked =
        get_by_email-update (λ row. record row { is_verified = true }) s.world.users u.id email
          (λ row. refl) in
      (
        ground (arith, good, ids m.row_id, by_id, pending),
        ground (arith, good, ids m.row_id, by_id, by_email, pending, marked),
      )

  module _ (ips : IpAddresses) (networks : List (IpAddresses.Network ips)) where
    register_lem :
        (s : State p) (body : RegisterRequest) (request : Request) (out : UserOut)
        → (served (register p m ips networks body request) s).0 ≡ inr out
        → let after = (served (register p m ips networks body request) s).1 in
          (create s.world.users m.row_id body.email
              (p.hasher.hash m.salt body.password)
              body.full_name
              Users.user
            ≡ some (after.world.users, new_account body))
          × (out ≡ user_out (new_account body))
          × (after.world.sent ≡ s.world.sent ++ verify_mail body ∷ [])
          × (after.world.revoked ≡ s.world.revoked)
          × (after.audit
              ≡ s.audit
                ++ entry m.now m.row_id (codes "user.register") (client_ip ips networks request)
                  ∷ [])
    unfolding served register AuthService.register send send_verification
    register_lem s body request out h =
        elim (Option-cases (
          create s.world.users m.row_id body.email (p.hasher.hash m.salt body.password)
            body.full_name Users.user)) [
              | inl taken ↦ absurd (ground (arith, taken))
              | inr ((users, u), made) ↦
                  let new =
                    (get_by_email-create s.world.users m.row_id body.email
                      (p.hasher.hash m.salt body.password) body.full_name Users.user users u
                      made).1 in
                  (
                    ground (arith, made, new),
                    ground (arith, made, new),
                    ground (arith, made, new),
                    ground (arith, made, new),
                    ground (arith, made, new),
                  )
            ]

    -- Who registers under a new id is sent one mail, to the address in lower case, with a token that
    -- verifies the account from then until it expires: posting it succeeds, and the user under the
    -- address is then the new one, verified.
    pub verify_email-register :
        (jwts : IsJwt p.jwt) (ids : IsUuids p p.uuids) (s : State p) (later : Moment)
        (body : RegisterRequest) (request : Request) (out : UserOut)
        → All (λ u. u.id ≢ m.row_id) s.world.users
        → (served (register p m ips networks body request) s).0 ≡ inr out
        → m.now ≤ later.now
        → later.now < m.now + ttl_of verify p.settings
        → let after = (served (register p m ips networks body request) s).1 in
          let verified = served (verify_email p later verify_token) after in
          (after.world.sent ≡ s.world.sent ++ verify_mail body ∷ [])
          × (verified.0 ≡ inr (message_response (codes "email verified")))
          × (get_by_email verified.1.world.users body.email
              ≡ some (record (new_account body) { is_verified = true }))
    verify_email-register jwts ids s later body request out fresh h goes alive =
        let after = (served (register p m ips networks body request) s).1 in
        let hashed = p.hasher.hash m.salt body.password in
        let (made, answer, sent, kept, audit) = register_lem s body request out h in
        let (found, new) =
          get_by_email-create s.world.users m.row_id body.email hashed body.full_name Users.user
            after.world.users (new_account body) made in
        let by_id =
          get_by_id-create s.world.users m.row_id body.email hashed body.full_name Users.user
            after.world.users (new_account body) fresh made in
        let (answered, marked) =
          verify_email_own jwts ids after later body.email (new_account body) by_id found refl refl
            goes alive in
        (sent, answered, marked)
