-- ===== src/Api/Auth/Uniform.antt =====
-- The answers of app/api/v1/auth.py that do not tell whether an address has an account.
use smart_travel_aggregator.Prelude.{
  ◌≡◌, refl, sym, ◌∙◌, subst, ◌≢◌, ◌⊎◌, inl, inr, none, some, List, [], ◌∷◌, ◌++◌, arith,
  Bool-cases, Option-cases, nat_eq, list_eq,
}
use smart_travel_aggregator.Prelude.Text.{Text, codes}
use smart_travel_aggregator.Core.ClientIp.{IpAddresses, Request}
use smart_travel_aggregator.Core.Security.{
  verify, reset, create_token, verify_password, mismatch, failure,
}
use smart_travel_aggregator.Repositories.Users.{User, get_by_email}
use smart_travel_aggregator.Services.AuthService
use smart_travel_aggregator.Services.AuthService.{
  failure_of, Packages, World, Moment, Mail, authenticate, subject_user, decode, send,
  send_verification,
}
use smart_travel_aggregator.Api.Auth.{
  respond, ◌>>◌, call, MessageResponse, message_response, Result, State, served, LoginRequest,
  login, resend_verification, request_password_reset,
}
use smart_travel_aggregator.Api.Auth.Audit.{tables}

module _ {p : Packages} where
  -- The mails after a request: those before, and at most one, to the address of a row.
  abbrev pub AddsMail : State p → State p → Text → Type 0
  AddsMail s after email =
      (after.world.sent ≡ s.world.sent)
      ⊎ ((u : User) × (mail : Mail) × (get_by_email s.world.users email ≡ some u)
          × (mail.to ≡ u.email)
          × (after.world.sent ≡ s.world.sent ++ mail ∷ []))

module _ (p : Packages) (m : Moment) where
  -- A method returns, having sent nothing or one mail, to the address of a row.
  abbrev Mails : World p → Text → Result p Unit → Type 0
  Mails w email result =
      (result ≡ (inr tt, w))
      ⊎ ((u : User) × (mail : Mail) × (get_by_email w.users email ≡ some u)
          × (mail.to ≡ u.email)
          × (result ≡ (inr tt, record w { sent = w.sent ++ mail ∷ [] })))

  -- The route around such a method answers with its message.
  one_mail :
      (method : World p → Result p Unit) (body : MessageResponse) (s : State p) (email : Text)
      → Mails s.world email (method s.world)
      → ((served (call method >> respond body) s).0 ≡ inr body)
        × (tables (served (call method >> respond body) s).1 ≡ tables s)
        × AddsMail s (served (call method >> respond body) s).1 email
  unfolding served
  one_mail method body s email (inl none_) =
      (ground (arith, none_), ground (arith, none_), inl (ground (arith, none_)))
  one_mail method body s email (inr (u, mail, found, to, sent)) =
      (ground (arith, sent), ground (arith, sent), inr (u, mail, found, to, ground (arith, sent)))

  module _ (works : (mail : Mail) → failure_of p.notifier m.now mail ≡ none) where
    send_lem :
        (w : World p) (email subject body : Text) (u : User)
        → get_by_email w.users email ≡ some u
        → Mails w email (send p w m u.email subject body)
    unfolding send
    send_lem w email subject body u found =
        let mail : Mail = record { to = u.email; subject = subject; body = body } in
        inr (u, mail, found, refl, ground (arith, works mail))

    request_password_reset-Mails :
        (w : World p) (email : Text)
        → Mails w email (AuthService.request_password_reset p w m email)
    unfolding AuthService.request_password_reset
    request_password_reset-Mails w email = elim (Option-cases (get_by_email w.users email)) [
      | inl gone ↦ inl (ground (arith, gone))
      | inr (u, there) ↦ elim (Bool-cases u.is_active) [
        | inl active ↦
            let subject = codes "Reset your Smart Travel password" in
            let body =
              codes "Use this token to set a new password: "
              ++ create_token p.jwt p.settings reset (p.uuids.str u.id) m.now m.jti in
            let same : AuthService.request_password_reset p w m email
                ≡ send p w m u.email subject body =
              ground (arith, there, active) in
            subst (Mails w email) (sym same) (send_lem w email subject body u there)
        | inr disabled ↦ inl (ground (arith, there, disabled))
      ]
    ]

    resend_verification-Mails :
        (w : World p) (email : Text) → Mails w email (AuthService.resend_verification p w m email)
    unfolding AuthService.resend_verification send_verification
    resend_verification-Mails w email = elim (Option-cases (get_by_email w.users email)) [
      | inl gone ↦ inl (ground (arith, gone))
      | inr (u, there) ↦ elim (Bool-cases u.is_verified) [
        | inl verified ↦ inl (ground (arith, there, verified))
        | inr pending ↦
            let subject = codes "Verify your Smart Travel account" in
            let body =
              codes "Welcome! Confirm your email to activate your account. Verification token: "
              ++ create_token p.jwt p.settings verify (p.uuids.str u.id) m.now m.jti in
            let same : AuthService.resend_verification p w m email
                ≡ send p w m u.email subject body =
              ground (arith, there, pending) in
            subst (Mails w email) (sym same) (send_lem w email subject body u there)
      ]
    ]

  -- While the notifier does not fail, a request for a new verification mail or for a reset of a password
  -- has the same answer for any two addresses, with an account or without, changes no table, and
  -- sends at most one mail, to the address of the account.
  pub request_password_reset_uniform :
      (s t : State p) (email other : Text)
      → ((mail : Mail) → failure_of p.notifier m.now mail ≡ none)
      → ((served (request_password_reset p m email) s).0
          ≡ (served (request_password_reset p m other) t).0)
        × ((served (resend_verification p m email) s).0
            ≡ (served (resend_verification p m other) t).0)
        × (tables (served (request_password_reset p m email) s).1 ≡ tables s)
        × (tables (served (resend_verification p m email) s).1 ≡ tables s)
        × AddsMail s (served (request_password_reset p m email) s).1 email
        × AddsMail s (served (resend_verification p m email) s).1 email
  unfolding request_password_reset resend_verification
  request_password_reset_uniform s t email other works =
      let resets = request_password_reset-Mails works in
      let resends = resend_verification-Mails works in
      let reset_body = message_response (codes "if the account exists, a reset email was sent") in
      let resend_body =
        message_response (codes "if the account exists, a verification email was sent") in
      let reset_method = λ (a : Text) (w : World p). AuthService.request_password_reset p w m a in
      let resend_method = λ (a : Text) (w : World p). AuthService.resend_verification p w m a in
      let (a, b, c) = one_mail (reset_method email) reset_body s email (resets s.world email) in
      let (d, e, f) = one_mail (resend_method email) resend_body s email (resends s.world email) in
      let g = one_mail (reset_method other) reset_body t other (resets t.world other) in
      let h = one_mail (resend_method other) resend_body t other (resends t.world other) in
      (a ∙ sym (g.0), d ∙ sym (h.0), b, e, c, f)

  module _ (ips : IpAddresses) (networks : List (IpAddresses.Network ips)) where
    -- A login with a wrong password is answered as one for an address without an account.
    pub login_uniform :
        (s t : State p) (body other : LoginRequest) (request : Request) (u : User)
        → p.hasher.verify (AuthService.dummy_hash p) other.password ≢ failure
        → get_by_email s.world.users body.email ≡ some u
        → p.hasher.verify u.hashed_password body.password ≡ mismatch
        → get_by_email t.world.users other.email ≡ none
        → (served (login p m ips networks body request) s).0
          ≡ (served (login p m ips networks other request) t).0
    unfolding served login authenticate verify_password
    login_uniform s t body other request u works there wrong gone =
        ground (arith, there, wrong, gone, works)
