-- ===== src/Services/AuthService.antt =====
-- app/services/auth_service.py, with the notifiers of app/services/notifications.py. A method returns
-- its result, or what it raises, and the world after it. The packages argon2, jwt, uuid and smtplib are
-- parameters.
pub mod Sessions
pub mod Passwords
use smart_travel_aggregator.Prelude.{
  ℕ, zero, suc, ◌+◌, ◌-◌, ◌*◌, ◌/◌, ◌%◌, ◌^◌, ◌≤◌, ◌<◌, min, max, ◌≡◌, refl, sym, ap, ◌∙◌, subst,
  ◌≢◌, ◌↔◌, ◌⊎◌, inl, inr, Bool, true, false, ◌&&◌, ◌||◌, not, Option, none, some, List, [], ◌∷◌,
  ◌++◌, map, arith, ltb, leb, eqb, if◌then◌else◌, ltb→lt, lt→ltb, leb→le, le→leb, eqb_iff,
  Bool-cases, Option-cases, is_some, Eq, ◌==◌, ==_refl, nat_eq, list_eq, length, take, drop, filter,
  any, all, All, length-append, length-take, length-drop, take-append-drop, length-filter-le,
  filter-append, All-append, All-imp, All-both, All-filter, filter-All, length-map, All-map,
  All-reverse, replicate,
}
use smart_travel_aggregator.Prelude.Text.{Text, codes}
use smart_travel_aggregator.Core.Errors.{Raised, unexpected, conflict, unauthorized, error_of}
use smart_travel_aggregator.Core.Security.{
  PasswordHasher, Jwt, Settings, Claims, TokenType, access, refresh, verify, reset, verify_password,
  create_token, decode_token,
}
use smart_travel_aggregator.Repositories.Users
use smart_travel_aggregator.Repositories.Users.{
  User, get_by_id, get_by_email, exists_by_email, create, update_password, mark_verified,
}
use smart_travel_aggregator.Services.TokenBlocklist.{revoke, is_revoked}
use smart_travel_aggregator.Resilience.Cache.{Cache}

pub record Mail : Type 0 where
  pub to : Text
  pub subject : Text
  pub body : Text

-- `ConsoleNotifier` or `SmtpNotifier`, with what smtplib raises for a mail at a time, if anything.
pub data Notifier : Type 0 where
  console : Notifier
  smtp : (ℕ → Mail → Option Text) → Notifier

abbrev pub failure_of : Notifier → ℕ → Mail → Option Text
failure_of console now mail = none
failure_of (smtp fails) now mail = fails now mail

-- `str(uuid)` and `uuid.UUID(text)`, which raises a `ValueError` for `none`.
pub record Uuids : Type 0 where
  pub str : ℕ → Text
  pub parse : Text → Option ℕ

pub record TokenPair : Type 0 where
  pub access_token : Text
  pub refresh_token : Text

-- What one call finds around it: the wall clock, the clock of the cache, and what it draws at
-- random, a salt, the ids of two tokens, and the id of a row.
pub record Moment : Type 0 where
  pub now : ℕ
  pub tick : ℕ
  pub salt : ℕ
  pub jti : Text
  pub second_jti : Text
  pub row_id : ℕ

abbrev pub is_empty : Text → Bool
is_empty [] = true
is_empty (c ∷ s) = false

-- What the modules of the service are given.
pub record Packages : Type 1 where
  pub cache : Cache
  pub hasher : PasswordHasher
  pub jwt : Jwt
  pub uuids : Uuids
  pub settings : Settings
  pub notifier : Notifier
  -- The salt of `_DUMMY_HASH`.
  pub dummy_salt : ℕ

module _ (p : Packages) where
  -- The users, the mails sent, and the ids of revoked tokens.
  pub record World : Type 0 where
    pub users : List User
    pub sent : List Mail
    pub revoked : Cache.Store p.cache

  abbrev pub Result : Type 0 → Type 0
  Result A = (Raised ⊎ A) × World

  unfoldable pub send : World → Moment → Text → Text → Text → Result Unit
  send w m to subject body =
      let mail : Mail = record { to = to; subject = subject; body = body } in
      elim (failure_of p.notifier m.now mail) [
        | none ↦ (inr tt, record w { sent = w.sent ++ mail ∷ [] })
        | some error ↦ (inl (unexpected error), w)
      ]

  unfoldable pub send_verification : World → Moment → User → Result Unit
  send_verification w m u =
      let token = create_token p.jwt p.settings verify (p.uuids.str u.id) m.now m.jti in
      send w m u.email (codes "Verify your Smart Travel account") (
        codes "Welcome! Confirm your email to activate your account. Verification token: " ++ token)

  unfoldable pub register : World → Moment → Text → Text → Option Text → Result User
  register w m email password full_name =
      if exists_by_email w.users email
      then (inl (error_of conflict (codes "an account with this email already exists")), w)
      else elim (create w.users m.row_id email (p.hasher.hash m.salt password) full_name
          Users.user) [
            | none ↦ (inl (unexpected (codes "IntegrityError")), w)
            | some (users, u) ↦
                let (result, after) = send_verification (record w { users = users }) m u in
                (elim result [ inl e ↦ inl e | inr done ↦ inr u ], after)
          ]

  unfoldable pub resend_verification : World → Moment → Text → Result Unit
  resend_verification w m email = elim (get_by_email w.users email) [
    | none ↦ (inr tt, w)
    | some u ↦ if not u.is_verified then send_verification w m u else (inr tt, w)
  ]

  -- `_decode`: a `TokenError` becomes an `AuthenticationError`.
  unfoldable pub decode : Text → TokenType → ℕ → Raised ⊎ Claims
  decode token expected now = elim (decode_token p.jwt p.settings token expected now) [
    | inl detail ↦ inl (error_of unauthorized detail)
    | inr claims ↦ inr claims
  ]

  -- `self._users.get_by_id(uuid.UUID(payload["sub"]))`
  unfoldable pub subject_user : List User → Claims → Raised ⊎ Option User
  subject_user users claims = elim claims.sub [
    | none ↦ inl (unexpected (codes "KeyError"))
    | some sub ↦ elim (p.uuids.parse sub) [
      | none ↦ inl (unexpected (codes "ValueError"))
      | some id ↦ inr (get_by_id users id)
    ]
  ]

  unfoldable pub verify_email : World → Moment → Text → Result Unit
  verify_email w m token = elim (decode token verify m.now) [
    | inl e ↦ (inl e, w)
    | inr claims ↦ elim (subject_user w.users claims) [
      | inl e ↦ (inl e, w)
      | inr none ↦ (inl (error_of unauthorized (codes "the account no longer exists")), w)
      | inr (some u) ↦
          (inr tt, if not u.is_verified then record w { users = mark_verified w.users u } else w)
    ]
  ]

  abbrev pub dummy_hash : Text
  dummy_hash = p.hasher.hash p.dummy_salt (codes "this-is-never-a-real-password")

  unfoldable pub authenticate : World → Moment → Text → Text → Result User
  authenticate w m email password =
      let found = get_by_email w.users email in
      let stored : Text = elim found [ none ↦ dummy_hash | some u ↦ u.hashed_password ] in
      let refused = error_of unauthorized (codes "incorrect email or password") in
      elim (verify_password p.hasher password stored) [
        | none ↦ (inl (unexpected (codes "VerificationError")), w)
        | some password_ok ↦ elim found [
          | none ↦ (inl refused, w)
          | some u ↦
              if not password_ok
              then (inl refused, w)
              else if not u.is_active
              then (inl (error_of unauthorized (codes "this account is disabled")), w)
              else if p.hasher.check_needs_rehash u.hashed_password
              then (let hashed = p.hasher.hash m.salt password in
                  (
                    inr (record u { hashed_password = hashed }),
                    record w { users = update_password w.users u hashed },
                  ))
              else (inr u, w)
        ]
      ]

  unfoldable pub issue_tokens : Moment → User → TokenPair
  issue_tokens m u =
      let subject = p.uuids.str u.id in
      record {
        access_token = create_token p.jwt p.settings access subject m.now m.jti;
        refresh_token = create_token p.jwt p.settings refresh subject m.now m.second_jti;
      }

  unfoldable pub refresh_session : World → Moment → Text → Result TokenPair
  refresh_session w m token = elim (decode token refresh m.now) [
    | inl e ↦ (inl e, w)
    | inr claims ↦
        let (store, is_out) = is_revoked p.cache w.revoked m.tick claims in
        let after = record w { revoked = store } in
        if is_out
        then (inl (error_of unauthorized (codes "this session has been revoked")), after)
        else elim (subject_user w.users claims) [
          | inl e ↦ (inl e, after)
          | inr none ↦ (inl (error_of unauthorized (codes "the account is no longer valid")), after)
          | inr (some u) ↦
              if not u.is_active
              then (inl (error_of unauthorized (codes "the account is no longer valid")), after)
              else (inr (issue_tokens m u), after)
        ]
  ]

  unfoldable pub request_password_reset : World → Moment → Text → Result Unit
  request_password_reset w m email = elim (get_by_email w.users email) [
    | none ↦ (inr tt, w)
    | some u ↦
        if not u.is_active
        then (inr tt, w)
        else send w m u.email (codes "Reset your Smart Travel password") (
            codes "Use this token to set a new password: "
            ++ create_token p.jwt p.settings reset (p.uuids.str u.id) m.now m.jti)
  ]

  unfoldable pub reset_password : World → Moment → Text → Text → Result Unit
  reset_password w m token new_password = elim (decode token reset m.now) [
    | inl e ↦ (inl e, w)
    | inr claims ↦ elim (subject_user w.users claims) [
      | inl e ↦ (inl e, w)
      | inr none ↦ (inl (error_of unauthorized (codes "the account is no longer valid")), w)
      | inr (some u) ↦
          if not u.is_active
          then (inl (error_of unauthorized (codes "the account is no longer valid")), w)
          else (
            inr tt,
            record w { users = update_password w.users u (p.hasher.hash m.salt new_password) },
          )
    ]
  ]

  unfoldable pub logout : World → Moment → Claims → Option Text → World
  logout w m access_payload refresh_token =
      let first = record w { revoked = revoke p.cache w.revoked m.now m.tick access_payload } in
      elim refresh_token [
        | none ↦ first
        | some token ↦
            if is_empty token
            then first
            else elim (decode_token p.jwt p.settings token refresh m.now) [
              | inl detail ↦ first
              | inr claims ↦ record first {
                revoked = revoke p.cache first.revoked m.now m.tick claims;
              }
            ]
      ]
