-- ===== src/Api/Auth.antt =====
-- app/api/v1/auth.py, with `AuditLog` of app/db/models.py. A route is an action on the rows and on
-- what the service keeps: it returns a body or raises, and what it did so far stays done. `served`
-- is a request for a route, with the session of `get_session` around it. The column `id`, which
-- the database fills, and the timestamps of users are left out.
pub mod Audit
pub mod Registration
pub mod Sessions
pub mod Uniform
use smart_travel_aggregator.Prelude.{
  ℕ, zero, suc, ◌+◌, ◌-◌, ◌*◌, ◌/◌, ◌%◌, ◌^◌, ◌≤◌, ◌<◌, min, max, ◌≡◌, refl, sym, ap, ◌∙◌, subst,
  ◌≢◌, ◌↔◌, ◌⊎◌, inl, inr, Bool, true, false, ◌&&◌, ◌||◌, not, Option, none, some, List, [], ◌∷◌,
  ◌++◌, map, arith, ltb, leb, eqb, if◌then◌else◌, ltb→lt, lt→ltb, leb→le, le→leb, eqb_iff,
  Bool-cases, Option-cases, is_some, Eq, ◌==◌, ==_refl, nat_eq, list_eq, length, take, drop, filter,
  any, all, All, length-append, length-take, length-drop, take-append-drop, length-filter-le,
  filter-append, All-append, All-imp, All-both, All-filter, filter-All, length-map, All-map,
  All-reverse, replicate,
}
use smart_travel_aggregator.Prelude.Text.{Text, codes}
use smart_travel_aggregator.Core.Errors.{Raised, unexpected}
use smart_travel_aggregator.Core.ClientIp.{IpAddresses, Request, client_ip}
use smart_travel_aggregator.Core.Security.{Claims}
use smart_travel_aggregator.Repositories.Users
use smart_travel_aggregator.Repositories.Users.{User}
use smart_travel_aggregator.Services.AuthService.{Packages, World, Moment, Result, TokenPair}
use smart_travel_aggregator.Services.AuthService
use smart_travel_aggregator.Api.Deps.{get_access_payload, get_current_user}

pub record AuditLog : Type 0 where
  pub actor_id : Option ℕ
  pub action : Text
  pub detail : Text
  pub ip_address : Option Text
  pub created_at : ℕ

-- `AuditLog(actor_id=..., action=..., ip_address=...)`, with the defaults of `detail` and
-- `created_at`, which is the time of the request.
abbrev pub entry : ℕ → ℕ → Text → Option Text → AuditLog
entry now actor_id action ip_address = record {
  actor_id = some actor_id;
  action = action;
  detail = [];
  ip_address = ip_address;
  created_at = now;
}

pub record UserOut : Type 0 where
  pub id : ℕ
  pub email : Text
  pub full_name : Option Text
  pub role : Users.UserRole
  pub is_verified : Bool

pub record TokenResponse : Type 0 where
  pub access_token : Text
  pub refresh_token : Text
  pub token_type : Text

pub record MessageResponse : Type 0 where
  pub message : Text

-- `UserOut.model_validate(user)`
unfoldable pub user_out : User → UserOut
user_out u = record {
  id = u.id;
  email = u.email;
  full_name = u.full_name;
  role = u.role;
  is_verified = u.is_verified;
}

unfoldable pub token_response : TokenPair → TokenResponse
token_response tokens = record {
  access_token = tokens.access_token;
  refresh_token = tokens.refresh_token;
  token_type = codes "bearer";
}

abbrev pub message_response : Text → MessageResponse
message_response message = record { message = message }

-- The bodies of the requests, after validation.
pub record RegisterRequest : Type 0 where
  pub email : Text
  pub password : Text
  pub full_name : Option Text

pub record LoginRequest : Type 0 where
  pub email : Text
  pub password : Text

pub record PasswordResetConfirm : Type 0 where
  pub token : Text
  pub new_password : Text

module _ (p : Packages) where
  pub record State : Type 0 where
    pub world : World p
    pub audit : List AuditLog

  abbrev pub Route : Type 0 → Type 0
  Route A = State → (Raised ⊎ A) × State

module _ {p : Packages} where
  infixl 5 ◌>>=◌ ◌>>◌
  abbrev pub ◌>>=◌ : {A B : Type 0} → Route p A → (A → Route p B) → Route p B
  ◌>>=◌ first next s =
      let (result, after) = first s in elim result [ inl e ↦ (inl e, after) | inr a ↦ next a after ]

  abbrev pub ◌>>◌ : {A B : Type 0} → Route p A → Route p B → Route p B
  first >> next = first >>= λ done. next

  abbrev pub respond : {A : Type 0} → A → Route p A
  respond body s = (inr body, s)

  -- A method of the service that may raise, and one that does not.
  abbrev pub call : {A : Type 0} → (World p → Result p A) → Route p A
  call method s = let (result, world) = method s.world in (result, record s { world = world })

  abbrev pub run : (World p → World p) → Route p (Unit {0})
  run method s = (inr tt, record s { world = method s.world })

  -- `session.add(row)`
  abbrev pub add_row : AuditLog → Route p (Unit {0})
  add_row row s = (inr tt, record s { audit = s.audit ++ row ∷ [] })

  -- `get_session`: what was written to the tables is rolled back when the route raises.
  unfoldable pub served : {A : Type 0} → Route p A → Route p A
  served route s =
      let (result, after) = route s in
      elim result [
        | inl e ↦ (
          inl e,
          record after { world = record after.world { users = s.world.users }; audit = s.audit },
        )
        | inr body ↦ (inr body, after)
      ]

module _ (p : Packages) (m : Moment) where
  -- `uuid.UUID(access_payload["sub"])`
  abbrev pub subject_id : Claims → Route p ℕ
  subject_id payload s = elim payload.sub [
    | none ↦ (inl (unexpected (codes "KeyError")), s)
    | some sub ↦ elim (p.uuids.parse sub) [
      | none ↦ (inl (unexpected (codes "ValueError")), s)
      | some id ↦ (inr id, s)
    ]
  ]

  unfoldable pub refresh : Text → Route p TokenResponse
  refresh token = do
    tokens ← call (λ w. AuthService.refresh_session p w m token)
    respond (token_response tokens)

  -- `credentials` is the bearer token, if one was sent.
  unfoldable pub me : Option Text → Route p UserOut
  me credentials = do
    current_user ← call (λ w. get_current_user p w m credentials)
    respond (user_out current_user)

  unfoldable pub verify_email : Text → Route p MessageResponse
  verify_email token = do
    call (λ w. AuthService.verify_email p w m token)
    respond (message_response (codes "email verified"))

  unfoldable pub resend_verification : Text → Route p MessageResponse
  resend_verification email = do
    call (λ w. AuthService.resend_verification p w m email)
    respond (message_response (codes "if the account exists, a verification email was sent"))

  unfoldable pub request_password_reset : Text → Route p MessageResponse
  request_password_reset email = do
    call (λ w. AuthService.request_password_reset p w m email)
    respond (message_response (codes "if the account exists, a reset email was sent"))

  unfoldable pub confirm_password_reset : PasswordResetConfirm → Route p MessageResponse
  confirm_password_reset body = do
    call (λ w. AuthService.reset_password p w m body.token body.new_password)
    respond (message_response (codes "password updated"))

  module _ (ips : IpAddresses) (networks : List (IpAddresses.Network ips)) where
    unfoldable pub register : RegisterRequest → Request → Route p UserOut
    register body request = do
      u ← call (λ w. AuthService.register p w m body.email body.password body.full_name)
      add_row (entry m.now u.id (codes "user.register") (client_ip ips networks request))
      respond (user_out u)

    unfoldable pub login : LoginRequest → Request → Route p TokenResponse
    login body request = do
      u ← call (λ w. AuthService.authenticate p w m body.email body.password)
      add_row (entry m.now u.id (codes "user.login") (client_ip ips networks request))
      respond (token_response (AuthService.issue_tokens p m u))

    unfoldable pub logout : Option Text → Option Text → Request → Route p MessageResponse
    logout credentials refresh_token request = do
      payload ← call (λ w. get_access_payload p w m credentials)
      run (λ w. AuthService.logout p w m payload refresh_token)
      id ← subject_id payload
      add_row (entry m.now id (codes "user.logout") (client_ip ips networks request))
      respond (message_response (codes "logged out"))
