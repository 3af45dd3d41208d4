-- ===== src/Tests/Routes.antt =====
-- Requests for the authentication routes on concrete values.
use smart_travel_aggregator.Prelude.{
  ℕ, zero, suc, ◌+◌, ◌-◌, ◌*◌, ◌/◌, ◌%◌, ◌^◌, ◌≤◌, ◌<◌, min, max, ◌≡◌, refl, sym, ap, ◌∙◌, subst,
  ◌≢◌, ◌↔◌, ◌⊎◌, inl, inr, Bool, true, false, ◌&&◌, ◌||◌, not, Option, none, some, List, [], ◌∷◌,
  ◌++◌, map, arith, ltb, leb, eqb, if◌then◌else◌, ltb→lt, lt→ltb, leb→le, le→leb, eqb_iff,
  Bool-cases, Option-cases, is_some, Eq, ◌==◌, ==_refl, nat_eq, list_eq, length, take, drop, filter,
  any, all, All, length-append, length-take, length-drop, take-append-drop, length-filter-le,
  filter-append, All-append, All-imp, All-both, All-filter, filter-All, length-map, All-map,
  All-reverse, replicate,
}
use smart_travel_aggregator.Prelude.Text.{Text, codes, lower}
use smart_travel_aggregator.Core.Errors.{Raised}
use smart_travel_aggregator.Core.ClientIp.{IpAddresses, Request}
use smart_travel_aggregator.Core.Security.{
  Claims, access, create_token, decode_token, new_claims, matched,
}
use smart_travel_aggregator.Core.Security
use smart_travel_aggregator.Repositories.Users
use smart_travel_aggregator.Repositories.Users.{User, get_by_email, get_by_id}
use smart_travel_aggregator.Services.AuthService.{World, Moment}
use smart_travel_aggregator.Services.AuthService
use smart_travel_aggregator.Services.AuthService.Sessions.{returns}
use smart_travel_aggregator.Services.TokenBlocklist.{is_revoked, token_id}
use smart_travel_aggregator.Resilience.Cache.{Cache}
use smart_travel_aggregator.Api.Auth
use smart_travel_aggregator.Api.Auth.{
  State, served, me, login, logout, register, verify_email, request_password_reset,
  resend_verification, LoginRequest, RegisterRequest, user_out, message_response, TokenResponse,
  UserOut, entry,
}
use smart_travel_aggregator.Api.Auth.Sessions.{me-login, me-logout}
use smart_travel_aggregator.Api.Auth.Audit.{login_audited, tables}
use smart_travel_aggregator.Api.Auth.Registration.{
  verify_email-register, verify_token, new_account, verify_mail,
}
use smart_travel_aggregator.Api.Auth.Uniform.{
  request_password_reset_uniform, login_uniform, AddsMail,
}
use smart_travel_aggregator.Tests.Packages.{
  packages, plain_jwt, plain_jwt-IsJwt, settings, moment, alice, world, no_tokens,
}

abbrev nowhere : IpAddresses
nowhere = record {
  Network = Text;
  Address = Text;
  ip_network = λ s. some s;
  ip_address = λ s. some s;
  contains = λ network address. network == address;
}

abbrev request : Request
request = record { host = some (codes "9.9.9.9"); forwarded = [] }

abbrev start : State packages
start = record { world = world; audit = [] }

abbrev right : LoginRequest
right = record { email = codes "Alice@x.org"; password = codes "Secret-1" }

abbrev wrong : LoginRequest
wrong = record { email = codes "Alice@x.org"; password = codes "Secret-2" }

abbrev unknown : LoginRequest
unknown = record { email = codes "bob@x.org"; password = codes "Secret-1" }

abbrev answer : TokenResponse
answer = record {
  access_token = create_token plain_jwt settings access (1 ∷ []) 1000 (codes "a");
  refresh_token = create_token plain_jwt settings Security.refresh (1 ∷ []) 1000 (codes "b");
  token_type = codes "bearer";
}

logged_in : (served (login packages (moment 1000 0) nowhere [] right request) start).0 ≡ inr answer
unfolding served login AuthService.authenticate Security.verify_password get_by_email lower
    Auth.token_response create_token AuthService.issue_tokens
logged_in = refl

me-login_example :
    (served
      (me packages (moment 1100 7) (some answer.access_token))
      (served (login packages (moment 1000 0) nowhere [] right request) start).1).0
    ≡ inr (user_out alice)
unfolding lower get_by_email Security.ttl_of is_revoked token_id new_claims
    smart_travel_aggregator.Resilience.Cache.Laws.in_memory
    smart_travel_aggregator.Resilience.Cache.InMemory.get smart_travel_aggregator.Prelude.Dict.get
    no_tokens smart_travel_aggregator.Resilience.Cache.InMemory.init
me-login_example =
    me-login packages nowhere [] plain_jwt-IsJwt (λ id. refl) start (moment 1000 0) (moment 1100 7)
      right request answer alice (refl, tt, tt) logged_in refl (omega arith) (omega arith) refl

logged_out :
    (served
      (logout packages
        (moment 1100 7)
        nowhere
        []
        (some answer.access_token)
        (some answer.refresh_token)
        request)
      start).0
    ≡ inr (message_response (codes "logged out"))
unfolding served logout smart_travel_aggregator.Api.Deps.get_access_payload decode_token
    create_token new_claims Security.ttl_of is_revoked token_id
    smart_travel_aggregator.Resilience.Cache.Laws.in_memory
    smart_travel_aggregator.Resilience.Cache.InMemory.get smart_travel_aggregator.Prelude.Dict.get
    no_tokens smart_travel_aggregator.Resilience.Cache.InMemory.init
logged_out = refl

abbrev refresh_claims : Claims
refresh_claims = new_claims (1 ∷ []) Security.refresh 1209600 1000 (codes "b")

refresh_good :
    decode_token plain_jwt settings answer.refresh_token Security.refresh 1100 ≡ inr refresh_claims
unfolding decode_token create_token new_claims Security.ttl_of
refresh_good = refl

refresh_named : token_id refresh_claims ≡ some (codes "b")
unfolding token_id new_claims
refresh_named = refl

refresh_id :
    (token : Text) (claims : Claims)
    → some answer.refresh_token ≡ some token
    → decode_token plain_jwt settings token Security.refresh 1100 ≡ inr claims
    → token_id claims ≢ some (codes "a")
refresh_id token claims sent good same =
    ground (arith, refresh_good, refresh_named, sent, good, same)

me-logout_example :
    returns
      (served
        (me packages (moment 1500 300) (some answer.access_token))
        (served
          (logout packages
            (moment 1100 7)
            nowhere
            []
            (some answer.access_token)
            (some answer.refresh_token)
            request)
          start).1).0
    ≡ false
me-logout_example =
    me-logout packages nowhere [] plain_jwt-IsJwt start (moment 1100 7) (moment 1500 300) (1 ∷ [])
      (codes "a") 1000 (some answer.refresh_token) request (message_response (codes "logged out"))
      (λ e. cc) (omega arith) refresh_id logged_out

request_password_reset_uniform_example :
    ((served (request_password_reset packages (moment 1000 0) (codes "alice@x.org")) start).0
      ≡ (served (request_password_reset packages (moment 1000 0) (codes "bob@x.org")) start).0)
    × ((served (resend_verification packages (moment 1000 0) (codes "alice@x.org")) start).0
        ≡ (served (resend_verification packages (moment 1000 0) (codes "bob@x.org")) start).0)
    × (tables
          (served (request_password_reset packages (moment 1000 0) (codes "alice@x.org")) start).1
        ≡ tables start)
    × (tables (served (resend_verification packages (moment 1000 0) (codes "alice@x.org")) start).1
        ≡ tables start)
    × AddsMail start
        (served (request_password_reset packages (moment 1000 0) (codes "alice@x.org")) start).1
        (codes "alice@x.org")
    × AddsMail start
        (served (resend_verification packages (moment 1000 0) (codes "alice@x.org")) start).1
        (codes "alice@x.org")
request_password_reset_uniform_example =
    request_password_reset_uniform packages (moment 1000 0) start start (codes "alice@x.org")
      (codes "bob@x.org") (λ mail. refl)

login_uniform_example :
    (served (login packages (moment 1000 0) nowhere [] wrong request) start).0
    ≡ (served (login packages (moment 1000 0) nowhere [] unknown request) start).0
unfolding get_by_email lower
login_uniform_example =
    login_uniform packages (moment 1000 0) nowhere [] start start wrong unknown request alice
      (λ e. ground arith) refl refl refl

abbrev carol : RegisterRequest
carol = record { email = codes "Carol@x.org"; password = codes "Secret-Word"; full_name = none }

abbrev carol_out : UserOut
carol_out = record {
  id = 2;
  email = codes "carol@x.org";
  full_name = none;
  role = Users.user;
  is_verified = false;
}

registered :
    (served (register packages (moment 1000 0) nowhere [] carol request) start).0 ≡ inr carol_out
unfolding served register AuthService.register Users.exists_by_email lower Users.create user_out
    AuthService.send_verification AuthService.send
registered = refl

verify_email-register_example :
    let after = (served (register packages (moment 1000 0) nowhere [] carol request) start).1 in
    let verified =
      served
        (verify_email packages (moment 1100 7) (verify_token packages (moment 1000 0)))
        after in
    (after.world.sent ≡ [] ++ verify_mail packages (moment 1000 0) carol ∷ [])
    × (verified.0 ≡ inr (message_response (codes "email verified")))
    × (get_by_email verified.1.world.users (codes "Carol@x.org")
        ≡ some (record (new_account packages (moment 1000 0) carol) { is_verified = true }))
unfolding Security.ttl_of
verify_email-register_example =
    verify_email-register packages (moment 1000 0) nowhere [] plain_jwt-IsJwt (λ id. refl) start
      (moment 1100 7) carol request carol_out (λ e. ground arith, tt) registered (omega arith)
      (omega arith)

login_audited_example :
    let (result, after) = served (login packages (moment 1000 0) nowhere [] right request) start in
    ((e : Raised) × (result ≡ inl e) × (tables after ≡ tables start))
    ⊎ ((v : User) × (out : TokenResponse) × (result ≡ inr out)
        × (get_by_email (alice ∷ []) (codes "Alice@x.org") ≡ some v)
        × (packages.hasher.verify v.hashed_password (codes "Secret-1") ≡ matched)
        × (v.is_active ≡ true)
        × (after.audit ≡ [] ++ entry 1000 v.id (codes "user.login") (some (codes "9.9.9.9")) ∷ []))
unfolding smart_travel_aggregator.Core.ClientIp.client_ip
    smart_travel_aggregator.Core.ClientIp.trusts
login_audited_example = login_audited packages (moment 1000 0) nowhere [] start right request
