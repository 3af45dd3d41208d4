-- ===== src/Tests/Accounts.antt =====
-- Tokens, sessions, passwords and settings on concrete values.
use smart_travel_aggregator.Prelude.{
  ℕ, zero, suc, ◌+◌, ◌-◌, ◌*◌, ◌/◌, ◌%◌, ◌^◌, ◌≤◌, ◌<◌, min, max, ◌≡◌, refl, sym, ap, ◌∙◌, subst,
  ◌≢◌, ◌↔◌, ◌⊎◌, inl, inr, Bool, true, false, ◌&&◌, ◌||◌, not, Option, none, some, List, [], ◌∷◌,
  ◌++◌, map, arith, ltb, leb, eqb, if◌then◌else◌, ltb→lt, lt→ltb, leb→le, le→leb, eqb_iff,
  Bool-cases, Option-cases, is_some, Eq, ◌==◌, ==_refl, nat_eq, list_eq, length, take, drop, filter,
  any, all, All, length-append, length-take, length-drop, take-append-drop, length-filter-le,
  filter-append, All-append, All-imp, All-both, All-filter, filter-All, length-map, All-map,
  All-reverse, replicate,
}
use smart_travel_aggregator.Prelude.Text.{text_eq_iff, Text, codes}
use smart_travel_aggregator.Core.Config
use smart_travel_aggregator.Core.Config.{Configuration, is_accepted_sound, insecure_default_secret}
use smart_travel_aggregator.Core.Security.{
  Claims, refresh, access, reset, matched, create_token, decode_token, new_claims,
}
use smart_travel_aggregator.Core.Security.Tokens.{decode_token_iff}
use smart_travel_aggregator.Resilience.Cache.{Cache}
use smart_travel_aggregator.Resilience.Cache.Laws.{in_memory}
use smart_travel_aggregator.Repositories.Users
use smart_travel_aggregator.Repositories.Users.{
  IsTable, create-IsTable, User, get_by_email, get_by_id, new_user,
}
use smart_travel_aggregator.Services.TokenBlocklist.{revoke, is_revoked, revoke-is_revoked}
use smart_travel_aggregator.Services.AuthService.{
  Moment, World, TokenPair, register, authenticate, reset_password, refresh_session, logout,
  issue_tokens, subject_user,
}
use smart_travel_aggregator.Services.AuthService.Passwords.{id_of, authenticate-reset_password}
use smart_travel_aggregator.Services.AuthService.Sessions.{
  returns, refresh_session_sound, refresh_session-logout,
}
use smart_travel_aggregator.Api.Deps.{require_admin, get_current_user, get_optional_user}
use smart_travel_aggregator.Api.Deps.Access.{require_admin_sound, get_optional_user_revoked}
use smart_travel_aggregator.Tests.Packages.{
  packages, plain_hasher-IsHash, plain_jwt, plain_jwt-IsJwt, settings, moment, alice, world,
  no_tokens,
}

-- Alice is the user 1, and her subject the character with that number.
abbrev subject : Text
subject = 1 ∷ []

abbrev access_claims : Claims
access_claims = new_claims subject access 900 1000 (codes "a")

decode_token_iff_example :
    (decode_token plain_jwt settings
        (create_token plain_jwt settings refresh subject 1000 (codes "b"))
        access
        1100
      ≡ inr (new_claims subject refresh 1209600 1000 (codes "b")))
    ↔ ((refresh ≡ access) × (1000 ≤ 1100) × (1100 < 1000 + 1209600))
unfolding smart_travel_aggregator.Core.Security.ttl_of
decode_token_iff_example =
    decode_token_iff plain_jwt plain_jwt-IsJwt settings refresh subject 1000 1100 (codes "b") access

abbrev pair : TokenPair
pair = issue_tokens packages (moment 1000 0) alice

refresh_session-logout_example :
    returns
      (refresh_session packages
        (logout packages world
          (moment 1100 7)
          access_claims
          (some (create_token plain_jwt settings refresh subject 1000 (codes "b"))))
        (moment 1500 300)
        (create_token plain_jwt settings refresh subject 1000 (codes "b"))).0
    ≡ false
refresh_session-logout_example =
    refresh_session-logout packages plain_jwt-IsJwt world (moment 1100 7) (moment 1500 300)
      access_claims subject (codes "b") 1000 (λ e. cc) (omega arith) (omega arith) (omega arith)

abbrev refresh_token : Text
refresh_token = create_token plain_jwt settings refresh subject 1000 (codes "b")

refreshed : returns (refresh_session packages world (moment 1100 7) refresh_token).0 ≡ true
unfolding refresh_session smart_travel_aggregator.Services.AuthService.decode decode_token
    create_token new_claims smart_travel_aggregator.Core.Security.ttl_of is_revoked
    smart_travel_aggregator.Services.TokenBlocklist.token_id in_memory
    smart_travel_aggregator.Resilience.Cache.InMemory.get smart_travel_aggregator.Prelude.Dict.get
    no_tokens smart_travel_aggregator.Resilience.Cache.InMemory.init subject_user get_by_id
refreshed = refl

refresh_session_sound_example :
    (claims : Claims) × (u : User) × (decode_token plain_jwt settings refresh_token refresh 1100
      ≡ inr claims)
    × ((is_revoked in_memory no_tokens 7 claims).1 ≡ false)
    × (subject_user packages (alice ∷ []) claims ≡ inr (some u))
    × (u.is_active ≡ true)
    × ((refresh_session packages world (moment 1100 7) refresh_token).0
        ≡ inr (issue_tokens packages (moment 1100 7) u))
refresh_session_sound_example =
    refresh_session_sound packages world (moment 1100 7) refresh_token refreshed

logged_in :
    (authenticate packages world (moment 1100 7) (codes "Alice@x.org") (codes "Secret-1")).0
    ≡ inr alice
unfolding authenticate smart_travel_aggregator.Core.Security.verify_password get_by_email
    smart_travel_aggregator.Prelude.Text.lower
logged_in = refl

abbrev bob : User
bob = new_user 2 (codes "bob@x.org") (5 ∷ codes "Secret-2") none Users.user

-- Bob's address is written in another case.
create-IsTable_example : IsTable (alice ∷ bob ∷ [])
unfolding smart_travel_aggregator.Prelude.Text.lower Users.create
create-IsTable_example =
    create-IsTable (alice ∷ []) 2 (codes "Bob@x.org") (5 ∷ codes "Secret-2") none Users.user
      (alice ∷ bob ∷ []) bob (refl, tt, tt) (λ e. ground arith, tt) refl

registered :
    (register packages world (moment 1100 7) (codes "Bob@x.org") (codes "Secret-2") none).0
    ≡ inr bob
unfolding register Users.exists_by_email smart_travel_aggregator.Prelude.Text.lower Users.create
    smart_travel_aggregator.Services.AuthService.send_verification
    smart_travel_aggregator.Services.AuthService.send
registered = refl

alice_by_id : get_by_id (alice ∷ []) 1 ≡ some alice
unfolding get_by_id
alice_by_id = refl

alice_by_email : get_by_email (alice ∷ []) (codes "alice@x.org") ≡ some alice
unfolding get_by_email smart_travel_aggregator.Prelude.Text.lower
alice_by_email = refl

abbrev reset_token : Text
reset_token = create_token plain_jwt settings reset subject 1000 (codes "r")

in_time : 1100 < 1000 + smart_travel_aggregator.Core.Security.ttl_of reset settings
unfolding smart_travel_aggregator.Core.Security.ttl_of
in_time = omega arith

authenticate-reset_password_example :
    let after = (reset_password packages world (moment 1100 7) reset_token (codes "Secret-9")).1 in
    (id_of (authenticate packages after (moment 1200 9) (codes "alice@x.org") (codes "Secret-9")).0
      ≡ some alice.id)
    × (id_of
          (authenticate packages after (moment 1200 9) (codes "alice@x.org") (codes "Secret-1")).0
        ≡ none)
authenticate-reset_password_example =
    authenticate-reset_password packages plain_hasher-IsHash plain_jwt-IsJwt (λ id. refl) world
      (moment 1100 7) (moment 1200 9) alice (codes "alice@x.org") (codes "Secret-9")
      (codes "Secret-1") 1000 (codes "r") alice_by_id alice_by_email refl (omega arith) in_time
      (λ e. ground (arith, (text_eq_iff (codes "Secret-1") (codes "Secret-9")).1 e))

abbrev access_token : Text
access_token = create_token plain_jwt settings access subject 1000 (codes "a")

passed : (require_admin packages world (moment 1100 7) (some access_token)).0 ≡ inr alice
unfolding require_admin get_current_user smart_travel_aggregator.Api.Deps.get_access_payload
    decode_token create_token new_claims smart_travel_aggregator.Core.Security.ttl_of is_revoked
    smart_travel_aggregator.Services.TokenBlocklist.token_id in_memory
    smart_travel_aggregator.Resilience.Cache.InMemory.get smart_travel_aggregator.Prelude.Dict.get
    no_tokens smart_travel_aggregator.Resilience.Cache.InMemory.init
    smart_travel_aggregator.Api.Deps.active_user subject_user get_by_id
passed = refl

require_admin_sound_example :
    (token : Text) × (claims : Claims) × (some access_token ≡ some token)
    × (decode_token plain_jwt settings token access 1100 ≡ inr claims)
    × ((is_revoked in_memory no_tokens 7 claims).1 ≡ false)
    × (subject_user packages (alice ∷ []) claims ≡ inr (some alice))
    × (alice.is_active ≡ true)
    × (alice.role ≡ Users.admin)
require_admin_sound_example =
    require_admin_sound packages world (moment 1100 7) (some access_token) alice passed

early : 1500 < 1000 + smart_travel_aggregator.Core.Security.ttl_of access settings
unfolding smart_travel_aggregator.Core.Security.ttl_of
early = omega arith

get_optional_user_revoked_example :
    let after : World packages = record world {
      revoked = revoke in_memory no_tokens 1100 7 access_claims;
    } in
    (returns (get_current_user packages after (moment 1500 300) (some access_token)).0 ≡ false)
    × (get_optional_user packages after (moment 1500 300) (some access_token) ≡ inr (some alice))
unfolding smart_travel_aggregator.Core.Security.ttl_of
get_optional_user_revoked_example =
    get_optional_user_revoked packages plain_jwt-IsJwt world (moment 1100 7) (moment 1500 300) alice
      1000 (codes "a") refl alice_by_id (λ e. cc) (omega arith) (omega arith) early (omega arith)

abbrev deployed : Configuration
deployed = record {
  environment = Config.production;
  secret_key = codes "a-secret-key-of-thirty-two-letters";
  cors_origins = codes "https://x.org" ∷ [];
  cors_allow_credentials = true;
}
