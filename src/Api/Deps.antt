-- ===== src/Api/Deps.antt =====
-- app/api/deps.py: the checks that a request passes before its route runs.
pub mod Access
pub mod Flooding
use smart_travel_aggregator.Prelude.{
  ℕ, zero, suc, ◌+◌, ◌-◌, ◌*◌, ◌/◌, ◌%◌, ◌^◌, ◌≤◌, ◌<◌, min, max, ◌≡◌, refl, sym, ap, ◌∙◌, subst,
  ◌≢◌, ◌↔◌, ◌⊎◌, inl, inr, Bool, true, false, ◌&&◌, ◌||◌, not, Option, none, some, List, [], ◌∷◌,
  ◌++◌, map, arith, ltb, leb, eqb, if◌then◌else◌, ltb→lt, lt→ltb, leb→le, le→leb, eqb_iff,
  Bool-cases, Option-cases, is_some, Eq, ◌==◌, ==_refl, nat_eq, list_eq, length, take, drop, filter,
  any, all, All, length-append, length-take, length-drop, take-append-drop, length-filter-le,
  filter-append, All-append, All-imp, All-both, All-filter, filter-All, length-map, All-map,
  All-reverse, replicate,
}
use smart_travel_aggregator.Prelude.Text.{Text, codes}
use smart_travel_aggregator.Core.Errors.{
  app_error, Raised, unauthorized, forbidden, rate_limited, error_of,
}
use smart_travel_aggregator.Core.RateLimit
use smart_travel_aggregator.Core.RateLimit.{RateLimiter}
use smart_travel_aggregator.Core.ClientIp.{IpAddresses, Request, client_ip}
use smart_travel_aggregator.Core.Security.{Claims, access, decode_token}
use smart_travel_aggregator.Repositories.Users
use smart_travel_aggregator.Repositories.Users.{User}
use smart_travel_aggregator.Services.TokenBlocklist.{is_revoked}
use smart_travel_aggregator.Services.AuthService.{Packages, World, Moment, Result, subject_user}

-- `client_ip(request) or "anonymous"`
abbrev pub identity_of : Option Text → Text
identity_of none = codes "anonymous"
identity_of (some []) = codes "anonymous"
identity_of (some (c ∷ s)) = c ∷ s

-- The limiter afterwards, and how many requests remain or the error.
unfoldable pub enforce_rate_limit :
    (rate_limiter : RateLimiter) (ips : IpAddresses)
    → List (IpAddresses.Network ips)
    → RateLimiter.State rate_limiter
    → ℕ
    → Request
    → RateLimiter.State rate_limiter × (Raised ⊎ ℕ)
enforce_rate_limit rate_limiter ips networks limiter now request =
    let (after, allowed, remaining) =
      rate_limiter.check limiter now (identity_of (client_ip ips networks request)) in
    (
      after,
      if not allowed
          then inl (
              app_error (record {
                kind = rate_limited;
                detail = codes "rate limit exceeded, slow down";
                limit_per_minute = some (rate_limiter.limit after);
              }))
          else inr remaining,
    )

module _ (p : Packages) where
  -- `credentials` is the bearer token, if one was sent.
  unfoldable pub get_access_payload : World p → Moment → Option Text → Result p Claims
  get_access_payload w m credentials = elim credentials [
    | none ↦ (inl (error_of unauthorized (codes "missing bearer token")), w)
    | some token ↦ elim (decode_token p.jwt p.settings token access m.now) [
      | inl detail ↦ (inl (error_of unauthorized detail), w)
      | inr claims ↦
          let (store, is_out) = is_revoked p.cache w.revoked m.tick claims in
          let after = record w { revoked = store } in
          if is_out
          then (inl (error_of unauthorized (codes "this session has been revoked")), after)
          else (inr claims, after)
    ]
  ]

  -- The user of a payload, or the error.
  unfoldable pub active_user : List User → Claims → Raised ⊎ User
  active_user users claims =
      let refused = error_of unauthorized (codes "user no longer exists or is disabled") in
      elim (subject_user p users claims) [
        | inl e ↦ inl e
        | inr none ↦ inl refused
        | inr (some u) ↦ if not u.is_active then inl refused else inr u
      ]

  unfoldable pub get_current_user : World p → Moment → Option Text → Result p User
  get_current_user w m credentials =
      let (result, after) = get_access_payload w m credentials in
      elim result [ inl e ↦ (inl e, after) | inr claims ↦ (active_user after.users claims, after) ]

  unfoldable pub get_optional_user : World p → Moment → Option Text → Raised ⊎ Option User
  get_optional_user w m credentials = elim credentials [
    | none ↦ inr none
    | some token ↦ elim (decode_token p.jwt p.settings token access m.now) [
      | inl detail ↦ inr none
      | inr claims ↦ subject_user p w.users claims
    ]
  ]

  abbrev is_admin : Users.UserRole → Bool
  is_admin Users.user = false
  is_admin Users.admin = true

  unfoldable pub require_admin : World p → Moment → Option Text → Result p User
  require_admin w m credentials =
      let (result, after) = get_current_user w m credentials in
      elim result [
        | inl e ↦ (inl e, after)
        | inr u ↦ (
          if not (is_admin u.role)
              then inl (error_of forbidden (codes "admin privileges required"))
              else inr u,
          after,
        )
      ]

  -- `get_session`: the rows are committed when the route returns, and rolled back when it raises.
  unfoldable pub in_session : {A : Type 0} → (World p → Result p A) → World p → Result p A
  in_session route w =
      let (result, after) = route w in
      elim result [ inl e ↦ (inl e, record after { users = w.users }) | inr a ↦ (inr a, after) ]
