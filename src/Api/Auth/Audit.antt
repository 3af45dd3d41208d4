-- ===== src/Api/Auth/Audit.antt =====
-- What the routes of app/api/v1/auth.py write: a request that fails writes nothing, and a login one
-- row of the audit log.
use smart_travel_aggregator.Prelude.{
  ◌≡◌, ap, ◌∙◌, ◌⊎◌, inl, inr, true, some, List, [], ◌∷◌, ◌++◌, arith, nat_eq, list_eq,
}
use smart_travel_aggregator.Prelude.Text.{codes}
use smart_travel_aggregator.Core.Errors.{Raised}
use smart_travel_aggregator.Core.ClientIp.{IpAddresses, Request, client_ip}
use smart_travel_aggregator.Core.Security.{matched}
use smart_travel_aggregator.Repositories.Users.{User, get_by_email}
use smart_travel_aggregator.Services.AuthService.{Packages, Moment}
use smart_travel_aggregator.Services.AuthService.Sessions.{result-cases}
use smart_travel_aggregator.Api.Auth.Sessions.{login_lem}
use smart_travel_aggregator.Services.AuthService.Passwords.{authenticate_sound}
use smart_travel_aggregator.Api.Auth.{
  Route, State, TokenResponse, AuditLog, entry, served, LoginRequest, login,
}

module _ {p : Packages} where
  -- What the tables hold.
  abbrev pub tables : State p → List User × List AuditLog
  tables s = (s.world.users, s.audit)

  -- A request that fails leaves the tables as they were.
  pub served-error :
      {A : Type 0} (route : Route p A) (s : State p) (e : Raised)
      → (served route s).0 ≡ inl e
      → tables (served route s).1 ≡ tables s
  unfolding served
  served-error route s e h = elim (result-cases (route s).0) [
    | inl (e', bad) ↦ ground (arith, bad)
    | inr (a, good) ↦ absurd (ground (arith, good))
  ]

module _ (p : Packages) (m : Moment) where
  module _ (ips : IpAddresses) (networks : List (IpAddresses.Network ips)) where
    -- A login either fails and leaves the tables as they were, or succeeds for an active user with
    -- that address whose hash the password matches, and adds one row to the audit log, with the
    -- id of that user and the address of the client, and no other.
    pub login_audited :
        (s : State p) (body : LoginRequest) (request : Request)
        → let (result, after) = served (login p m ips networks body request) s in
          ((e : Raised) × (result ≡ inl e) × (tables after ≡ tables s))
          ⊎ ((v : User) × (out : TokenResponse) × (result ≡ inr out)
              × (get_by_email s.world.users body.email ≡ some v)
              × (p.hasher.verify v.hashed_password body.password ≡ matched)
              × (v.is_active ≡ true)
              × (after.audit
                  ≡ s.audit
                    ++ entry m.now v.id (codes "user.login") (client_ip ips networks request) ∷ []))
    login_audited s body request =
        elim (result-cases (served (login p m ips networks body request) s).0) [
          | inl (e, bad) ↦ inl (e, bad, served-error (login p m ips networks body request) s e bad)
          | inr (out, good) ↦
              let (u, in_, made, after) = login_lem p ips networks s m body request out good in
              let (v, found, matches, active, same) =
                authenticate_sound p s.world m body.email body.password u in_ in
              inr (
                v,
                out,
                good,
                found,
                matches,
                active,
                ap (λ t. t.audit) after
                    ∙ ap
                        (λ id.
                          s.audit
                          ++ entry m.now id (codes "user.login") (client_ip ips networks request)
                            ∷ [])
                        same,
              )
        ]
