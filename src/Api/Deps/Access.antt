-- ===== src/Api/Deps/Access.antt =====
-- Who passes the checks of app/api/deps.py.
use smart_travel_aggregator.Prelude.{
  ℕ, ◌+◌, ◌≤◌, ◌<◌, ◌≡◌, refl, ◌≢◌, inl, inr, true, false, Option, none, some, [], arith,
  Bool-cases, Option-cases, nat_eq, list_eq,
}
use smart_travel_aggregator.Prelude.Text.{Text}
use smart_travel_aggregator.Core.Security.{
  Claims, IsJwt, access, create_token, decode_token, new_claims, ttl_of,
}
use smart_travel_aggregator.Core.Security.Tokens.{decode_token_iff}
use smart_travel_aggregator.Repositories.Users
use smart_travel_aggregator.Repositories.Users.{User, get_by_id}
use smart_travel_aggregator.Services.TokenBlocklist.{
  is_revoked, revoke, revoke-is_revoked, token_id-new_claims,
}
use smart_travel_aggregator.Services.AuthService.{Packages, World, Moment, subject_user}
use smart_travel_aggregator.Services.AuthService.Sessions.{returns, result-cases}
use smart_travel_aggregator.Api.Deps.{
  get_access_payload, active_user, get_current_user, get_optional_user, require_admin,
}

module _ (p : Packages) where
  -- Only a bearer of an access token that decodes, is not revoked and names an active administrator
  -- passes as an administrator.
  pub require_admin_sound :
      (w : World p) (m : Moment) (credentials : Option Text) (u : User)
      → (require_admin p w m credentials).0 ≡ inr u
      → (token : Text) × (claims : Claims) × (credentials ≡ some token)
        × (decode_token p.jwt p.settings token access m.now ≡ inr claims)
        × ((is_revoked p.cache w.revoked m.tick claims).1 ≡ false)
        × (subject_user p w.users claims ≡ inr (some u))
        × (u.is_active ≡ true)
        × (u.role ≡ Users.admin)
  unfolding require_admin get_current_user get_access_payload active_user
  require_admin_sound w m none u h = absurd (ground arith)
  require_admin_sound w m (some token) u h =
      elim (result-cases (decode_token p.jwt p.settings token access m.now)) [
        | inl (e, bad) ↦ absurd (ground (arith, bad))
        | inr (claims, good) ↦ elim (Bool-cases (is_revoked p.cache w.revoked m.tick claims).1) [
          | inl out ↦ absurd (ground (arith, good, out))
          | inr kept ↦ elim (result-cases (subject_user p w.users claims)) [
            | inl (e, bad) ↦ absurd (ground (arith, good, kept, bad))
            | inr (found, is) ↦ elim (Option-cases found) [
              | inl gone ↦ absurd (ground (arith, good, kept, is, gone))
              | inr (v, there) ↦
                  let same : v ≡ u = ground (arith, good, kept, is, there) in
                  (
                    token,
                    claims,
                    refl,
                    good,
                    kept,
                    ground (arith, is, there, same),
                    ground (arith, good, kept, is, there),
                    ground (arith, good, kept, is, there),
                  )
            ]
          ]
        ]
      ]

  -- After its access token is revoked, a caller is refused where a user is required, but is still
  -- known to the routes for which a user is optional, at any later time until the token expires, while
  -- the row of the user is there, and provided that the clock of the cache does not run ahead of the wall
  -- clock.
  pub get_optional_user_revoked :
      (jwts : IsJwt p.jwt) (w : World p) (m later : Moment) (u : User) (issued : ℕ) (jti : Text)
      → p.uuids.parse (p.uuids.str u.id) ≡ some u.id
      → get_by_id w.users u.id ≡ some u
      → jti ≢ []
      → issued ≤ m.now
      → m.now ≤ later.now
      → later.now < issued + ttl_of access p.settings
      → later.tick + m.now ≤ m.tick + later.now
      → let claims = new_claims (p.uuids.str u.id) access (ttl_of access p.settings) issued jti in
        let token = create_token p.jwt p.settings access (p.uuids.str u.id) issued jti in
        let after : World p = record w { revoked = revoke p.cache w.revoked m.now m.tick claims } in
        (returns (get_current_user p after later (some token)).0 ≡ false)
        × (get_optional_user p after later (some token) ≡ inr (some u))
  unfolding get_current_user get_access_payload get_optional_user subject_user new_claims
  get_optional_user_revoked jwts w m later u issued jti ids by_id named made goes alive steps =
      let ttl = ttl_of access p.settings in
      let subject = p.uuids.str u.id in
      let claims = new_claims subject access ttl issued jti in
      let good =
        (decode_token_iff p.jwt jwts p.settings access subject issued later.now jti access).1
          (refl, omega (arith, made, goes), alive) in
      let out =
        revoke-is_revoked p.cache w.revoked m.now m.tick claims jti (issued + ttl) later.now
          later.tick (token_id-new_claims subject access ttl issued jti named) refl
          (omega (arith, goes, alive)) alive steps in
      (ground (arith, good, out), ground (arith, good, ids, by_id))
