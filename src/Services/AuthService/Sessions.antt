-- ===== src/Services/AuthService/Sessions.antt =====
-- Sessions of app/services/auth_service.py: what a refresh token is worth, and logging out.
use smart_travel_aggregator.Prelude.{
  ℕ, ◌+◌, ◌≤◌, ◌<◌, ◌≡◌, refl, ap, ◌∙◌, ◌≢◌, ◌⊎◌, inl, inr, Bool, true, false, some, [], ◌∷◌, arith,
  leb, Bool-cases, Option-cases, ==_refl, nat_eq, list_eq,
}
use smart_travel_aggregator.Prelude.Text.{Text, codes}
use smart_travel_aggregator.Core.Errors.{Raised}
use smart_travel_aggregator.Core.Security.{
  IsJwt, Claims, refresh, create_token, decode_token, ttl_of, new_claims,
}
use smart_travel_aggregator.Core.Security.Tokens.{decode_token_iff, decode_own}
use smart_travel_aggregator.Repositories.Users.{User}
use smart_travel_aggregator.Services.TokenBlocklist.{
  revoke, is_revoked, revoke-is_revoked, token_id-new_claims,
}
use smart_travel_aggregator.Services.AuthService.{
  Packages, World, Moment, is_empty, refresh_session, decode, subject_user, logout, issue_tokens,
}

-- Whether a method returns.
abbrev pub returns : {A : Type 0} → Raised ⊎ A → Bool
returns (inl e) = false
returns (inr a) = true

-- A sum is one of the two, with the equation kept.
pub result-cases {ℓ κ} :
    {A : Type ℓ} {B : Type κ} (r : A ⊎ B) → ((a : A) × (r ≡ inl a)) ⊎ ((b : B) × (r ≡ inr b))
result-cases (inl a) = inl (a, refl)
result-cases (inr b) = inr (b, refl)

module _ (p : Packages) where
  -- Tokens are refreshed only for a refresh token, that is not revoked, of an active user.
  pub refresh_session_sound :
      (w : World p) (m : Moment) (token : Text)
      → returns (refresh_session p w m token).0 ≡ true
      → (claims : Claims) × (u : User) × (decode_token p.jwt p.settings token refresh m.now
          ≡ inr claims)
        × ((is_revoked p.cache w.revoked m.tick claims).1 ≡ false)
        × (subject_user p w.users claims ≡ inr (some u))
        × (u.is_active ≡ true)
        × ((refresh_session p w m token).0 ≡ inr (issue_tokens p m u))
  unfolding refresh_session decode
  refresh_session_sound w m token h =
      elim (result-cases (decode_token p.jwt p.settings token refresh m.now)) [
        | inl (e, bad) ↦ absurd (ground (arith, bad))
        | inr (claims, good) ↦ elim (result-cases (subject_user p w.users claims)) [
          | inl (e, bad) ↦ absurd (ground (arith, good, bad))
          | inr (found, is) ↦ elim (Option-cases found) [
            | inl gone ↦ absurd (ground (arith, good, is, gone))
            | inr (u, there) ↦ (
              claims,
              u,
              good,
              ground (arith, good, is, there),
              is ∙ ap inr there,
              ground (arith, good, is, there),
              ground (arith, good, is, there),
            )
          ]
        ]
      ]

  is_empty_lem :
      (jwts : IsJwt p.jwt) (subject jti : Text) (issued : ℕ)
      → is_empty (create_token p.jwt p.settings refresh subject issued jti) ≡ false
  unfolding create_token
  is_empty_lem jwts subject jti issued = nonempty _ (
      jwts.encode-ne-nil p.settings.secret_key p.settings.jwt_algorithm
        (new_claims subject refresh (ttl_of refresh p.settings) issued jti))
    where
      nonempty : (s : Text) → s ≢ [] → is_empty s ≡ false
      nonempty [] h = absurd (h refl)
      nonempty (c ∷ s) h = refl

  exp_lem :
      (subject jti : Text) (issued : ℕ)
      → (new_claims subject refresh (ttl_of refresh p.settings) issued jti).exp
        ≡ some (issued + ttl_of refresh p.settings)
  unfolding new_claims
  exp_lem subject jti issued = refl

  logout_lem :
      (jwts : IsJwt p.jwt) (w : World p) (m : Moment) (access_payload : Claims) (subject jti : Text)
      (issued : ℕ)
      → issued ≤ m.now
      → m.now < issued + ttl_of refresh p.settings
      → let token = create_token p.jwt p.settings refresh subject issued jti in
        (logout p w m access_payload (some token)).revoked
        ≡ revoke p.cache
            (revoke p.cache w.revoked m.now m.tick access_payload)
            m.now
            m.tick
            (new_claims subject refresh (ttl_of refresh p.settings) issued jti)
  unfolding logout
  logout_lem jwts w m access_payload subject jti issued made alive = ground (
    arith,
    (decode_token_iff p.jwt jwts p.settings refresh subject issued m.now jti refresh).1
        (refl, made, alive),
    is_empty_lem jwts subject jti issued,
  )

  -- After a logout with a refresh token of this server that has an id and was not issued later, it
  -- opens no session at any later time, provided that the clock of the cache does not run ahead of
  -- the wall clock.
  pub refresh_session-logout :
      (jwts : IsJwt p.jwt) (w : World p) (m later : Moment) (access_payload : Claims)
      (subject jti : Text) (issued : ℕ)
      → jti ≢ []
      → issued ≤ m.now
      → m.now ≤ later.now
      → later.tick + m.now ≤ m.tick + later.now
      → let token = create_token p.jwt p.settings refresh subject issued jti in
        returns (refresh_session p (logout p w m access_payload (some token)) later token).0 ≡ false
  unfolding refresh_session decode
  refresh_session-logout jwts w m later access_payload subject jti issued named made goes steps =
      let token = create_token p.jwt p.settings refresh subject issued jti in
      let claims = new_claims subject refresh (ttl_of refresh p.settings) issued jti in
      let own = decode_own p.jwt jwts p.settings refresh subject issued later.now jti refresh in
      elim (Bool-cases (leb (issued + ttl_of refresh p.settings) later.now)) [
        | inl over ↦ ground (arith, own, over)
        | inr still ↦
            let out =
              revoke-is_revoked p.cache (revoke p.cache w.revoked m.now m.tick access_payload) m.now
                m.tick claims jti (issued + ttl_of refresh p.settings) later.now later.tick
                (token_id-new_claims subject refresh (ttl_of refresh p.settings) issued jti named)
                (exp_lem subject jti issued) (ground (arith, still, goes)) (ground (arith, still))
                steps in
            ground (
              arith,
              own,
              still,
              ==_refl (codes "refresh"),
              logout_lem jwts w m access_payload subject jti issued made
                  (ground (arith, still, goes)),
              out,
            )
      ]
