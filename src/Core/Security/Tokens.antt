-- ===== src/Core/Security/Tokens.antt =====
-- Which tokens app/core/security.py accepts.
use smart_travel_aggregator.Prelude.{
  ℕ, ◌+◌, ◌≤◌, ◌<◌, ◌≡◌, refl, ap, ◌↔◌, inl, inr, true, ◌++◌, arith, ltb, leb, if◌then◌else◌, ◌==◌,
  ==_refl, nat_eq, list_eq,
}
use smart_travel_aggregator.Prelude.Text.{Text, codes}
use smart_travel_aggregator.Core.Security.{
  TokenType, access, refresh, verify, reset, token_name, Jwt, IsJwt, Settings, new_claims, ttl_of,
  create_token, decode_token,
}

-- Two names of types are equal for equal types only.
pub token_name-injective : (a b : TokenType) → (token_name a == token_name b) ≡ true → a ≡ b
token_name-injective access access h = refl
token_name-injective refresh refresh h = refl
token_name-injective verify verify h = refl
token_name-injective reset reset h = refl
token_name-injective a b h = absurd (ground arith)

module _ (jwt : Jwt) (laws : IsJwt jwt) (settings : Settings) where
  pub decode_own :
      (t : TokenType) (subject : Text) (issued now : ℕ) (jti : Text) (expected : TokenType)
      → decode_token jwt settings (create_token jwt settings t subject issued jti) expected now ≡ (
          if ltb now issued
          then inl (codes "token is invalid")
          else if leb (issued + ttl_of t settings) now
          then inl (codes "token has expired")
          else if token_name t == token_name expected
          then inr (new_claims subject t (ttl_of t settings) issued jti)
          else inl (codes "expected a " ++ token_name expected ++ codes " token"))
  unfolding decode_token create_token new_claims
  decode_own t subject issued now jti expected = ground (
    arith,
    laws.decode-encode settings.secret_key settings.jwt_algorithm
        (new_claims subject t (ttl_of t settings) issued jti) now,
  )

  -- A token that this server made is accepted exactly where its own type is expected, at a time from
  -- when it was made until its time to live has passed, and then with the subject and the id that it
  -- was made with: a refresh, verification or reset token is never taken for an access token.
  pub decode_token_iff :
      (t : TokenType) (subject : Text) (issued now : ℕ) (jti : Text) (expected : TokenType)
      → (decode_token jwt settings (create_token jwt settings t subject issued jti) expected now
          ≡ inr (new_claims subject t (ttl_of t settings) issued jti))
        ↔ ((t ≡ expected) × (issued ≤ now) × (now < issued + ttl_of t settings))
  decode_token_iff t subject issued now jti expected =
      rw (decode_own t subject issued now jti expected) (
        λ h. (ground (arith, token_name-injective t expected), ground arith, ground arith),
        λ h. ground (arith, ap token_name h.0, ==_refl (token_name expected)),
      )
