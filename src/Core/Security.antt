-- ===== src/Core/Security.antt =====
-- app/core/security.py: passwords and tokens. The packages argon2 and jwt are parameters. Times are
-- whole seconds since the epoch.
pub mod Tokens
use smart_travel_aggregator.Prelude.{
  ℕ, zero, suc, ◌+◌, ◌-◌, ◌*◌, ◌/◌, ◌%◌, ◌^◌, ◌≤◌, ◌<◌, min, max, ◌≡◌, refl, sym, ap, ◌∙◌, subst,
  ◌≢◌, ◌↔◌, ◌⊎◌, inl, inr, Bool, true, false, ◌&&◌, ◌||◌, not, Option, none, some, List, [], ◌∷◌,
  ◌++◌, map, arith, ltb, leb, eqb, if◌then◌else◌, ltb→lt, lt→ltb, leb→le, le→leb, eqb_iff,
  Bool-cases, Option-cases, is_some, Eq, ◌==◌, ==_refl, nat_eq, list_eq, length, take, drop, filter,
  any, all, All, length-append, length-take, length-drop, take-append-drop, length-filter-le,
  filter-append, All-append, All-imp, All-both, All-filter, filter-All, length-map, All-map,
  All-reverse, replicate,
}
use smart_travel_aggregator.Prelude.Text.{Text, codes, text_eq_iff}

-- What `PasswordHasher.verify` does: returns, or raises `VerifyMismatchError`, `InvalidHashError`
-- or another error.
pub data Verification : Type 0 where
  matched mismatch invalid_hash failure : Verification

-- `argon2.PasswordHasher`; the first argument of `hash` is the salt that it draws.
pub record PasswordHasher : Type 0 where
  pub hash : ℕ → Text → Text
  pub verify : Text → Text → Verification
  pub check_needs_rehash : Text → Bool

-- A hash verifies the password that it was made from, and no other.
pub record IsHash (h : PasswordHasher) : Type 0 where
  pub own : (salt : ℕ) (plain : Text) → h.verify (h.hash salt plain) plain ≡ matched
  pub other :
      (salt : ℕ) (plain guess : Text)
      → guess ≢ plain
      → h.verify (h.hash salt plain) guess ≡ mismatch

-- `verify_password`, with `none` for an error that it does not catch.
unfoldable pub verify_password : PasswordHasher → Text → Text → Option Bool
verify_password h plain hashed = elim (h.verify hashed plain) [
  | matched ↦ some true
  | mismatch ↦ some false
  | invalid_hash ↦ some false
  | failure ↦ none
]

pub data TokenType : Type 0 where
  access refresh verify reset : TokenType

abbrev pub token_name : TokenType → Text
token_name access = codes "access"
token_name refresh = codes "refresh"
token_name verify = codes "verify"
token_name reset = codes "reset"

-- The claims of a payload, `none` where a claim is missing.
pub record Claims : Type 0 where
  pub sub : Option Text
  pub token_type : Option Text
  pub iat : Option ℕ
  pub exp : Option ℕ
  pub jti : Option Text

-- What `jwt.decode` does: returns the payload, or raises `ExpiredSignatureError` or another
-- `PyJWTError`.
pub data Decoded : Type 0 where
  payload : Claims → Decoded
  expired invalid : Decoded

pub record Settings : Type 0 where
  pub secret_key : Text
  pub jwt_algorithm : Text
  pub access_token_ttl : ℕ
  pub refresh_token_ttl : ℕ
  pub verify_token_ttl : ℕ
  pub reset_token_ttl : ℕ

-- The package jwt: `encode` and `decode` with a key and an algorithm, `decode` at a time.
pub record Jwt : Type 0 where
  pub encode : Text → Text → Claims → Text
  pub decode : Text → Text → ℕ → Text → Decoded

-- A payload is past its `exp`.
abbrev pub is_expired : Claims → ℕ → Bool
is_expired claims now = elim claims.exp [ none ↦ false | some exp ↦ leb exp now ]

-- A payload was issued after a time.
abbrev pub is_immature : Claims → ℕ → Bool
is_immature claims now = elim claims.iat [ none ↦ false | some iat ↦ ltb now iat ]

-- What is encoded is decoded with the same key and algorithm from when it was issued until it
-- expires; before, `decode` raises `ImmatureSignatureError`. A token has two dots at least, so it is not
-- empty.
pub record IsJwt (jwt : Jwt) : Type 0 where
  pub decode-encode :
      (key algorithm : Text) (claims : Claims) (now : ℕ)
      → jwt.decode key algorithm now (jwt.encode key algorithm claims) ≡ (
          if is_immature claims now
          then invalid
          else if is_expired claims now
          then expired
          else payload claims)
  pub encode-ne-nil :
      (key algorithm : Text) (claims : Claims) → jwt.encode key algorithm claims ≢ []

-- The claims of a new token; `jti` is `uuid.uuid4().hex`.
unfoldable pub new_claims : Text → TokenType → ℕ → ℕ → Text → Claims
new_claims subject token_type ttl now jti = record {
  sub = some subject;
  token_type = some (token_name token_type);
  iat = some now;
  exp = some (now + ttl);
  jti = some jti;
}

unfoldable pub ttl_of : TokenType → Settings → ℕ
ttl_of access settings = settings.access_token_ttl
ttl_of refresh settings = settings.refresh_token_ttl
ttl_of verify settings = settings.verify_token_ttl
ttl_of reset settings = settings.reset_token_ttl

-- `claim == value`, for a claim that may be missing.
abbrev pub has_value : Option Text → Text → Bool
has_value none value = false
has_value (some claim) value = claim == value

module _ (jwt : Jwt) (settings : Settings) where
  -- `create_access_token`, `create_refresh_token`, `create_verify_token`, `create_reset_token`.
  unfoldable pub create_token : TokenType → Text → ℕ → Text → Text
  create_token token_type subject now jti =
      jwt.encode settings.secret_key settings.jwt_algorithm
        (new_claims subject token_type (ttl_of token_type settings) now jti)

  -- `decode_token`, with `inl` and its message for a `TokenError`.
  unfoldable pub decode_token : Text → TokenType → ℕ → Text ⊎ Claims
  decode_token token expected_type now =
      elim (jwt.decode settings.secret_key settings.jwt_algorithm now token) [
        | expired ↦ inl (codes "token has expired")
        | invalid ↦ inl (codes "token is invalid")
        | payload claims ↦
            if not (has_value claims.token_type (token_name expected_type))
            then inl (codes "expected a " ++ token_name expected_type ++ codes " token")
            else if not (is_some claims.sub)
            then inl (codes "token is missing a subject")
            else inr claims
      ]
