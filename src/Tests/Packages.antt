-- ===== src/Tests/Packages.antt =====
-- Packages whose results can be computed: a hash is the salt in front of the password, a token is
-- its key and claims one after another, a UUID is the one character with its number.
use smart_travel_aggregator.Prelude.{
  ℕ, zero, suc, ◌≡◌, refl, ap, true, false, Option, none, some, [], ◌∷◌, ◌++◌, arith, if◌then◌else◌,
  ◌==◌, ==_refl, nat_eq, list_eq, length, take, drop,
}
use smart_travel_aggregator.Prelude.Text.{Text, codes, text_eq_iff}
use smart_travel_aggregator.Core.Security.{
  PasswordHasher, Verification, matched, mismatch, invalid_hash, IsHash, Claims, Decoded, payload,
  expired, invalid, Jwt, IsJwt, is_expired, is_immature, Settings, has_value,
}
use smart_travel_aggregator.Services.AuthService
use smart_travel_aggregator.Services.AuthService.{Uuids, Moment, World}
use smart_travel_aggregator.Repositories.Users
use smart_travel_aggregator.Repositories.Users.{User}
use smart_travel_aggregator.Resilience.Cache.{Cache}
use smart_travel_aggregator.Resilience.Cache.InMemory
use smart_travel_aggregator.Resilience.Cache.Laws.{in_memory}

abbrev verify_plain : Text → Text → Verification
verify_plain [] guess = invalid_hash
verify_plain (salt ∷ plain) guess = if plain == guess then matched else mismatch

abbrev pub plain_hasher : PasswordHasher
plain_hasher = record {
  hash = λ salt plain. salt ∷ plain;
  verify = verify_plain;
  check_needs_rehash = λ hashed. false;
}

pub plain_hasher-IsHash : IsHash plain_hasher
plain_hasher-IsHash = record {
  own = λ salt plain. ground (arith, ==_refl plain);
  other = λ salt plain guess differ. ground (arith, differ, text_eq_iff plain guess);
}

-- Writes a text that may be missing in front of a text, and reads it back.
abbrev put : Option Text → Text → Text
put none rest = 0 ∷ rest
put (some t) rest = 1 ∷ length t ∷ (t ++ rest)

abbrev take_one : Text → Option Text × Text
take_one (zero ∷ rest) = (none, rest)
take_one (suc n ∷ size ∷ rest) = (some (take size rest), drop size rest)
take_one _ = (none, [])

take-length : (s t : Text) → (take (length s) (s ++ t) ≡ s) × (drop (length s) (s ++ t) ≡ t)
take-length [] t = (refl, refl)
take-length (c ∷ s) t = let (p, q) = take-length s t in (ap (◌∷◌ c) p, q)

take_one-put : (o : Option Text) (rest : Text) → take_one (put o rest) ≡ (o, rest)
take_one-put none rest = refl
take_one-put (some t) rest = let (p, q) = take-length t rest in rw (p, q) refl

abbrev as_text : Option ℕ → Option Text
as_text none = none
as_text (some n) = some (n ∷ [])

abbrev as_number : Option Text → Option ℕ
as_number none = none
as_number (some []) = none
as_number (some (n ∷ s)) = some n

as_number-as_text : (o : Option ℕ) → as_number (as_text o) ≡ o
as_number-as_text none = refl
as_number-as_text (some n) = refl

abbrev encode_plain : Text → Text → Claims → Text
encode_plain key algorithm c =
    put (some key)
      (put c.sub (put c.token_type (put (as_text c.iat) (put (as_text c.exp) (put c.jti [])))))

abbrev claims_of : Text → Claims
claims_of s =
    let (sub, s1) = take_one s in
    let (token_type, s2) = take_one s1 in
    let (iat, s3) = take_one s2 in
    let (exp, s4) = take_one s3 in
    let (jti, s5) = take_one s4 in
    record {
      sub = sub;
      token_type = token_type;
      iat = as_number iat;
      exp = as_number exp;
      jti = jti;
    }

abbrev decode_plain : Text → Text → ℕ → Text → Decoded
decode_plain key algorithm now s =
    let (signed, rest) = take_one s in
    if has_value signed key
    then (if is_immature (claims_of rest) now
        then invalid
        else if is_expired (claims_of rest) now
        then expired
        else payload (claims_of rest))
    else invalid

abbrev pub plain_jwt : Jwt
plain_jwt = record { encode = encode_plain; decode = decode_plain }

claims_of-put :
    (c : Claims)
    → claims_of
        (put c.sub (put c.token_type (put (as_text c.iat) (put (as_text c.exp) (put c.jti [])))))
      ≡ c
claims_of-put c =
    rw
      (
        take_one-put c.sub,
        take_one-put c.token_type,
        take_one-put (as_text c.iat),
        take_one-put (as_text c.exp),
        take_one-put c.jti,
        as_number-as_text c.iat,
        as_number-as_text c.exp,
      )
      refl

decode_own :
    (key algorithm : Text) (c : Claims) (now : ℕ)
    → decode_plain key algorithm now (encode_plain key algorithm c)
      ≡ (if is_immature c now then invalid else if is_expired c now then expired else payload c)
decode_own key algorithm c now =
    let rest =
      put c.sub (put c.token_type (put (as_text c.iat) (put (as_text c.exp) (put c.jti [])))) in
    let (p, q) = take-length key rest in rw (p, q, claims_of-put c, ==_refl key) refl

pub plain_jwt-IsJwt : IsJwt plain_jwt
plain_jwt-IsJwt = record {
  decode-encode = λ key algorithm claims now. decode_own key algorithm claims now;
  encode-ne-nil = λ key algorithm claims e. ground arith;
}

abbrev parse_one : Text → Option ℕ
parse_one [] = none
parse_one (c ∷ s) = some c

abbrev pub plain_uuids : Uuids
plain_uuids = record { str = λ id. id ∷ []; parse = parse_one }

abbrev pub settings : Settings
settings = record {
  secret_key = codes "key";
  jwt_algorithm = codes "HS256";
  access_token_ttl = 900;
  refresh_token_ttl = 1209600;
  verify_token_ttl = 86400;
  reset_token_ttl = 3600;
}

abbrev pub packages : AuthService.Packages
packages = record {
  cache = in_memory;
  hasher = plain_hasher;
  jwt = plain_jwt;
  uuids = plain_uuids;
  settings = settings;
  notifier = AuthService.console;
  dummy_salt = 0;
}

abbrev pub moment : ℕ → ℕ → Moment
moment now tick = record {
  now = now;
  tick = tick;
  salt = 5;
  jti = codes "a";
  second_jti = codes "b";
  row_id = 2;
}

abbrev pub alice : User
alice = record {
  id = 1;
  email = codes "alice@x.org";
  hashed_password = 3 ∷ codes "Secret-1";
  full_name = none;
  role = Users.admin;
  is_active = true;
  is_verified = true;
}

unfoldable pub no_tokens : Cache.Store in_memory
unfolding in_memory
no_tokens = InMemory.init

abbrev pub world : World packages
world = record { users = alice ∷ []; sent = []; revoked = no_tokens }
