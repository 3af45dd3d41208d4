-- ===== src/Core/Config.antt =====
-- app/core/config.py: the settings that are validated, and what their validators refuse. `json.loads`
-- of a list is a parameter.
use smart_travel_aggregator.Prelude.{
  ◌≡◌, ◌≢◌, Bool, true, false, ◌&&◌, not, Option, some, List, [], ◌∷◌, arith, eqb, if◌then◌else◌,
  ◌==◌, nat_eq, list_eq, any, All,
}
use smart_travel_aggregator.Prelude.Text.{Text, codes, strip, split, text_eq_iff}
use smart_travel_aggregator.Core.ClientIp.{strip_parts}

pub data Environment : Type 0 where
  development test staging production : Environment

pub record Configuration : Type 0 where
  pub environment : Environment
  pub secret_key : Text
  pub cors_origins : List Text
  pub cors_allow_credentials : Bool

abbrev pub insecure_default_secret : Text
insecure_default_secret = codes "change-me-in-production-please-32-chars-min"

-- `text.startswith("[")`
abbrev is_array : Text → Bool
is_array [] = false
is_array (c ∷ s) = eqb c b'['

-- `_split_list` of a text, `none` when `json.loads` raises.
unfoldable pub split_list : (Text → Option (List Text)) → Text → Option (List Text)
split_list loads value =
    let text = strip value in
    if is_array text then loads text else some (strip_parts (split b',' text))

-- `environment in ("staging", "production")`
abbrev pub is_deployed : Environment → Bool
is_deployed development = false
is_deployed test = false
is_deployed staging = true
is_deployed production = true

unfoldable pub refuse_default_secret : Configuration → Bool
refuse_default_secret c = is_deployed c.environment && c.secret_key == insecure_default_secret

unfoldable pub refuse_wildcard_cors : Configuration → Bool
refuse_wildcard_cors c =
    c.cors_allow_credentials && any (λ origin. codes "*" == origin) c.cors_origins

-- `Settings(...)`, as far as the two validators decide: whether there is an object.
unfoldable pub is_accepted : Configuration → Bool
is_accepted c = not (refuse_default_secret c) && not (refuse_wildcard_cors c)

any-ne : (s : Text) (xs : List Text) → any (λ x. s == x) xs ≡ false → All (λ x. s ≢ x) xs
any-ne s [] h = tt
any-ne s (x ∷ xs) h = (λ e. ground (arith, text_eq_iff s x), any-ne s xs (ground (arith, h)))

-- Settings that are accepted for staging or production have a secret of their own, and where
-- credentials are allowed no origin is the wildcard.
pub is_accepted_sound :
    (c : Configuration)
    → is_accepted c ≡ true
    → is_deployed c.environment ≡ true
    → c.cors_allow_credentials ≡ true
    → (c.secret_key ≢ insecure_default_secret) × All (λ origin. codes "*" ≢ origin) c.cors_origins
unfolding is_accepted refuse_default_secret refuse_wildcard_cors
is_accepted_sound c h deployed credentials = (
  λ e. ground (arith, h, deployed, text_eq_iff c.secret_key insecure_default_secret),
  any-ne (codes "*") c.cors_origins (ground (arith, h, credentials)),
)
