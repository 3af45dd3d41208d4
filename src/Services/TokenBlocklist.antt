-- ===== src/Services/TokenBlocklist.antt =====
-- app/services/token_blocklist.py: revoked tokens, in the shared cache. `now` is `time.time()` in
-- whole seconds, `tick` the clock of the cache in the same unit; the two have different origins.
use smart_travel_aggregator.Prelude.{
  ℕ, ◌+◌, ◌-◌, ◌≤◌, ◌<◌, ◌≡◌, refl, ◌≢◌, inl, inr, Bool, true, false, Option, none, some, [], ◌∷◌,
  ◌++◌, arith, ltb, if◌then◌else◌, Option-cases, is_some, ◌==◌, ==_refl, nat_eq, list_eq,
}
use smart_travel_aggregator.Prelude.Text.{Text, codes, text_eq_iff}
use smart_travel_aggregator.Core.Security.{Claims, TokenType, new_claims}
use smart_travel_aggregator.Resilience.Cache.{Cache}

-- `max(0, exp - now)`, and 0 without an `exp`.
unfoldable pub remaining_ttl : Claims → ℕ → ℕ
remaining_ttl claims now = elim claims.exp [ none ↦ 0 | some exp ↦ exp - now ]

-- `payload.get("jti")`, where an empty text counts as none.
unfoldable pub token_id : Claims → Option Text
token_id claims = elim claims.jti [ none ↦ none | some jti ↦ if jti == [] then none else some jti ]

pub token_id-new_claims :
    (subject : Text) (t : TokenType) (ttl now : ℕ) (jti : Text)
    → jti ≢ []
    → token_id (new_claims subject t ttl now jti) ≡ some jti
unfolding token_id new_claims
token_id-new_claims subject t ttl now [] named = absurd (named refl)
token_id-new_claims subject t ttl now (c ∷ jti) named = refl

abbrev pub revoked_key : Text → Text
revoked_key jti = codes "revoked:" ++ jti

module _ (cache : Cache) where
  open cache use {Store, get, set}

  unfoldable pub revoke : Store → ℕ → ℕ → Claims → Store
  revoke store now tick claims = elim (token_id claims) [
    | none ↦ store
    | some jti ↦
        let ttl = remaining_ttl claims now in
        if ltb 0 ttl then set store tick (revoked_key jti) (codes "1") ttl else store
  ]

  unfoldable pub is_revoked : Store → ℕ → Claims → Store × Bool
  is_revoked store tick claims = elim (token_id claims) [
    | none ↦ (store, false)
    | some jti ↦ let (after, found) = get store tick (revoked_key jti) in (after, is_some found)
  ]

  revoke_lem :
      (store : Store) (now tick : ℕ) (claims : Claims) (jti : Text) (exp : ℕ)
      → token_id claims ≡ some jti
      → claims.exp ≡ some exp
      → now < exp
      → revoke store now tick claims ≡ set store tick (revoked_key jti) (codes "1") (exp - now)
  unfolding revoke remaining_ttl
  revoke_lem store now tick claims jti exp named at alive = ground arith

  is_revoked_lem :
      (store : Store) (tick : ℕ) (claims : Claims) (jti : Text)
      → token_id claims ≡ some jti
      → (is_revoked store tick claims).1 ≡ is_some (get store tick (revoked_key jti)).1
  unfolding is_revoked
  is_revoked_lem store tick claims jti named = ground arith

  append_cancel : (prefix s t : Text) → (prefix ++ s ≡ prefix ++ t) → s ≡ t
  append_cancel [] s t h = h
  append_cancel (c ∷ prefix) s t h = append_cancel prefix s t (ground arith)

  -- A revoked token with an id counts as revoked as long as it has not expired, provided that the
  -- clock of the cache does not run ahead of the wall clock: its entry outlives the token.
  pub revoke-is_revoked :
      (store : Store) (now tick : ℕ) (claims : Claims) (jti : Text) (exp later tick2 : ℕ)
      → token_id claims ≡ some jti
      → claims.exp ≡ some exp
      → now < exp
      → later < exp
      → tick2 + now ≤ tick + later
      → (is_revoked (revoke store now tick claims) tick2 claims).1 ≡ true
  revoke-is_revoked store now tick claims jti exp later tick2 named at alive still steps =
      rw
        (
          revoke_lem store now tick claims jti exp named at alive,
          is_revoked_lem (set store tick (revoked_key jti) (codes "1") (exp - now)) tick2 claims jti
              named,
          cache.get-set store tick tick2 (revoked_key jti) (codes "1") (exp - now)
              (revoked_key jti),
        )
        (ground (arith, ==_refl (revoked_key jti)))

  -- Revoking one token changes nothing for a token with another id.
  pub revoke_other :
      (store : Store) (now tick tick2 : ℕ) (claims other : Claims)
      → token_id claims ≢ token_id other
      → (is_revoked (revoke store now tick claims) tick2 other).1 ≡ (is_revoked store tick2 other).1
  unfolding revoke is_revoked
  revoke_other store now tick tick2 claims other differ = elim (Option-cases (token_id claims)) [
    | inl e ↦ ground (arith, e)
    | inr (jti, e) ↦ elim (Option-cases (token_id other)) [
      | inl f ↦ ground (arith, e, f)
      | inr (jti2, f) ↦ ground (
        arith,
        e,
        f,
        differ,
        cache.get-set store tick tick2 (revoked_key jti) (codes "1") (remaining_ttl claims now)
            (revoked_key jti2),
        text_eq_iff (revoked_key jti) (revoked_key jti2),
        append_cancel (codes "revoked:") jti jti2,
      )
    ]
  ]
