-- ===== src/Core/RateLimit/Redis.antt =====
-- `RedisRateLimiter` of app/core/rate_limit.py. The Redis server is a parameter: the two commands that
-- the limiter sends in one transaction, so at one time, and what a key then holds.
pub mod FixedWindow
pub mod Renewal
use smart_travel_aggregator.Prelude.{
  ℕ, zero, suc, ◌+◌, ◌-◌, ◌*◌, ◌/◌, ◌%◌, ◌^◌, ◌≤◌, ◌<◌, min, max, ◌≡◌, refl, sym, ap, ◌∙◌, subst,
  ◌≢◌, ◌↔◌, ◌⊎◌, inl, inr, Bool, true, false, ◌&&◌, ◌||◌, not, Option, none, some, List, [], ◌∷◌,
  ◌++◌, map, arith, ltb, leb, eqb, if◌then◌else◌, ltb→lt, lt→ltb, leb→le, le→leb, eqb_iff,
  Bool-cases, Option-cases, is_some, Eq, ◌==◌, ==_refl, nat_eq, list_eq, length, take, drop, filter,
  any, all, All, length-append, length-take, length-drop, take-append-drop, length-filter-le,
  filter-append, All-append, All-imp, All-both, All-filter, filter-All, length-map, All-map,
  All-reverse, replicate,
}
use smart_travel_aggregator.Prelude.Text.{Text, codes}
use smart_travel_aggregator.Core.RateLimit.{RateLimiter}

-- What a key holds: a count, and when it expires, if it does.
abbrev pub Entry : Type 0
Entry = Option (ℕ × Option ℕ)

abbrev pub live : ℕ → Entry → Entry
live now none = none
live now (some (n, none)) = some (n, none)
live now (some (n, some expires_at)) =
    if ltb now expires_at then some (n, some expires_at) else none

abbrev pub increment : Entry → ℕ × Option ℕ
increment none = (1, none)
increment (some (n, e)) = (n + 1, e)

abbrev pub expire_once : ℕ → Entry → Entry
expire_once expires_at none = none
expire_once expires_at (some (n, none)) = some (n, some expires_at)
expire_once expires_at (some (n, some e)) = some (n, some e)

-- INCR, and EXPIRE with NX, each at a time: the server afterwards, and its reply.
pub record Redis : Type 1 where
  pub Server : Type 0
  pub empty : Server
  pub incr : Server → ℕ → Text → Server × ℕ
  pub expire_nx : Server → ℕ → Text → ℕ → Server × ℕ
  -- What a key holds at a time.
  pub entry : Server → ℕ → Text → Entry
  pub entry-empty : (now : ℕ) (k : Text) → entry empty now k ≡ none
  pub incr-reply :
      (s : Server) (now : ℕ) (k : Text) → (incr s now k).1 ≡ (increment (entry s now k)).0
  pub entry-incr :
      (s : Server) (now later : ℕ) (k q : Text)
      → now ≤ later
      → entry (incr s now k).0 later q
        ≡ (if k == q then live later (some (increment (entry s now k))) else entry s later q)
  pub entry-expire_nx :
      (s : Server) (now later : ℕ) (k : Text) (seconds : ℕ) (q : Text)
      → now ≤ later
      → entry (expire_nx s now k seconds).0 later q ≡ (
          if k == q
          then live later (expire_once (now + seconds) (entry s now k))
          else entry s later q)

pub record RedisRateLimiter : Type 0 where
  pub limit : ℕ
  pub window : ℕ

abbrev pub limit_key : Text → Text
limit_key identity = codes "ratelimit:" ++ identity

module _ (redis : Redis) where
  open redis use {Server, incr, expire_nx}

  -- The server afterwards, whether the request is allowed, and how many remain.
  unfoldable pub check : RedisRateLimiter → Server → ℕ → Text → Server × Bool × ℕ
  check l s now identity =
      let key = limit_key identity in
      let (counted, count) = incr s now key in
      let (after, renewed) = expire_nx counted now key l.window in
      (after, leb count l.limit, l.limit - count)

  abbrev pub redis_limiter : RateLimiter
  redis_limiter = record {
    State = RedisRateLimiter × Server;
    check = λ s now identity.
        let (after, allowed, remaining) = check s.0 s.1 now identity in
        ((s.0, after), allowed, remaining);
    limit = λ s. s.0.limit;
  }
