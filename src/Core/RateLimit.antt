-- ===== src/Core/RateLimit.antt =====
-- app/core/rate_limit.py. A time is a whole number of clock ticks, and so is the window. The lock is
-- held from the sweep to the end of `check`, so a check is one step.
pub mod Decisions
pub mod Window
pub mod Redis
use smart_travel_aggregator.Prelude.{
  ℕ, zero, suc, ◌+◌, ◌-◌, ◌*◌, ◌/◌, ◌%◌, ◌^◌, ◌≤◌, ◌<◌, min, max, ◌≡◌, refl, sym, ap, ◌∙◌, subst,
  ◌≢◌, ◌↔◌, ◌⊎◌, inl, inr, Bool, true, false, ◌&&◌, ◌||◌, not, Option, none, some, List, [], ◌∷◌,
  ◌++◌, map, arith, ltb, leb, eqb, if◌then◌else◌, ltb→lt, lt→ltb, leb→le, le→leb, eqb_iff,
  Bool-cases, Option-cases, is_some, Eq, ◌==◌, ==_refl, nat_eq, list_eq, length, take, drop, filter,
  any, all, All, length-append, length-take, length-drop, take-append-drop, length-filter-le,
  filter-append, All-append, All-imp, All-both, All-filter, filter-All, length-map, All-map,
  All-reverse, replicate,
}
use smart_travel_aggregator.Prelude.Dict.{Dict}
use smart_travel_aggregator.Prelude.Dict
use smart_travel_aggregator.Prelude.Text.{Text}

pub record InMemoryRateLimiter : Type 0 where
  pub limit : ℕ
  pub window : ℕ
  pub hits : Dict Text (List ℕ)
  pub last_sweep : ℕ

unfoldable pub init : ℕ → ℕ → ℕ → InMemoryRateLimiter
init limit window clock = record { limit = limit; window = window; hits = []; last_sweep = clock }

-- `ts > cutoff`, where `cutoff = now - window`.
abbrev pub is_recent : ℕ → ℕ → ℕ → Bool
is_recent window now ts = ltb now (ts + window)

unfoldable pub sweep : InMemoryRateLimiter → ℕ → InMemoryRateLimiter
sweep l now =
    if ltb now (l.last_sweep + l.window)
    then l
    else record l { hits = Dict.prune (any (is_recent l.window now)) l.hits; last_sweep = now }

abbrev pub or_empty : Option (List ℕ) → List ℕ
or_empty none = []
or_empty (some ts) = ts

-- `self._hits.get(identity, [])`
abbrev pub hits_of : InMemoryRateLimiter → Text → List ℕ
hits_of l identity = or_empty (Dict.get l.hits identity)

-- What every limiter offers: `check`, and the limit.
pub record RateLimiter : Type 1 where
  pub State : Type 0
  pub check : State → ℕ → Text → State × Bool × ℕ
  pub limit : State → ℕ

-- The limiter afterwards, whether the request is allowed, and how many remain.
unfoldable pub check : InMemoryRateLimiter → ℕ → Text → InMemoryRateLimiter × Bool × ℕ
check l now identity =
    let l' = sweep l now in
    let recent = filter (is_recent l.window now) (hits_of l' identity) in
    let added = recent ++ now ∷ [] in
    if leb l.limit (length recent)
    then (record l' { hits = Dict.set l'.hits identity recent }, false, 0)
    else (record l' { hits = Dict.set l'.hits identity added }, true, l.limit - length added)

abbrev pub in_memory : RateLimiter
in_memory = record { State = InMemoryRateLimiter; check = check; limit = λ l. l.limit }
