-- ===== src/Core/RateLimit/Decisions.antt =====
-- The in-memory limiter of app/core/rate_limit.py decides as a limiter that forgets nothing.
use smart_travel_aggregator.Prelude.{
  ℕ, ◌+◌, ◌-◌, ◌≤◌, ◌≡◌, refl, Bool, false, ◌&&◌, Option, none, some, List, [], ◌∷◌, ◌++◌, arith,
  ltb, if◌then◌else◌, ◌==◌, nat_eq, list_eq, length, filter, any, length-append, filter-append,
}
use smart_travel_aggregator.Prelude.Dict
use mathlib.Core.List.{append-nil}
use smart_travel_aggregator.Prelude.Text.{Text, text_eq_iff}
use smart_travel_aggregator.Core.RateLimit.{
  or_empty, InMemoryRateLimiter, init, is_recent, sweep, hits_of, check,
}

pub record Event : Type 0 where
  pub identity : Text
  pub time : ℕ
  pub allowed : Bool
  pub remaining : ℕ

-- The times at which an identity was allowed, oldest first.
unfoldable pub allowed_times : Text → List Event → List ℕ
allowed_times q [] = []
allowed_times q (e ∷ es) =
    if e.allowed && e.identity == q then e.time ∷ allowed_times q es else allowed_times q es

-- What the limiter promises: a request is allowed while fewer than `limit` requests of its identity
-- were allowed within the window before it.
unfoldable pub decide : ℕ → ℕ → List Event → Text → ℕ → Event
decide limit window past identity now =
    let n = length (filter (is_recent window now) (allowed_times identity past)) in
    record { identity = identity; time = now; allowed = ltb n limit; remaining = limit - (n + 1) }

unfoldable pub decide_all : ℕ → ℕ → List Event → List (Text × ℕ) → List Event
decide_all limit window past [] = past
decide_all limit window past ((identity, now) ∷ requests) =
    decide_all limit window (past ++ decide limit window past identity now ∷ []) requests

-- The limiter run on a sequence of requests: the events so far, then one for each request.
unfoldable pub run : InMemoryRateLimiter → List Event → List (Text × ℕ) → List Event
run l past [] = past
run l past ((identity, now) ∷ requests) =
    let (l', allowed, remaining) = check l now identity in
    let e : Event = record {
      identity = identity;
      time = now;
      allowed = allowed;
      remaining = remaining;
    } in
    run l' (past ++ e ∷ []) requests

-- The clock does not run backwards.
abbrev pub Ascends : ℕ → List (Text × ℕ) → Type 0
Ascends now [] = Unit
Ascends now ((_, t) ∷ requests) = (now ≤ t) × Ascends t requests

pub allowed_times-append :
    (q : Text) (xs ys : List Event)
    → allowed_times q (xs ++ ys) ≡ allowed_times q xs ++ allowed_times q ys
unfolding allowed_times
allowed_times-append q [] ys = refl
allowed_times-append q (x ∷ xs) ys = ground (arith, allowed_times-append q xs ys)

-- A time that is recent later was recent before.
filter_recent :
    (window now later : ℕ) (ts : List ℕ)
    → now ≤ later
    → filter (is_recent window later) (filter (is_recent window now) ts)
      ≡ filter (is_recent window later) ts
filter_recent window now later [] h = refl
filter_recent window now later (t ∷ ts) h = ground (arith, filter_recent window now later ts h)

filter_stale :
    (window now later : ℕ) (ts : List ℕ)
    → now ≤ later
    → any (is_recent window now) ts ≡ false
    → filter (is_recent window later) ts ≡ []
filter_stale window now later [] h e = refl
filter_stale window now later (t ∷ ts) h e = ground (arith, filter_stale window now later ts h)

-- What the limiter holds agrees with the past, as far as any later check looks.
record Tracks (now : ℕ) (l : InMemoryRateLimiter) (past : List Event) : Type 0 where
  unique : Dict.IsUnique l.hits
  agree :
      (q : Text) (later : ℕ)
      → now ≤ later
      → filter (is_recent l.window later) (hits_of l q)
        ≡ filter (is_recent l.window later) (allowed_times q past)

recent-keep_if :
    (window now later : ℕ) (o : Option (List ℕ))
    → now ≤ later
    → filter (is_recent window later) (or_empty (Dict.keep_if (any (is_recent window now)) o))
      ≡ filter (is_recent window later) (or_empty o)
recent-keep_if window now later none h = refl
recent-keep_if window now later (some ts) h = ground (arith, filter_stale window now later ts h)

-- A sweep drops nothing that a later check would see.
sweep-hits :
    (l : InMemoryRateLimiter) (now later : ℕ) (q : Text)
    → Dict.IsUnique l.hits
    → now ≤ later
    → filter (is_recent l.window later) (hits_of (sweep l now) q)
      ≡ filter (is_recent l.window later) (hits_of l q)
unfolding sweep
sweep-hits l now later q u h = ground (
  arith,
  Dict.get-prune (any (is_recent l.window now)) l.hits q u,
  recent-keep_if l.window now later (Dict.get l.hits q) h,
)

sweep_kept :
    (l : InMemoryRateLimiter) (now : ℕ)
    → Dict.IsUnique l.hits
    → ((sweep l now).limit ≡ l.limit)
      × ((sweep l now).window ≡ l.window)
      × Dict.IsUnique (sweep l now).hits
unfolding sweep
sweep_kept l now u = ground (arith, Dict.prune-IsUnique (any (is_recent l.window now)) l.hits u)

-- What `check` leaves for an identity.
hits_of-check :
    (l : InMemoryRateLimiter) (now : ℕ) (identity q : Text)
    → hits_of (check l now identity).0 q ≡ (
        if identity == q
        then filter (is_recent l.window now) (hits_of (sweep l now) identity)
          ++ (if (check l now identity).1 then now ∷ [] else [])
        else hits_of (sweep l now) q)
unfolding check
hits_of-check l now identity q = ground (
  arith,
  append-nil (filter (is_recent l.window now) (hits_of (sweep l now) identity)),
  Dict.get-set (sweep l now).hits identity
      (filter (is_recent l.window now) (hits_of (sweep l now) identity)) q,
  Dict.get-set (sweep l now).hits identity
      (filter (is_recent l.window now) (hits_of (sweep l now) identity) ++ now ∷ []) q,
)

module _ {t : ℕ} {l : InMemoryRateLimiter} {past : List Event} (now : ℕ) (identity : Text)
    (tr : Tracks t l past) (h : t ≤ now) where
  abbrev recent : List ℕ
  recent = filter (is_recent l.window now) (hits_of (sweep l now) identity)

  abbrev decided : Event
  decided = decide l.limit l.window past identity now

  check-decide :
      ((check l now identity).1 ≡ decided.allowed) × ((check l now identity).2 ≡ decided.remaining)
  unfolding check decide
  check-decide = ground (
    arith,
    sweep-hits l now now identity tr.unique (omega arith),
    tr.agree identity now h,
    length-append recent (now ∷ []),
  )

  check_kept :
      ((check l now identity).0.limit ≡ l.limit)
      × ((check l now identity).0.window ≡ l.window)
      × Dict.IsUnique (check l now identity).0.hits
  unfolding check
  check_kept =
      let (lk, wk, u) = sweep_kept l now tr.unique in
      ground (
        arith,
        Dict.set-IsUnique (sweep l now).hits identity recent u,
        Dict.set-IsUnique (sweep l now).hits identity (recent ++ now ∷ []) u,
      )

  allowed_times-decide :
      (q : Text)
      → allowed_times q (past ++ decided ∷ [])
        ≡ allowed_times q past
          ++ (if (check l now identity).1 && identity == q then now ∷ [] else [])
  unfolding allowed_times decide
  allowed_times-decide q = ground (
    arith,
    allowed_times-append q past (decided ∷ []),
    check-decide,
    append-nil (allowed_times q past),
  )

  agree_after :
      (q : Text) (later : ℕ)
      → now ≤ later
      → filter (is_recent l.window later) (hits_of (check l now identity).0 q)
        ≡ filter (is_recent l.window later) (allowed_times q (past ++ decided ∷ []))
  agree_after q later le =
      let added : List ℕ = if (check l now identity).1 then now ∷ [] else [] in
      ground (
        arith,
        hits_of-check l now identity q,
        allowed_times-decide q,
        append-nil (allowed_times q past),
        filter-append (is_recent l.window later) recent added,
        filter-append (is_recent l.window later) (allowed_times q past) added,
        filter_recent l.window now later (hits_of (sweep l now) identity) le,
        sweep-hits l now later q tr.unique le,
        sweep-hits l now later identity tr.unique le,
        tr.agree q later (omega arith),
        text_eq_iff identity q,
      )

  check_event :
      ◌≡◌ {A = Event}
        (record {
          identity = identity;
          time = now;
          allowed = (check l now identity).1;
          remaining = (check l now identity).2;
        })
        decided
  unfolding decide
  check_event = ground (arith, check-decide)

  check-Tracks : Tracks now (check l now identity).0 (past ++ decided ∷ [])
  check-Tracks = record {
    unique = check_kept.2;
    agree = λ q later le. rw check_kept.1 (agree_after q later le);
  }

run-decide_all :
    (requests : List (Text × ℕ)) {t : ℕ} {l : InMemoryRateLimiter} {past : List Event}
    → Tracks t l past
    → Ascends t requests
    → run l past requests ≡ decide_all l.limit l.window past requests
unfolding run decide_all
run-decide_all [] tr a = refl
run-decide_all ((identity, now) ∷ requests) {l} {past} tr a =
    let kept = check_kept now identity tr a.0 in
    let rest = run-decide_all requests (check-Tracks now identity tr a.0) a.1 in
    rw (check_event now identity tr a.0) (rw (kept.0, kept.1) at rest)

init-Tracks : (limit window clock : ℕ) → Tracks clock (init limit window clock) []
unfolding init Dict.get allowed_times
init-Tracks limit window clock = record { unique = tt; agree = λ q later h. refl }

-- On every sequence of requests with times that do not decrease, a new limiter gives each request
-- the answer of a limiter that keeps all times for ever: pruning an identity's times and sweeping
-- out identities change no decision and no remaining count.
pub run-init :
    (limit window clock : ℕ) (requests : List (Text × ℕ))
    → Ascends clock requests
    → run (init limit window clock) [] requests ≡ decide_all limit window [] requests
unfolding init
run-init limit window clock requests a = run-decide_all requests (init-Tracks limit window clock) a
