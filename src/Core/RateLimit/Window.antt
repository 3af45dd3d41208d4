-- ===== src/Core/RateLimit/Window.antt =====
-- What the in-memory limiter of app/core/rate_limit.py guarantees over time: the bound on a sliding
-- window, and what a sweep leaves in memory.
use smart_travel_aggregator.Prelude.{
  ℕ, ◌+◌, ◌≤◌, ◌≡◌, ◌≢◌, Bool, true, ◌&&◌, Option, none, some, List, [], ◌∷◌, ◌++◌, arith, ltb, leb,
  nat_eq, list_eq, length, filter, any, length-append, filter-append,
}
use smart_travel_aggregator.Prelude.Dict
use mathlib.Core.List.{append-nil}
use smart_travel_aggregator.Prelude.Text.{Text, text_eq_iff}
use smart_travel_aggregator.Core.RateLimit.{
  InMemoryRateLimiter, init, is_recent, sweep, hits_of, check,
}
use smart_travel_aggregator.Core.RateLimit.Decisions.{
  Event, allowed_times, decide, decide_all, run, Ascends, run-init, allowed_times-append,
}

-- Whether a time lies in the window of length `window` that ends at `t`, its start excluded.
abbrev pub in_window : ℕ → ℕ → ℕ → Bool
in_window window t ts = ltb t (ts + window) && leb ts t

in_window-le :
    (window t now : ℕ) (ts : List ℕ)
    → now ≤ t
    → length (filter (in_window window t) ts) ≤ length (filter (is_recent window now) ts)
in_window-le window t now [] h = omega arith
in_window-le window t now (x ∷ ts) h = ground (arith, in_window-le window t now ts h)

-- Every window holds at most `limit` allowed times of every identity.
abbrev Bounded : ℕ → ℕ → List Event → Type 0
Bounded limit window past =
    (q : Text) (t : ℕ) → length (filter (in_window window t) (allowed_times q past)) ≤ limit

decide-Bounded :
    (limit window : ℕ) (past : List Event) (identity : Text) (now : ℕ)
    → Bounded limit window past
    → Bounded limit window (past ++ decide limit window past identity now ∷ [])
unfolding decide allowed_times
decide-Bounded limit window past identity now b q t = ground (
  arith,
  b q t,
  allowed_times-append q past (decide limit window past identity now ∷ []),
  in_window-le window t now (allowed_times q past),
  text_eq_iff identity q,
  filter-append (in_window window t) (allowed_times q past) (now ∷ []),
  append-nil (allowed_times q past),
  length-append (filter (in_window window t) (allowed_times q past))
      (filter (in_window window t) (now ∷ [])),
)

decide_all-Bounded :
    (limit window : ℕ) (requests : List (Text × ℕ)) (past : List Event)
    → Bounded limit window past
    → Bounded limit window (decide_all limit window past requests)
unfolding decide_all
decide_all-Bounded limit window [] past b = b
decide_all-Bounded limit window ((identity, now) ∷ requests) past b =
    decide_all-Bounded limit window requests _ (decide-Bounded limit window past identity now b)

-- On every sequence of requests with times that do not decrease, a new limiter allows every
-- identity at most `limit` requests in every window of `window` ticks, wherever the window ends.
pub run-le_limit :
    (limit window clock : ℕ) (requests : List (Text × ℕ)) (q : Text) (t : ℕ)
    → Ascends clock requests
    → length
        (filter (in_window window t) (allowed_times q (run (init limit window clock) [] requests)))
      ≤ limit
unfolding allowed_times
run-le_limit limit window clock requests q t a =
    rw (run-init limit window clock requests a)
      (decide_all-Bounded limit window requests [] (λ q' t'. omega arith) q t)

sweep_due :
    (l : InMemoryRateLimiter) (now : ℕ)
    → l.last_sweep + l.window ≤ now
    → sweep l now
      ≡ record l { hits = Dict.prune (any (is_recent l.window now)) l.hits; last_sweep = now }
unfolding sweep
sweep_due l now due = ground arith

check_others :
    (l : InMemoryRateLimiter) (now : ℕ) (identity q : Text)
    → identity ≢ q
    → (Dict.get (check l now identity).0.hits q ≡ Dict.get (sweep l now).hits q)
      × ((check l now identity).0.last_sweep ≡ (sweep l now).last_sweep)
unfolding check
check_others l now identity q other =
    let recent = filter (is_recent l.window now) (hits_of (sweep l now) identity) in
    ground (
      arith,
      text_eq_iff identity q,
      Dict.get-set (sweep l now).hits identity recent q,
      Dict.get-set (sweep l now).hits identity (recent ++ now ∷ []) q,
    )

keep_if_found :
    {V : Type 0} (p : V → Bool) (o : Option V) (v : V) → Dict.keep_if p o ≡ some v → p v ≡ true
keep_if_found p none v e = cc
keep_if_found p (some w) v e = ground arith

-- A check that comes a window or more after the last sweep records itself as the last sweep, and
-- every other identity that it leaves in memory has a recent time.
pub check_sweeps :
    (l : InMemoryRateLimiter) (now : ℕ) (identity q : Text) (ts : List ℕ)
    → Dict.IsUnique l.hits
    → l.last_sweep + l.window ≤ now
    → identity ≢ q
    → Dict.get (check l now identity).0.hits q ≡ some ts
    → ((check l now identity).0.last_sweep ≡ now) × (any (is_recent l.window now) ts ≡ true)
check_sweeps l now identity q ts u due other found =
    let (same, at) = check_others l now identity q other in
    let swept = sweep_due l now due in
    (
      rw (at, swept),
      keep_if_found (any (is_recent l.window now)) (Dict.get l.hits q) ts
          (rw (same, swept, Dict.get-prune (any (is_recent l.window now)) l.hits q u) at found),
    )
