-- ===== src/Core/RateLimit/Redis/Renewal.antt =====
-- The Redis limiter of app/core/rate_limit.py refuses no identity for ever.
use smart_travel_aggregator.Prelude.{
  ℕ, ◌+◌, ◌-◌, ◌≤◌, ◌<◌, ◌≡◌, refl, sym, ap, ◌∙◌, subst, inl, inr, true, Option, none, some, List,
  [], ◌∷◌, ◌++◌, arith, ltb, if◌then◌else◌, Bool-cases, Option-cases, ◌==◌, nat_eq, list_eq, All,
  All-append,
}
use smart_travel_aggregator.Prelude.Text.{Text, text_eq_iff}
use smart_travel_aggregator.Core.RateLimit.Redis.{Redis, RedisRateLimiter}
use smart_travel_aggregator.Core.RateLimit.Decisions.{Event, Ascends}
use smart_travel_aggregator.Core.RateLimit.Redis.FixedWindow.{
  next_window, last_window, decide, decide_all, run, run-empty,
}

-- A window that is over at a time.
abbrev IsOver : ℕ → ℕ → Option (ℕ × ℕ) → Type 0
IsOver window now none = Unit
IsOver window now (some (start, n)) = start + window ≤ now

next_window-IsOver :
    (window now : ℕ) (q : Text) (e : Event) (o : Option (ℕ × ℕ))
    → (e.identity ≡ q → e.time + window ≤ now)
    → IsOver window now o
    → IsOver window now (if e.identity == q then some (next_window window e.time o) else o)
next_window-IsOver window now q e none old over = elim (Bool-cases (e.identity == q)) [
  | inl same ↦ rw same (old ((text_eq_iff e.identity q).0 same))
  | inr other ↦ rw other tt
]
next_window-IsOver window now q e (some (start, n)) old over = elim (Bool-cases (e.identity == q)) [
  | inl same ↦ elim (Bool-cases (ltb e.time (start + window))) [
    | inl inside ↦ rw (same, inside) over
    | inr later ↦ rw (same, later) (old ((text_eq_iff e.identity q).0 same))
  ]
  | inr other ↦ rw other over
]

last_window-IsOver :
    (window now : ℕ) (q : Text) (past : List Event) (o : Option (ℕ × ℕ))
    → All (λ e. e.identity ≡ q → e.time + window ≤ now) past
    → IsOver window now o
    → IsOver window now (last_window window q o past)
unfolding last_window
last_window-IsOver window now q [] o old over = over
last_window-IsOver window now q (e ∷ past) o old over =
    last_window-IsOver window now q past _ old.1 (next_window-IsOver window now q e o old.0 over)

-- Every event of a sequence of requests stands at the place of its request.
decide_all-All :
    (l : RedisRateLimiter) (P : Text → ℕ → Type 0) (requests : List (Text × ℕ)) (past : List Event)
    → All (λ r. P r.0 r.1) requests
    → All (λ e. P e.identity e.time) past
    → All (λ e. P e.identity e.time) (decide_all l past requests)
unfolding decide_all decide
decide_all-All l P [] past k h = h
decide_all-All l P ((identity, now) ∷ requests) past k h =
    decide_all-All l P requests _ k.1
      (All-append (λ e. P e.identity e.time) past (decide l past identity now ∷ []) h (k.0, tt))

Ascends-append :
    (requests later : List (Text × ℕ)) (t : ℕ) → Ascends t (requests ++ later) → Ascends t requests
Ascends-append [] later t h = tt
Ascends-append ((q, now) ∷ requests) later t h = (h.0, Ascends-append requests later now h.1)

decide_all-append :
    (l : RedisRateLimiter) (requests : List (Text × ℕ)) (past : List Event) (q : Text) (now : ℕ)
    → decide_all l past (requests ++ (q, now) ∷ [])
      ≡ decide_all l past requests ++ decide l (decide_all l past requests) q now ∷ []
unfolding decide_all
decide_all-append l [] past q now = refl
decide_all-append l ((identity, t) ∷ requests) past q now =
    decide_all-append l requests (past ++ decide l past identity t ∷ []) q now

decide_renewed :
    (l : RedisRateLimiter) (past : List Event) (q : Text) (now : ℕ)
    → 0 < l.limit
    → IsOver l.window now (last_window l.window q none past)
    → decide l past q now
      ≡ record { identity = q; time = now; allowed = true; remaining = l.limit - 1 }
unfolding decide
decide_renewed l past q now positive over = elim (Option-cases (last_window l.window q none past)) [
  | inl new ↦ rw new (ground arith)
  | inr ((start, n), opened) ↦
      let ends : start + l.window ≤ now = subst (IsOver l.window now) opened over in
      rw opened (ground arith)
]

module _ (redis : Redis) (l : RedisRateLimiter) where
  -- A request that comes a window or more after all earlier requests of its identity is allowed and
  -- opens a new window, however many of the earlier ones were refused: no identity is refused for ever.
  pub run-renewed :
      (requests : List (Text × ℕ)) (q : Text) (now : ℕ)
      → 0 < l.limit
      → Ascends 0 (requests ++ (q, now) ∷ [])
      → All (λ r. r.0 ≡ q → r.1 + l.window ≤ now) requests
      → run redis l redis.empty [] (requests ++ (q, now) ∷ [])
        ≡ run redis l redis.empty [] requests
          ++ record { identity = q; time = now; allowed = true; remaining = l.limit - 1 } ∷ []
  run-renewed requests q now positive goes old =
      let past = decide_all l [] requests in
      run-empty redis l (requests ++ (q, now) ∷ []) goes
      ∙ decide_all-append l requests [] q now
      ∙ ap (λ e. past ++ e ∷ [])
          (decide_renewed l past q now positive (
            last_window-IsOver l.window now q past none
              (decide_all-All l (λ i t. i ≡ q → t + l.window ≤ now) requests [] old tt) tt))
      ∙ ap
          (λ es.
            es ++ record { identity = q; time = now; allowed = true; remaining = l.limit - 1 } ∷ [])
          (sym (run-empty redis l requests (Ascends-append requests ((q, now) ∷ []) 0 goes)))
