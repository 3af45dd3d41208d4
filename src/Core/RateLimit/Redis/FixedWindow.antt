-- ===== src/Core/RateLimit/Redis/FixedWindow.antt =====
-- The Redis limiter of app/core/rate_limit.py counts the requests of each identity in fixed windows.
use smart_travel_aggregator.Prelude.{
  ℕ, ◌+◌, ◌-◌, ◌≤◌, ◌≡◌, refl, ap, ◌∙◌, inl, inr, Option, none, some, List, [], ◌∷◌, ◌++◌, arith,
  ltb, leb, if◌then◌else◌, Bool-cases, ◌==◌, ==_refl, nat_eq, list_eq,
}
use smart_travel_aggregator.Prelude.Text.{Text, text_eq_iff}
use smart_travel_aggregator.Core.RateLimit.Redis.{
  Entry, live, increment, expire_once, Redis, RedisRateLimiter, limit_key, check,
}
use smart_travel_aggregator.Core.RateLimit.Decisions.{Event, Ascends}

-- The start of the window that a request falls into, and its number there: the window that is open,
-- or a new one.
abbrev pub next_window : ℕ → ℕ → Option (ℕ × ℕ) → ℕ × ℕ
next_window window now none = (now, 1)
next_window window now (some (start, n)) =
    if ltb now (start + window) then (start, n + 1) else (now, 1)

-- The last window of an identity after some requests, oldest first, allowed or not.
unfoldable pub last_window : ℕ → Text → Option (ℕ × ℕ) → List Event → Option (ℕ × ℕ)
last_window window q open_ [] = open_
last_window window q open_ (e ∷ es) =
    last_window window q (if e.identity == q then some (next_window window e.time open_) else open_)
      es

-- What the limiter promises: the first `limit` requests of each window are allowed.
unfoldable pub decide : RedisRateLimiter → List Event → Text → ℕ → Event
decide l past identity now =
    let (start, n) = next_window l.window now (last_window l.window identity none past) in
    record { identity = identity; time = now; allowed = leb n l.limit; remaining = l.limit - n }

unfoldable pub decide_all : RedisRateLimiter → List Event → List (Text × ℕ) → List Event
decide_all l past [] = past
decide_all l past ((identity, now) ∷ requests) =
    decide_all l (past ++ decide l past identity now ∷ []) requests

last_window-append :
    (window : ℕ) (q : Text) (es : List Event) (e : Event) (open_ : Option (ℕ × ℕ))
    → last_window window q open_ (es ++ e ∷ []) ≡ (
        if e.identity == q
        then some (next_window window e.time (last_window window q open_ es))
        else last_window window q open_ es)
unfolding last_window
last_window-append window q [] e open_ = refl
last_window-append window q (x ∷ es) e open_ = last_window-append window q es e _

-- What the key of an identity holds, by its last window.
abbrev pub entry_of : ℕ → Option (ℕ × ℕ) → Entry
entry_of window none = none
entry_of window (some (start, n)) = some (n, some (start + window))

counted :
    (window now : ℕ) (o : Option (ℕ × ℕ))
    → (increment (live now (entry_of window o))).0 ≡ (next_window window now o).1
counted window now none = refl
counted window now (some (start, n)) = ground arith

renewed :
    (window now later : ℕ) (o : Option (ℕ × ℕ))
    → live later
        (expire_once (now + window) (live now (some (increment (live now (entry_of window o))))))
      ≡ live later (entry_of window (some (next_window window now o)))
renewed window now later none = refl
renewed window now later (some (start, n)) = ground arith

key_eq : (p q : Text) → (limit_key p == limit_key q) ≡ (p == q)
key_eq p q = refl

module _ (redis : Redis) (l : RedisRateLimiter) where
  open redis use {Server, empty, incr, expire_nx, entry}

  -- The limiter run on a sequence of requests.
  unfoldable pub run : Server → List Event → List (Text × ℕ) → List Event
  run s past [] = past
  run s past ((identity, now) ∷ requests) =
      let (after, allowed, remaining) = check redis l s now identity in
      let e : Event = record {
        identity = identity;
        time = now;
        allowed = allowed;
        remaining = remaining;
      } in
      run after (past ++ e ∷ []) requests

  -- From a time on, the keys hold the last windows of the events.
  abbrev Agrees : Server → ℕ → List Event → Type 0
  Agrees s now past =
      (later : ℕ) (q : Text)
      → now ≤ later
      → entry s later (limit_key q)
        ≡ live later (entry_of l.window (last_window l.window q none past))

  check_lem :
      (s : Server) (t now : ℕ) (past : List Event) (identity : Text)
      → t ≤ now
      → Agrees s t past
      → let (after, allowed, remaining) = check redis l s now identity in
        let e = decide l past identity now in
        (allowed ≡ e.allowed) × (remaining ≡ e.remaining) × Agrees after now (past ++ e ∷ [])
  unfolding check decide
  check_lem s t now past identity goes agrees =
      let o = last_window l.window identity none past in
      let count : (incr s now (limit_key identity)).1 ≡ (next_window l.window now o).1 =
        redis.incr-reply s now (limit_key identity)
        ∙ ap (λ x. (increment x).0) (agrees now identity goes)
        ∙ counted l.window now o in
      (
        ap (λ n. leb n l.limit) count,
        ap (λ n. l.limit - n) count,
        λ later q still.
            let key = limit_key identity in
            let after = (incr s now key).0 in
            let held = redis.entry-expire_nx after now later key l.window (limit_key q) still in
            let appended = last_window-append l.window q past (decide l past identity now) none in
            elim (Bool-cases (identity == q)) [
              | inl same ↦
                  let is : identity ≡ q = (text_eq_iff identity q).0 same in
                  let first : entry after now key
                      ≡ live now (some (increment (live now (entry_of l.window o)))) =
                    redis.entry-incr s now now key key (omega arith)
                    ∙ ground (arith, ==_refl key, agrees now identity goes) in
                  rw (held, appended, same, first, ← is) (renewed l.window now later o)
              | inr other ↦
                  rw
                    (
                      held,
                      appended,
                      other,
                      redis.entry-incr s now later key (limit_key q) still,
                      other,
                      agrees later q (omega (arith, goes, still)),
                    )
                    refl
            ],
      )

  run_lem :
      (requests : List (Text × ℕ)) (s : Server) (t : ℕ) (past : List Event)
      → Ascends t requests
      → Agrees s t past
      → run s past requests ≡ decide_all l past requests
  unfolding run decide_all decide
  run_lem [] s t past goes agrees = refl
  run_lem ((identity, now) ∷ requests) s t past goes agrees =
      let (allowed, remaining, after) = check_lem s t now past identity goes.0 agrees in
      rw (allowed, remaining) (run_lem requests _ now _ goes.1 after)

  -- On every sequence of requests with times that do not decrease, the limiter on an empty server
  -- gives each request the answer and the remaining count of counters for fixed windows that are
  -- kept for each identity apart.
  pub run-empty :
      (requests : List (Text × ℕ))
      → Ascends 0 requests
      → run empty [] requests ≡ decide_all l [] requests
  unfolding last_window
  run-empty requests goes =
      run_lem requests empty 0 [] goes λ later q still. redis.entry-empty later (limit_key q)
