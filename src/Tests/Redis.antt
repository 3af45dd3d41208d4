-- ===== src/Tests/Redis.antt =====
-- The Redis limiter on a server that is a dictionary.
use smart_travel_aggregator.Prelude.{
  ℕ, ◌+◌, ◌-◌, ◌≤◌, ◌≡◌, refl, inl, inr, true, false, Option, none, some, List, [], ◌∷◌, ◌++◌, map,
  arith, if◌then◌else◌, Option-cases, ◌==◌, nat_eq, list_eq,
}
use smart_travel_aggregator.Prelude.Text.{Text, codes, text_eq_iff}
use smart_travel_aggregator.Prelude.Dict.{Dict}
use smart_travel_aggregator.Prelude.Dict
use smart_travel_aggregator.Core.RateLimit.Redis.{
  Entry, live, increment, expire_once, Redis, RedisRateLimiter,
}
use smart_travel_aggregator.Core.RateLimit.Decisions.{Event}
use smart_travel_aggregator.Core.RateLimit.Redis.FixedWindow.{run, decide_all, run-empty}
use smart_travel_aggregator.Core.RateLimit.Redis.Renewal.{run-renewed}

abbrev Server : Type 0
Server = Dict Text (ℕ × Option ℕ)

abbrev entry_plain : Server → ℕ → Text → Entry
entry_plain s now k = live now (Dict.get s k)

abbrev put : Server → Text → Entry → Server
put s k none = s
put s k (some held) = Dict.set s k held

live-none : (now later : ℕ) (e : Entry) → now ≤ later → live now e ≡ none → live later e ≡ none
live-none now later none h gone = refl
live-none now later (some (n, none)) h gone = absurd (ground arith)
live-none now later (some (n, some e)) h gone = ground arith

entry-incr_plain :
    (s : Server) (now later : ℕ) (k q : Text)
    → now ≤ later
    → entry_plain (Dict.set s k (increment (entry_plain s now k))) later q ≡ (
        if k == q
        then live later (some (increment (entry_plain s now k)))
        else entry_plain s later q)
entry-incr_plain s now later k q h =
    ground (arith, Dict.get-set s k (increment (entry_plain s now k)) q)

entry-expire_plain :
    (s : Server) (now later : ℕ) (k : Text) (seconds : ℕ) (q : Text)
    → now ≤ later
    → entry_plain (put s k (expire_once (now + seconds) (entry_plain s now k))) later q ≡ (
        if k == q
        then live later (expire_once (now + seconds) (entry_plain s now k))
        else entry_plain s later q)
entry-expire_plain s now later k seconds q h = elim (Option-cases (entry_plain s now k)) [
  | inl gone ↦ ground (arith, gone, live-none now later (Dict.get s k) h gone, text_eq_iff k q)
  | inr ((n, none), held) ↦ ground (arith, held, Dict.get-set s k (n, some (now + seconds)) q)
  | inr ((n, some e), held) ↦ ground (arith, held, Dict.get-set s k (n, some e) q)
]

unfoldable plain_redis : Redis
unfolding Dict.get
plain_redis = record {
  Server = Server;
  empty = [];
  incr = λ s now k.
      (Dict.set s k (increment (entry_plain s now k)), (increment (entry_plain s now k)).0);
  expire_nx = λ s now k seconds. (put s k (expire_once (now + seconds) (entry_plain s now k)), 1);
  entry = entry_plain;
  entry-empty = λ now k. refl;
  incr-reply = λ s now k. refl;
  entry-incr = entry-incr_plain;
  entry-expire_nx = entry-expire_plain;
}

abbrev two_a_minute : RedisRateLimiter
two_a_minute = record { limit = 2; window = 60 }

abbrev requests : List (Text × ℕ)
requests = (codes "a", 0) ∷ (codes "a", 1) ∷ (codes "b", 2) ∷ (codes "a", 3) ∷ []

run-empty_example :
    run plain_redis two_a_minute plain_redis.empty [] requests ≡ decide_all two_a_minute [] requests
run-empty_example =
    run-empty plain_redis two_a_minute requests
      (omega arith, (omega arith, (omega arith, (omega arith, tt))))

-- The third request of `a` in its window is refused.
third_refused :
    map (λ (e : Event). e.allowed) (decide_all two_a_minute [] requests)
    ≡ true ∷ true ∷ true ∷ false ∷ []
unfolding decide_all smart_travel_aggregator.Core.RateLimit.Redis.FixedWindow.decide
    smart_travel_aggregator.Core.RateLimit.Redis.FixedWindow.last_window
third_refused = refl

run-renewed_example :
    run plain_redis two_a_minute plain_redis.empty [] (requests ++ (codes "a", 63) ∷ [])
    ≡ run plain_redis two_a_minute plain_redis.empty [] requests
      ++ record { identity = codes "a"; time = 63; allowed = true; remaining = 2 - 1 } ∷ []
run-renewed_example =
    run-renewed plain_redis two_a_minute requests (codes "a") 63 (omega arith)
      (omega arith, (omega arith, (omega arith, (omega arith, (omega arith, tt)))))
      ((λ e. omega arith), ((λ e. omega arith), ((λ e. omega arith), ((λ e. omega arith), tt))))
