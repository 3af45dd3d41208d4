-- ===== src/Resilience/Cache.antt =====
-- app/resilience/cache.py. What business code may rely on is the interface `Cache`: its three
-- operations, and what a later `get` finds. `InMemoryCache` implements it in the child modules.
-- The store of a Redis server is another value of the interface, which the code under app/ does
-- not define: `RedisCache` passes each call on to the client. A time is a whole number of ticks of
-- `time.monotonic`.
pub mod InMemory
pub mod Laws
use smart_travel_aggregator.Prelude.{
  ℕ, ◌+◌, ◌≤◌, ◌≡◌, Option, none, some, ltb, if◌then◌else◌, ◌==◌, nat_eq, list_eq,
}
use smart_travel_aggregator.Prelude.Text.{Text}

pub record Cache : Type 1 where
  pub Store : Type 0
  -- `get` at a time: the store afterwards, and the value.
  pub get : Store → ℕ → Text → Store × Option Text
  -- `set(key, value, ttl)` at a time.
  pub set : Store → ℕ → Text → Text → ℕ → Store
  pub delete : Store → Text → Store
  -- A value is found under its key for `ttl` ticks, and other keys are untouched.
  pub get-set :
      (s : Store) (now later : ℕ) (k v : Text) (ttl : ℕ) (q : Text)
      → (get (set s now k v ttl) later q).1
        ≡ (if k == q then (if ltb later (now + ttl) then some v else none) else (get s later q).1)
  -- A read changes no later read.
  pub get-get :
      (s : Store) (now later : ℕ) (k q : Text)
      → now ≤ later
      → (get (get s now k).0 later q).1 ≡ (get s later q).1
  pub get-delete :
      (s : Store) (now : ℕ) (k q : Text)
      → (get (delete s k) now q).1 ≡ (if k == q then none else (get s now q).1)
  -- What is found later was found before.
  pub get_earlier :
      (s : Store) (now later : ℕ) (k v : Text)
      → now ≤ later
      → (get s later k).1 ≡ some v
      → (get s now k).1 ≡ some v
