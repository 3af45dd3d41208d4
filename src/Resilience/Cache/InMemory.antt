-- ===== src/Resilience/Cache/InMemory.antt =====
-- `InMemoryCache` of app/resilience/cache.py: each value with the time at which it expires. Each
-- method holds the lock from its first to its last line.
use smart_travel_aggregator.Prelude.{
  ℕ, ◌+◌, Option, none, some, [], leb, if◌then◌else◌, nat_eq, list_eq,
}
use smart_travel_aggregator.Prelude.Dict.{Dict}
use smart_travel_aggregator.Prelude.Dict
use smart_travel_aggregator.Prelude.Text.{Text}

pub record InMemoryCache : Type 0 where
  pub store : Dict Text (Text × ℕ)

unfoldable pub init : InMemoryCache
init = record { store = [] }

-- An entry that has expired is dropped when it is read.
unfoldable pub get : InMemoryCache → ℕ → Text → InMemoryCache × Option Text
get c now key = elim (Dict.get c.store key) [
  | none ↦ (c, none)
  | some (value, expires_at) ↦
      if leb expires_at now
      then (record c { store = Dict.del c.store key }, none)
      else (c, some value)
]

unfoldable pub set : InMemoryCache → ℕ → Text → Text → ℕ → InMemoryCache
set c now key value ttl = record c { store = Dict.set c.store key (value, now + ttl) }

unfoldable pub delete : InMemoryCache → Text → InMemoryCache
delete c key = record c { store = Dict.del c.store key }

unfoldable pub clear : InMemoryCache → InMemoryCache
clear c = record c { store = [] }
