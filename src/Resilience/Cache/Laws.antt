-- ===== src/Resilience/Cache/Laws.antt =====
-- `InMemoryCache` implements the interface `Cache`.
use smart_travel_aggregator.Prelude.{
  ℕ, ◌+◌, ◌≤◌, ◌≡◌, ◌⊎◌, Option, none, some, arith, ltb, leb, if◌then◌else◌, ◌==◌, nat_eq, list_eq,
}
use smart_travel_aggregator.Prelude.Dict
use smart_travel_aggregator.Prelude.Text.{Text, text_eq_iff}
use smart_travel_aggregator.Resilience.Cache.{Cache}
use smart_travel_aggregator.Resilience.Cache.InMemory
use smart_travel_aggregator.Resilience.Cache.InMemory.{InMemoryCache}

-- What a read finds, by the entry under the key.
abbrev live : Option (Text × ℕ) → ℕ → Option Text
live none now = none
live (some (value, expires_at)) now = if leb expires_at now then none else some value

get-live :
    (c : InMemoryCache) (now : ℕ) (k : Text)
    → (InMemory.get c now k).1 ≡ live (Dict.get c.store k) now
unfolding InMemory.get
get-live c now k = ground arith

-- A value that was set is found under its key exactly until its time to live has passed, and what
-- is found under other keys is unchanged.
pub get-set :
    (c : InMemoryCache) (now later : ℕ) (k v : Text) (ttl : ℕ) (q : Text)
    → (InMemory.get (InMemory.set c now k v ttl) later q).1 ≡ (
        if k == q
        then (if ltb later (now + ttl) then some v else none)
        else (InMemory.get c later q).1)
unfolding InMemory.set
get-set c now later k v ttl q = ground (
  arith,
  get-live (InMemory.set c now k v ttl) later q,
  get-live c later q,
  Dict.get-set c.store k (v, now + ttl) q,
)

get_store :
    (c : InMemoryCache) (now : ℕ) (k q : Text)
    → (Dict.get (InMemory.get c now k).0.store q ≡ Dict.get c.store q)
      ⊎ ((live (Dict.get c.store q) now ≡ none)
          × (Dict.get (InMemory.get c now k).0.store q ≡ none))
unfolding InMemory.get
get_store c now k q = ground (arith, Dict.get-del c.store k q, text_eq_iff k q)

live_later :
    (o : Option (Text × ℕ)) (now later : ℕ) → now ≤ later → live o now ≡ none → live o later ≡ none
live_later o now later h e = ground arith

-- Dropping an expired entry on a read is invisible: no later read finds anything else.
pub get-get :
    (c : InMemoryCache) (now later : ℕ) (k q : Text)
    → now ≤ later
    → (InMemory.get (InMemory.get c now k).0 later q).1 ≡ (InMemory.get c later q).1
get-get c now later k q h = ground (
  arith,
  get-live (InMemory.get c now k).0 later q,
  get-live c later q,
  get_store c now k q,
  live_later (Dict.get c.store q) now later,
)

pub get-delete :
    (c : InMemoryCache) (now : ℕ) (k q : Text)
    → (InMemory.get (InMemory.delete c k) now q).1
      ≡ (if k == q then none else (InMemory.get c now q).1)
unfolding InMemory.delete
get-delete c now k q =
    ground (arith, get-live (InMemory.delete c k) now q, get-live c now q, Dict.get-del c.store k q)

pub get_earlier :
    (c : InMemoryCache) (now later : ℕ) (k v : Text)
    → now ≤ later
    → (InMemory.get c later k).1 ≡ some v
    → (InMemory.get c now k).1 ≡ some v
get_earlier c now later k v h e = ground (arith, get-live c later k, get-live c now k)

unfoldable pub in_memory : Cache
in_memory = record {
  Store = InMemoryCache;
  get = InMemory.get;
  set = InMemory.set;
  delete = InMemory.delete;
  get-set = get-set;
  get-get = get-get;
  get-delete = get-delete;
  get_earlier = get_earlier;
}
