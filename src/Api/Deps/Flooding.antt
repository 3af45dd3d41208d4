-- ===== src/Api/Deps/Flooding.antt =====
-- What a caller behind a proxy gains by inventing addresses, under `enforce_rate_limit` of
-- app/api/deps.py with the in-memory limiter.
use mathlib.Core.List.{reverse, append-nil, append_assoc}
use smart_travel_aggregator.Prelude.{
  ℕ, ◌≤◌, ◌≡◌, sym, ap, subst, inl, inr, true, false, some, List, [], ◌∷◌, ◌++◌, map, if◌then◌else◌,
  Bool-cases, ==_refl, nat_eq, list_eq, length, filter, All,
}
use smart_travel_aggregator.Prelude.Text.{Text}
use smart_travel_aggregator.Core.ClientIp.{
  IpAddresses, Request, client_ip, client_ip_forged, trusts, trusts_peer, hops_of,
}
use smart_travel_aggregator.Core.RateLimit.{InMemoryRateLimiter, in_memory, init, check}
use smart_travel_aggregator.Core.RateLimit.Decisions.{
  Event, run, Ascends, allowed_times, allowed_times-append,
}
use smart_travel_aggregator.Core.RateLimit.Window.{in_window, run-le_limit}
use smart_travel_aggregator.Services.AuthService.Sessions.{returns}
use smart_travel_aggregator.Api.Deps.{identity_of, enforce_rate_limit}

module _ (ips : IpAddresses) (networks : List (IpAddresses.Network ips)) where
  -- The times of the requests that pass, of a sequence of requests.
  unfoldable pub passed_times : InMemoryRateLimiter → List (Request × ℕ) → List ℕ
  passed_times l [] = []
  passed_times l ((request, now) ∷ requests) =
      let (after, result) = enforce_rate_limit in_memory ips networks l now request in
      let rest = passed_times after requests in if returns result then now ∷ rest else rest

  -- When all requests have one identity, these are the times at which the limiter allowed it.
  passed_times_lem :
      (q : Text) (requests : List (Request × ℕ)) (l : InMemoryRateLimiter) (past : List Event)
      → All (λ r. identity_of (client_ip ips networks r.0) ≡ q) requests
      → allowed_times q (run l past (map (λ r. (q, r.1)) requests))
        ≡ allowed_times q past ++ passed_times l requests
  unfolding passed_times run enforce_rate_limit allowed_times
  passed_times_lem q [] l past h = sym (append-nil (allowed_times q past))
  passed_times_lem q ((request, now) ∷ requests) l past h =
      let (after, allowed, remaining) = check l now q in
      let e : Event = record {
        identity = q;
        time = now;
        allowed = allowed;
        remaining = remaining;
      } in
      let rest = passed_times_lem q requests after (past ++ e ∷ []) h.1 in
      let appended = allowed_times-append q past (e ∷ []) in
      elim (Bool-cases allowed) [
        | inl is ↦
            rw (h.0, rest, appended, is, ==_refl q)
              (append_assoc (allowed_times q past) (now ∷ []) (passed_times after requests))
        | inr is ↦
            rw (h.0, rest, appended, is)
              (append_assoc (allowed_times q past) [] (passed_times after requests))
      ]

  abbrev pub from_proxy : Text → Text → Text × ℕ → Request × ℕ
  from_proxy host appended (forged, now) =
      (record { host = some host; forwarded = forged ++ b',' ∷ appended }, now)

  Ascends-from_proxy :
      (q host appended : Text) (requests : List (Text × ℕ)) (t : ℕ)
      → Ascends t requests
      → Ascends t (map (λ r. (q, r.1)) (map (from_proxy host appended) requests))
  Ascends-from_proxy q host appended [] t goes = tt
  Ascends-from_proxy q host appended ((forged, now) ∷ requests) t goes =
      (goes.0, Ascends-from_proxy q host appended requests now goes.1)

  All-from_proxy :
      (P : Request × ℕ → Type 0) (host appended : Text) (requests : List (Text × ℕ))
      → ((forged : Text) (now : ℕ) → P (from_proxy host appended (forged, now)))
      → All P (map (from_proxy host appended) requests)
  All-from_proxy P host appended [] h = tt
  All-from_proxy P host appended ((forged, now) ∷ requests) h =
      (h forged now, All-from_proxy P host appended requests h)

  -- Under the in-memory limiter a caller behind a trusted proxy passes at most `limit` requests in
  -- every window, whatever it writes into X-Forwarded-For of each, when the proxies append the
  -- address that they saw.
  pub passed_times-le_limit :
      (limit window clock : ℕ) (host appended hop : Text) (proxies : List Text)
      (requests : List (Text × ℕ)) (t : ℕ)
      → trusts_peer ips networks (some host) ≡ true
      → hops_of appended ≡ hop ∷ reverse proxies
      → All (λ h. trusts ips networks h ≡ true) proxies
      → trusts ips networks hop ≡ false
      → Ascends clock requests
      → length (
          filter
            (in_window window t)
            (passed_times (init limit window clock) (map (from_proxy host appended) requests)))
        ≤ limit
  unfolding allowed_times
  passed_times-le_limit limit window clock host appended hop proxies requests t trusted seen near
        stranger goes =
      let q = identity_of (some hop) in
      let sent = map (from_proxy host appended) requests in
      let one =
        All-from_proxy (λ r. identity_of (client_ip ips networks r.0) ≡ q) host appended requests
          (λ forged now. ap identity_of (
            client_ip_forged ips networks (some host) forged appended hop proxies trusted seen near
              stranger)) in
      subst (λ times. length (filter (in_window window t) times) ≤ limit)
        (passed_times_lem q sent (init limit window clock) [] one)
        (run-le_limit limit window clock (map (λ r. (q, r.1)) sent) q t
          (Ascends-from_proxy q host appended requests clock goes))
