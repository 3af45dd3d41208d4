-- ===== src/Providers/HttpClient/Retry.antt =====
-- The retry loop of app/providers/http_client.py, against the attempts one by one.
use smart_travel_aggregator.Prelude.{
  ℕ, zero, suc, ◌+◌, ◌*◌, ◌^◌, ◌≤◌, ◌<◌, ◌≡◌, false, Option, none, some, arith, nat_eq, list_eq,
}
use smart_travel_aggregator.Prelude.Text.{Text}
use smart_travel_aggregator.Resilience.CircuitBreaker.{Outcome, error}
use smart_travel_aggregator.Providers.HttpClient.{
  ResilientHttpClient, Cache, response, get_with_retry, Http, FetchError, provider_unavailable,
  attempt, retry_from,
}

module _ (h : Http) (base : ℕ) (url : Text) (params : Http.Params h) where
  open h use {Net, Json, send, sleep}

  -- The network when attempt `i + k` begins, where attempt `i` begins with `net` and all before it
  -- are retried.
  abbrev pub net_at : ℕ → ℕ → Net → Net
  net_at i zero net = net
  net_at i (suc k) net = net_at (i + 1) k (sleep (send net url params).0 (base * 2 ^ i))

  -- What attempt `i + k` comes to, with `none` for a failure that is retried.
  abbrev pub attempt_at : ℕ → ℕ → Net → Option (Outcome Json FetchError)
  attempt_at i k net = attempt h (send (net_at i k net) url params).1

  -- The first attempt that is not to be retried ends the loop with what it comes to, and no request
  -- is sent after it: each attempt before it was followed by a pause of `base * 2 ^ i` ticks.
  retry_from_ends :
      (k i left : ℕ) (net : Net) (r : Outcome Json FetchError)
      → k ≤ left
      → ((j : ℕ) → j < k → attempt_at i j net ≡ none)
      → attempt_at i k net ≡ some r
      → retry_from h base i left url params net ≡ ((send (net_at i k net) url params).0, r)
  unfolding retry_from
  retry_from_ends zero i zero net r le before e = ground arith
  retry_from_ends zero i (suc left) net r le before e = ground arith
  retry_from_ends (suc k) i zero net r le before e = absurd (omega arith)
  retry_from_ends (suc k) i (suc left) net r le before e = ground (
    arith,
    before 0 (omega arith),
    retry_from_ends k (i + 1) left (sleep (send net url params).0 (base * 2 ^ i)) r (omega arith)
        (λ j l. before (suc j) (omega arith)) e,
  )

  retry_from_fails :
      (left i : ℕ) (net : Net)
      → ((j : ℕ) → j ≤ left → attempt_at i j net ≡ none)
      → retry_from h base i left url params net
        ≡ ((send (net_at i left net) url params).0, error provider_unavailable)
  unfolding retry_from
  retry_from_fails zero i net all_fail = ground (arith, all_fail 0 (omega arith))
  retry_from_fails (suc left) i net all_fail = ground (
    arith,
    all_fail 0 (omega arith),
    retry_from_fails left (i + 1) (sleep (send net url params).0 (base * 2 ^ i))
        (λ j l. all_fail (suc j) (omega arith)),
  )

-- `get_with_retry` ends with the first attempt, among the `max_retries + 1`, that brings a result or
-- an exception that is not retried, and sends no request after it. Before attempt `i + 1` it pauses
-- `backoff_base * 2 ^ i` ticks.
pub get_with_retry_ends :
    (h : Http) (cache : Cache) (c : ResilientHttpClient h cache) (url : Text)
    (params : Http.Params h) (net : Http.Net h) (k : ℕ) (r : Outcome (Http.Json h) FetchError)
    → k ≤ c.max_retries
    → ((j : ℕ) → j < k → attempt_at h c.backoff_base url params 0 j net ≡ none)
    → attempt_at h c.backoff_base url params 0 k net ≡ some r
    → get_with_retry h cache c url params net
      ≡ ((h.send (net_at h c.backoff_base url params 0 k net) url params).0, r)
unfolding get_with_retry
get_with_retry_ends h cache c url params net k r le before e =
    retry_from_ends h c.backoff_base url params k 0 c.max_retries net r le before e

-- When all `max_retries + 1` attempts are to be retried, `get_with_retry` ends with
-- `ProviderUnavailableError` after the last of them, without a pause behind it.
pub get_with_retry_fails :
    (h : Http) (cache : Cache) (c : ResilientHttpClient h cache) (url : Text)
    (params : Http.Params h) (net : Http.Net h)
    → ((j : ℕ) → j ≤ c.max_retries → attempt_at h c.backoff_base url params 0 j net ≡ none)
    → get_with_retry h cache c url params net ≡ (
      (h.send (net_at h c.backoff_base url params 0 c.max_retries net) url params).0,
      error provider_unavailable,
    )
unfolding get_with_retry
get_with_retry_fails h cache c url params net all_fail =
    retry_from_fails h c.backoff_base url params c.max_retries 0 net all_fail

-- How many requests the network has seen.
pub record Counts (h : Http) : Type 0 where
  pub sent : Http.Net h → ℕ
  pub sent-send :
      (net : Http.Net h) (url : Text) (params : Http.Params h)
      → sent (h.send net url params).0 ≡ sent net + 1
  pub sent-sleep : (net : Http.Net h) (d : ℕ) → sent (h.sleep net d) ≡ sent net

module _ (h : Http) (count : Counts h) (base : ℕ) (url : Text) (params : Http.Params h) where
  open count use {sent, sent-send, sent-sleep}

  sent-retry_from-le :
      (left i : ℕ) (net : Http.Net h)
      → sent (retry_from h base i left url params net).0 ≤ sent net + left + 1
  unfolding retry_from
  sent-retry_from-le zero i net = ground (arith, sent-send net url params)
  sent-retry_from-le (suc left) i net =
      let net' = (h.send net url params).0 in
      ground (
        arith,
        sent-send net url params,
        sent-sleep net' (base * 2 ^ i),
        sent-retry_from-le left (i + 1) (h.sleep net' (base * 2 ^ i)),
      )

  -- The replies from here on all bear a status for which `raise_for_status` raises.
  abbrev pub AlwaysRefused : Type 0
  AlwaysRefused =
      (net : Http.Net h)
      → (status : ℕ) × (body : Option (Http.Json h)) × ((h.send net url params).1
          ≡ response status body)
        × (h.is_success status ≡ false)

  sent-retry_from_refused :
      (left i : ℕ) (net : Http.Net h)
      → AlwaysRefused
      → (sent (retry_from h base i left url params net).0 ≡ sent net + left + 1)
        × ((retry_from h base i left url params net).1 ≡ error provider_unavailable)
  unfolding retry_from
  sent-retry_from_refused zero i net refused =
      let (s, b, e, f) = refused net in ground (arith, sent-send net url params)
  sent-retry_from_refused (suc left) i net refused =
      let net' = (h.send net url params).0 in
      let (s, b, e, f) = refused net in
      ground (
        arith,
        sent-send net url params,
        sent-sleep net' (base * 2 ^ i),
        sent-retry_from_refused left (i + 1) (h.sleep net' (base * 2 ^ i)) refused,
      )

-- `get_with_retry` sends at most `max_retries + 1` requests, whatever the replies.
pub sent-get_with_retry-le :
    (h : Http) (count : Counts h) (cache : Cache) (c : ResilientHttpClient h cache) (url : Text)
    (params : Http.Params h) (net : Http.Net h)
    → Counts.sent count (get_with_retry h cache c url params net).0
      ≤ Counts.sent count net + c.max_retries + 1
unfolding get_with_retry
sent-get_with_retry-le h count cache c url params net =
    sent-retry_from-le h count c.backoff_base url params c.max_retries 0 net

-- A status that is no success is retried whatever it is, transient or not: when every reply bears
-- such a status, exactly `max_retries + 1` requests are sent and the call ends with
-- `ProviderUnavailableError`.
pub sent-get_with_retry_refused :
    (h : Http) (count : Counts h) (cache : Cache) (c : ResilientHttpClient h cache) (url : Text)
    (params : Http.Params h) (net : Http.Net h)
    → AlwaysRefused h count c.backoff_base url params
    → (Counts.sent count (get_with_retry h cache c url params net).0
        ≡ Counts.sent count net + c.max_retries + 1)
      × ((get_with_retry h cache c url params net).1 ≡ error provider_unavailable)
unfolding get_with_retry
sent-get_with_retry_refused h count cache c url params net =
    sent-retry_from_refused h count c.backoff_base url params c.max_retries 0 net
