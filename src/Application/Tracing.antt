-- ===== src/Application/Tracing.antt =====
-- What a client is sent, and what is logged and counted, by the whole stack of app/main.py.
use smart_travel_aggregator.Prelude.{
  ℕ, ◌≡◌, refl, ◌∙◌, ◌≢◌, ◌⊎◌, inl, inr, Option, some, [], ◌∷◌, ◌++◌, arith, if◌then◌else◌,
  Bool-cases, ◌==◌, nat_eq, list_eq, any,
}
use smart_travel_aggregator.Prelude.Text.{Text, codes}
use smart_travel_aggregator.Core.Errors.{Raised, unexpected, Problem, handle}
use smart_travel_aggregator.Core.Middleware.{
  Headers, HttpRequest, Process, LogLine, Response, Endpoint, log, request_context, prometheus,
  add_security_headers, set_defaults, security_headers, docs_paths, docs_csp,
  content_security_policy, request_id_header, incoming_or, route_template,
}
use smart_travel_aggregator.Core.Middleware.Policy.{header_of, get-defaults}
use smart_travel_aggregator.Application.{problem_response, handled, server_errors, create_app}

module _ (hs : Headers) where
  open hs use {Store, get, set, setdefault}

  module _ (json_headers : Problem → Store) (cors : Endpoint hs → Endpoint hs)
      (client_ip : HttpRequest → Option Text) (fresh : Text) (routes : Endpoint hs)
      (request : HttpRequest) (s : Process) where
    abbrev pub id_of : Text
    id_of = incoming_or request.incoming fresh

    -- What the routes are given.
    abbrev pub entered : Process
    entered = record s { request_id = some id_of }

    -- What the routes answer: a response of their own, or the problem document of what they raise.
    abbrev pub answer_of : Raised ⊎ Response hs → Response hs
    answer_of (inl e) = problem_response json_headers (handle (some id_of) e)
    answer_of (inr response) = response

    abbrev pub access_line : ℕ → LogLine
    access_line status = record {
      event = codes "request_completed";
      path = some request.path;
      status = some status;
      client = client_ip request;
      request_id = s.request_id;
    }

    handled_lem :
        (result : Raised ⊎ Response hs) (inner : Process)
        → routes request entered ≡ (result, inner)
        → inner.request_id ≡ some id_of
        → ((text : Text) → result ≢ inl (unexpected text))
        → handled json_headers routes request entered ≡ (inr (answer_of result), inner)
    unfolding handled
    handled_lem (inl (unexpected text)) inner e kept expected = absurd (expected text refl)
    handled_lem result inner e kept expected = ground (arith, e, kept)

    -- The headers after the security middleware.
    abbrev secured : Store → Store
    secured headers = set_defaults hs security_headers (
        if any (λ docs. docs == request.path) docs_paths
        then setdefault headers content_security_policy docs_csp
        else headers)

    -- The process after the request is counted.
    abbrev counted : ℕ → Process → Process
    counted status t = if request.path == codes "/metrics" then t else record t {
      counted = t.counted ++ (request.method, route_template request, status) ∷ [];
    }

    secured_lem :
        (next : Endpoint hs) (t after : Process) (r : Response hs)
        → next request t ≡ (inr r, after)
        → add_security_headers next request t
          ≡ (inr (record r { headers = secured r.headers }), after)
    unfolding add_security_headers
    secured_lem next t after r e = ground (arith, e)

    counted_lem :
        (next : Endpoint hs) (t after : Process) (r : Response hs)
        → next request t ≡ (inr r, after)
        → prometheus next request t ≡ (inr r, counted r.status_code after)
    unfolding prometheus
    counted_lem next t after r e = ground (arith, e)

    context_lem :
        (next : Endpoint hs) (after : Process) (r : Response hs)
        → next request entered ≡ (inr r, after)
        → request_context fresh client_ip next request s ≡ (
          inr (record r { headers = set r.headers request_id_header id_of }),
          record after {
            request_id = s.request_id;
            logged = after.logged ++ access_line r.status_code ∷ [];
          },
        )
    unfolding request_context log
    context_lem next after r e = ground (arith, e)

    server_lem :
        (next : Endpoint hs) (after : Process) (r : Response hs)
        → next request s ≡ (inr r, after)
        → server_errors json_headers next request s ≡ (r, after)
    unfolding server_errors
    server_lem next after r e = ground (arith, e)

    create_app_lem :
        (passes : (next : Endpoint hs) (t : Process) → cors next request t ≡ next request t)
        (result : Raised ⊎ Response hs) (inner : Process)
        → routes request entered ≡ (result, inner)
        → inner.request_id ≡ some id_of
        → ((text : Text) → result ≢ inl (unexpected text))
        → let r = answer_of result in
          let after = counted r.status_code inner in
          create_app json_headers cors client_ip fresh routes request s ≡ (
            record r { headers = set (secured r.headers) request_id_header id_of },
            record after {
              request_id = s.request_id;
              logged = after.logged ++ access_line r.status_code ∷ [];
            },
          )
    unfolding create_app
    create_app_lem passes result inner e kept expected =
        let r = answer_of result in
        let first = handled_lem result inner e kept expected in
        let second = secured_lem (handled json_headers routes) entered inner r first in
        let third =
          counted_lem (add_security_headers (handled json_headers routes)) entered inner _ second in
        let inside = prometheus (add_security_headers (handled json_headers routes)) in
        server_lem (cors (request_context fresh client_ip inside)) _ _
          (passes (request_context fresh client_ip inside) s ∙ context_lem inside _ _ third)

    -- A request that CORSMiddleware passes on unchanged, and that ends in a response or in an error
    -- with a handler: the client is sent the answer of the routes with the request id in its header,
    -- the security headers that the routes did not set themselves, and, in a problem document, the id
    -- as its trace id. One line is logged, which bears the id of the context outside the request, and
    -- the request is counted once, unless it is for /metrics.
    pub create_app_traced :
        (passes : (next : Endpoint hs) (t : Process) → cors next request t ≡ next request t)
        (result : Raised ⊎ Response hs) (inner : Process)
        → routes request entered ≡ (result, inner)
        → inner.request_id ≡ some id_of
        → ((text : Text) → result ≢ inl (unexpected text))
        → let (response, after) = create_app json_headers cors client_ip fresh routes request s in
          (response.status_code ≡ (answer_of result).status_code)
          × (response.problem ≡ (answer_of result).problem)
          × ((q : Text)
              → get response.headers q
                ≡ header_of hs (answer_of result).headers request.path id_of q)
          × (after.logged ≡ inner.logged ++ access_line (answer_of result).status_code ∷ [])
          × (after.counted ≡ (
              if request.path == codes "/metrics"
              then inner.counted
              else inner.counted
                ++ (request.method, route_template request, (answer_of result).status_code) ∷ []))
    create_app_traced passes result inner e kept expected =
        let r = answer_of result in
        rw (create_app_lem passes result inner e kept expected) (
          refl,
          refl,
          λ q.
              rw
                (
                  hs.get-set (secured r.headers) request_id_header id_of q,
                  get-defaults hs r.headers request.path q,
                )
                refl,
          elim (Bool-cases (request.path == codes "/metrics")) [
            | inl h ↦ rw h refl
            | inr h ↦ rw h refl
          ],
          elim (Bool-cases (request.path == codes "/metrics")) [
            | inl h ↦ rw h refl
            | inr h ↦ rw h refl
          ],
        )
