-- ===== src/Application/Crashes.antt =====
-- What a client is sent, and what is logged and counted, when a request of app/main.py ends in an exception
-- without a handler.
use smart_travel_aggregator.Prelude.{
  ◌≡◌, refl, ap, ◌∙◌, inl, Option, none, some, List, [], ◌∷◌, ◌++◌, map, arith, nat_eq, list_eq,
}
use smart_travel_aggregator.Prelude.Text.{Text, codes}
use smart_travel_aggregator.Core.Errors.{Raised, unexpected, Problem, handle}
use smart_travel_aggregator.Core.Middleware.{
  Headers, HttpRequest, Process, LogLine, Endpoint, log, request_context, prometheus,
  add_security_headers, incoming_or,
}
use smart_travel_aggregator.Application.{problem_response, handled, server_errors, create_app}

-- The event of a line, and the request id that it bears.
abbrev pub stamp_of : LogLine → Text × Option Text
stamp_of line = (line.event, line.request_id)

abbrev pub stamp : Text → Option Text → Text × Option Text
stamp event request_id = (event, request_id)

stamps :
    (lines : List LogLine) (a b : LogLine)
    → map stamp_of ((lines ++ a ∷ []) ++ b ∷ [])
      ≡ map stamp_of lines ++ stamp_of a ∷ stamp_of b ∷ []
stamps [] a b = refl
stamps (line ∷ lines) a b = ap (λ x. stamp_of line ∷ x) (stamps lines a b)

module _ (hs : Headers) where
  open hs use {Store}

  module _ (json_headers : Problem → Store) (cors : Endpoint hs → Endpoint hs)
      (client_ip : HttpRequest → Option Text) (fresh : Text) (routes : Endpoint hs)
      (request : HttpRequest) (s : Process) where
    -- What the routes are given.
    abbrev pub entered : Process
    entered = record s { request_id = some (incoming_or request.incoming fresh) }

    unwound_lem :
        (text : Text) (inner : Process)
        → routes request entered ≡ (inl (unexpected text), inner)
        → prometheus (add_security_headers (handled json_headers routes)) request entered
          ≡ (inl (unexpected text), inner)
    unfolding prometheus add_security_headers handled
    unwound_lem text inner e = ground (arith, e)

    failed_lem :
        (next : Endpoint hs) (e : Raised) (after : Process)
        → next request entered ≡ (inl e, after)
        → request_context fresh client_ip next request s ≡ (
          inl e,
          record after {
            request_id = s.request_id;
            logged =
                after.logged
                ++ record {
                  event = codes "request_failed";
                  path = some request.path;
                  status = none;
                  client = none;
                  request_id = after.request_id;
                }
                  ∷ [];
          },
        )
    unfolding request_context log
    failed_lem next e after h = ground (arith, h)

    reported_lem :
        (next : Endpoint hs) (e : Raised) (after : Process)
        → next request s ≡ (inl e, after)
        → server_errors json_headers next request s ≡ (
          problem_response json_headers (handle after.request_id e),
          log (codes "unhandled_exception") none none none after,
        )
    unfolding server_errors
    reported_lem next e after h = ground (arith, h)

    -- An exception without a handler, of a request that CORSMiddleware passes on unchanged, is
    -- answered outside of all middleware: the response has exactly the headers of its document, whose
    -- trace id is that of the context outside the request, and the request is not counted. Two lines
    -- are logged, the first with the id of the request.
    pub create_app_crashed :
        (passes : (next : Endpoint hs) (t : Process) → cors next request t ≡ next request t)
        (text : Text) (inner : Process)
        → routes request entered ≡ (inl (unexpected text), inner)
        → let (response, after) = create_app json_headers cors client_ip fresh routes request s in
          (response ≡ problem_response json_headers (handle s.request_id (unexpected text)))
          × (after.counted ≡ inner.counted)
          × (map stamp_of after.logged
              ≡ map stamp_of inner.logged
                ++ stamp (codes "request_failed") inner.request_id
                  ∷ stamp (codes "unhandled_exception") s.request_id
                  ∷ [])
    unfolding create_app log
    create_app_crashed passes text inner e =
        let inside = prometheus (add_security_headers (handled json_headers routes)) in
        let ends = reported_lem (cors (request_context fresh client_ip inside)) _ _ (
          passes (request_context fresh client_ip inside) s
          ∙ failed_lem inside _ _ (unwound_lem text inner e)) in
        (
          ap (λ x. x.0) ends,
          ap (λ x. x.1.counted) ends,
          ap (λ x. map stamp_of x.1.logged) ends ∙ stamps inner.logged _ _,
        )
