-- ===== src/Application.antt =====
-- `create_app` of app/main.py: the middleware and the exception handlers around the routes, in the
-- order in which starlette nests what `add_middleware` adds. The handler of `Exception` is outside of
-- all middleware, the other handlers are inside. CORSMiddleware, the headers of a `JSONResponse`,
-- and the routes are parameters.
pub mod Crashes
pub mod Tracing
use smart_travel_aggregator.Prelude.{
  inl, inr, Bool, true, false, Option, none, some, if◌then◌else◌, nat_eq, list_eq,
}
use smart_travel_aggregator.Prelude.Text.{Text, codes}
use smart_travel_aggregator.Core.Errors.{
  Raised, app_error, validation, http_error, unexpected, Problem, handle,
}
use smart_travel_aggregator.Core.Middleware.{
  Headers, HttpRequest, Process, Response, Endpoint, log, request_context, prometheus,
  add_security_headers,
}

-- Whether an exception has no handler of its own.
abbrev pub is_unexpected : Raised → Bool
is_unexpected (unexpected e) = true
is_unexpected e = false

module _ {hs : Headers} (json_headers : Problem → Headers.Store hs) where
  -- `JSONResponse(...)` of `_problem`.
  abbrev pub problem_response : Problem → Response hs
  problem_response problem = record {
    status_code = problem.status;
    headers = json_headers problem;
    problem = some problem;
  }

  -- The handlers of AppError, RequestValidationError and HTTPException, around the routes.
  unfoldable pub handled : Endpoint hs → Endpoint hs
  handled routes request s =
      let (result, after) = routes request s in
      elim result [
        | inl e ↦
            if is_unexpected e
            then (inl e, after)
            else (inr (problem_response (handle after.request_id e)), after)
        | inr response ↦ (inr response, after)
      ]

  -- The handler of `Exception`, around everything.
  unfoldable pub server_errors : Endpoint hs → HttpRequest → Process → Response hs × Process
  server_errors next request s =
      let (result, after) = next request s in
      elim result [
        | inl e ↦ (
          problem_response (handle after.request_id e),
          log (codes "unhandled_exception") none none none after,
        )
        | inr response ↦ (response, after)
      ]

  unfoldable pub create_app :
      (Endpoint hs → Endpoint hs)
      → (HttpRequest → Option Text)
      → Text
      → Endpoint hs
      → HttpRequest
      → Process
      → Response hs × Process
  create_app cors client_ip fresh routes =
      server_errors (
        cors (request_context fresh client_ip (prometheus (add_security_headers (handled routes)))))
