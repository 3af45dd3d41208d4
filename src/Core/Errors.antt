-- ===== src/Core/Errors.antt =====
-- app/core/errors.py: the errors that a request may end with and the problem document of each.
use smart_travel_aggregator.Prelude.{
  ℕ, ◌≡◌, not, Option, none, some, List, [], ◌∷◌, ◌++◌, arith, ◌==◌, nat_eq, list_eq, filter,
}
use smart_travel_aggregator.Prelude.Text.{Text, codes}

-- `AppError` and its subclasses.
pub data ErrorKind : Type 0 where
  bad_request not_found conflict unauthorized forbidden rate_limited provider_unavailable :
      ErrorKind

pub record AppError : Type 0 where
  pub kind : ErrorKind
  pub detail : Text
  -- `extra`: the code gives it to `RateLimitedError` only, with `limit_per_minute`.
  pub limit_per_minute : Option ℕ

unfoldable pub status_code : ErrorKind → ℕ
status_code bad_request = 400
status_code not_found = 404
status_code conflict = 409
status_code unauthorized = 401
status_code forbidden = 403
status_code rate_limited = 429
status_code provider_unavailable = 503

unfoldable pub error_code : ErrorKind → Text
error_code bad_request = codes "bad_request"
error_code not_found = codes "not_found"
error_code conflict = codes "conflict"
error_code unauthorized = codes "unauthorized"
error_code forbidden = codes "forbidden"
error_code rate_limited = codes "rate_limited"
error_code provider_unavailable = codes "provider_unavailable"

unfoldable pub error_title : ErrorKind → Text
error_title bad_request = codes "Bad Request"
error_title not_found = codes "Resource Not Found"
error_title conflict = codes "Conflict"
error_title unauthorized = codes "Authentication Failed"
error_title forbidden = codes "Permission Denied"
error_title rate_limited = codes "Too Many Requests"
error_title provider_unavailable = codes "Upstream Provider Unavailable"

-- An error of `exc.errors()`: its `loc` with each part as text, and its `msg`, if it has one.
pub record ValidationError : Type 0 where
  pub loc : List Text
  pub msg : Option Text

pub record FieldError : Type 0 where
  pub field : Text
  pub message : Text

-- `".".join(parts)`
unfoldable pub join_dots : List Text → Text
join_dots [] = []
join_dots (part ∷ []) = part
join_dots (part ∷ next ∷ parts) = part ++ b'.' ∷ join_dots (next ∷ parts)

-- `".".join(loc) or "body"`
unfoldable pub field_of : List Text → Text
unfolding join_dots
field_of loc = elim (join_dots (filter (λ part. not (part == codes "body")) loc)) [
  | [] ↦ codes "body"
  | c ∷ s ↦ c ∷ s
]

-- `_clean_validation_errors`
unfoldable pub clean_validation_errors : List ValidationError → List FieldError
clean_validation_errors [] = []
clean_validation_errors (err ∷ errors) =
    record {
      field = field_of err.loc;
      message = elim err.msg [ none ↦ codes "invalid value" | some msg ↦ msg ];
    }
    ∷ clean_validation_errors errors

-- What a handler may be given: an `AppError`, the errors of a failed validation, an HTTP error of the
-- framework with its status and detail, or any other exception with its text.
pub data Raised : Type 0 where
  app_error : AppError → Raised
  validation : List ValidationError → Raised
  http_error : ℕ → Text → Raised
  unexpected : Text → Raised

pub record Problem : Type 0 where
  pub problem_type : Text
  pub title : Text
  pub status : ℕ
  pub code : Text
  pub detail : Text
  pub trace_id : Option Text
  pub errors : List FieldError
  pub limit_per_minute : Option ℕ

-- The body that `_problem` builds. Its `extra` has the errors of a validation, or the limit.
unfoldable pub problem_of :
    ℕ → Text → Text → Text → Option Text → List FieldError → Option ℕ → Problem
problem_of status code title detail trace_id errors limit_per_minute = record {
  problem_type = codes "https://smarttravel.dev/errors/" ++ code;
  title = title;
  status = status;
  code = code;
  detail = detail;
  trace_id = trace_id;
  errors = errors;
  limit_per_minute = limit_per_minute;
}

-- The handler that each exception goes to, with the request id of the context that it runs in.
unfoldable pub handle : Option Text → Raised → Problem
handle trace_id (app_error e) =
    problem_of (status_code e.kind) (error_code e.kind) (error_title e.kind) e.detail trace_id []
      e.limit_per_minute
handle trace_id (validation errors) =
    problem_of 422 (codes "validation_error") (codes "Request Validation Failed")
      (codes "One or more fields are invalid.") trace_id (clean_validation_errors errors) none
handle trace_id (http_error status detail) =
    problem_of status (codes "http_error") (codes "HTTP Error") detail trace_id [] none
handle trace_id (unexpected e) =
    problem_of 500 (codes "internal_error") (codes "Internal Server Error")
      (codes "An unexpected error occurred. The incident has been logged.") trace_id [] none

-- The error of a kind, without `extra`.
abbrev pub error_of : ErrorKind → Text → Raised
error_of kind detail = app_error (record { kind = kind; detail = detail; limit_per_minute = none })

-- No two kinds of error share a status.
status_code-injective : (a b : ErrorKind) → status_code a ≡ status_code b → a ≡ b
unfolding status_code
status_code-injective a b h = ground arith
