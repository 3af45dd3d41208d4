-- ===== src/Tests/Requests.antt =====
-- Whole requests through the middleware on concrete values.
use smart_travel_aggregator.Prelude.{
  ◌≡◌, refl, inl, Option, none, some, [], ◌∷◌, ◌++◌, map, arith, if◌then◌else◌, is_some, ◌==◌,
  nat_eq, list_eq,
}
use smart_travel_aggregator.Prelude.Text.{Text, codes, lower, text_eq_iff}
use smart_travel_aggregator.Prelude.Dict.{Dict}
use smart_travel_aggregator.Prelude.Dict
use smart_travel_aggregator.Core.Errors.{Raised, unexpected, error_of, not_found, Problem, handle}
use smart_travel_aggregator.Core.Middleware.{Headers, HttpRequest, Process, Endpoint}
use smart_travel_aggregator.Core.Middleware.Policy.{header_of}
use smart_travel_aggregator.Application.{create_app, problem_response}
use smart_travel_aggregator.Application.Crashes.{create_app_crashed, stamp_of, stamp}
use smart_travel_aggregator.Application.Tracing.{create_app_traced, answer_of, access_line}

get-set_plain :
    (h : Dict Text Text) (name value q : Text)
    → Dict.get (Dict.set h (lower name) value) (lower q)
      ≡ (if lower name == lower q then some value else Dict.get h (lower q))
get-set_plain h name value q = Dict.get-set h (lower name) value (lower q)

abbrev default_plain : Dict Text Text → Text → Text → Dict Text Text
default_plain h name value = if is_some (Dict.get h name) then h else Dict.set h name value

get-default_plain :
    (h : Dict Text Text) (name value q : Text)
    → Dict.get (default_plain h name value) q
      ≡ (if is_some (Dict.get h q) then Dict.get h q else if name == q then some value else none)
get-default_plain h name value q = ground (arith, Dict.get-set h name value q, text_eq_iff name q)

unfoldable plain_headers : Headers
unfolding Dict.get
plain_headers = record {
  Store = Dict Text Text;
  empty = [];
  get = λ h q. Dict.get h (lower q);
  set = λ h name value. Dict.set h (lower name) value;
  setdefault = λ h name value. default_plain h (lower name) value;
  get-empty = λ q. refl;
  get-set = get-set_plain;
  get-setdefault = λ h name value q. get-default_plain h (lower name) value (lower q);
}

abbrev json : Problem → Headers.Store plain_headers
json problem =
    plain_headers.set plain_headers.empty (codes "content-type") (codes "application/problem+json")

abbrev request : HttpRequest
request = record {
  method = codes "GET";
  path = codes "/x";
  route = some (codes "/x");
  incoming = none;
  caller = record { host = some (codes "9.9.9.9"); forwarded = [] };
}

abbrev idle : Process
idle = record { request_id = none; logged = []; counted = [] }

abbrev missing : Raised
missing = error_of not_found (codes "no")

abbrev missing_route : Endpoint plain_headers
missing_route r s = (inl missing, s)

abbrev broken_route : Endpoint plain_headers
broken_route r s = (inl (unexpected (codes "boom")), s)

abbrev no_ip : HttpRequest → Option Text
no_ip r = none

abbrev same : Endpoint plain_headers → Endpoint plain_headers
same next = next

create_app_traced_example :
    let (response, after) = create_app json same no_ip (codes "id") missing_route request idle in
    let answer =
      answer_of plain_headers json same no_ip
        (codes "id")
        missing_route
        request
        idle
        (inl missing) in
    (response.status_code ≡ answer.status_code)
    × (response.problem ≡ answer.problem)
    × ((q : Text)
        → plain_headers.get response.headers q
          ≡ header_of plain_headers answer.headers (codes "/x") (codes "id") q)
    × (after.logged
        ≡ []
          ++ access_line plain_headers json same no_ip
              (codes "id")
              missing_route
              request
              idle
              answer.status_code
            ∷ [])
    × (after.counted ≡ (
        if codes "/x" == codes "/metrics"
        then []
        else [] ++ (codes "GET", codes "/x", answer.status_code) ∷ []))
create_app_traced_example =
    create_app_traced plain_headers json same no_ip (codes "id") missing_route request idle
      (λ next t. refl) (inl missing) (record idle { request_id = some (codes "id") }) refl refl
      (λ text e. ground (arith, e))

create_app_crashed_example :
    let (response, after) = create_app json same no_ip (codes "id") broken_route request idle in
    (response ≡ problem_response json (handle none (unexpected (codes "boom"))))
    × (after.counted ≡ [])
    × (map stamp_of after.logged
        ≡ map stamp_of []
          ++ stamp (codes "request_failed") (some (codes "id"))
            ∷ stamp (codes "unhandled_exception") none
            ∷ [])
create_app_crashed_example =
    create_app_crashed plain_headers json same no_ip (codes "id") broken_route request idle
      (λ next t. refl) (codes "boom") (record idle { request_id = some (codes "id") }) refl
