-- ===== src/Core/Middleware.antt =====
-- app/core/middleware.py, `PrometheusMiddleware` of app/core/metrics.py, and `request_id_ctx` with
-- `_add_request_id` of app/core/logging.py. What answers a request is a function of it and of the
-- process; a middleware is a function from the next one. The headers of starlette are a parameter.
-- Durations are left out.
pub mod Policy
use smart_travel_aggregator.Prelude.{
  ℕ, ◌≡◌, ◌⊎◌, inl, inr, Option, none, some, List, [], ◌∷◌, ◌++◌, if◌then◌else◌, is_some, ◌==◌,
  nat_eq, list_eq, any,
}
use smart_travel_aggregator.Prelude.Text.{Text, codes, lower}
use smart_travel_aggregator.Core.Errors.{Raised, Problem}
use smart_travel_aggregator.Core.ClientIp

-- `MutableHeaders`: the case of a name does not matter.
pub record Headers : Type 1 where
  pub Store : Type 0
  pub empty : Store
  pub get : Store → Text → Option Text
  -- `headers[name] = value`
  pub set : Store → Text → Text → Store
  pub setdefault : Store → Text → Text → Store
  pub get-empty : (q : Text) → get empty q ≡ none
  pub get-set :
      (h : Store) (name value q : Text)
      → get (set h name value) q ≡ (if lower name == lower q then some value else get h q)
  pub get-setdefault :
      (h : Store) (name value q : Text)
      → get (setdefault h name value) q ≡ (
          if is_some (get h q) then get h q else if lower name == lower q then some value else none)

abbrev pub request_id_header : Text
request_id_header = codes "X-Request-ID"

abbrev pub content_security_policy : Text
content_security_policy = codes "Content-Security-Policy"

abbrev pub security_headers : List (Text × Text)
security_headers =
    (codes "X-Content-Type-Options", codes "nosniff")
    ∷ (codes "X-Frame-Options", codes "DENY")
    ∷ (codes "Referrer-Policy", codes "no-referrer")
    ∷ (content_security_policy, codes "default-src 'none'; frame-ancestors 'none'")
    ∷ (codes "Permissions-Policy", codes "geolocation=(), microphone=(), camera=()")
    ∷ []

abbrev pub docs_csp : Text
docs_csp =
    codes "default-src 'self'; script-src 'self' 'unsafe-inline' https://cdn.jsdelivr.net; "
    ++ codes
        "style-src 'self' 'unsafe-inline' https://cdn.jsdelivr.net https://fonts.googleapis.com; "
    ++ codes "font-src 'self' https://fonts.gstatic.com; "
    ++ codes "img-src 'self' data: https://fastapi.tiangolo.com https://cdn.jsdelivr.net "
    ++ codes "https://cdn.redoc.ly; worker-src 'self' blob:; "
    ++ codes "frame-ancestors 'none'; base-uri 'none'; object-src 'none'"

abbrev pub docs_paths : List Text
docs_paths = codes "/docs" ∷ codes "/docs/oauth2-redirect" ∷ codes "/redoc" ∷ []

-- A request: its method and path, the path of the route that it matches, its header
-- `X-Request-ID`, and what is known of its caller.
pub record HttpRequest : Type 0 where
  pub method : Text
  pub path : Text
  pub route : Option Text
  pub incoming : Option Text
  pub caller : ClientIp.Request

pub record LogLine : Type 0 where
  pub event : Text
  pub path : Option Text
  pub status : Option ℕ
  pub client : Option Text
  -- What `_add_request_id` stamps on the line.
  pub request_id : Option Text

-- What the requests share: the value of `request_id_ctx`, the lines logged, and the requests that
-- `http_requests_total` counted, each with its method, path and status.
pub record Process : Type 0 where
  pub request_id : Option Text
  pub logged : List LogLine
  pub counted : List (Text × Text × ℕ)

unfoldable pub log : Text → Option Text → Option ℕ → Option Text → Process → Process
log event path status client s = record s {
  logged =
      s.logged
      ++ record {
        event = event;
        path = path;
        status = status;
        client = client;
        request_id = s.request_id;
      }
        ∷ [];
}

-- `_client_ip`, with the networks that the container trusts, once there is a container.
unfoldable pub logged_ip :
    (ips : ClientIp.IpAddresses)
    → Option (List (ClientIp.IpAddresses.Network ips))
    → HttpRequest
    → Option Text
logged_ip ips none request = ClientIp.client_ip ips [] request.caller
logged_ip ips (some networks) request = ClientIp.client_ip ips networks request.caller

-- `incoming or uuid.uuid4().hex`
abbrev pub incoming_or : Option Text → Text → Text
incoming_or none fresh = fresh
incoming_or (some []) fresh = fresh
incoming_or (some (c ∷ s)) fresh = c ∷ s

-- `_route_template`
abbrev pub route_template : HttpRequest → Text
route_template request = elim request.route [ none ↦ codes "unmatched" | some path ↦ path ]

module _ (hs : Headers) where
  open hs use {Store, setdefault}

  -- `for header, value in table.items(): headers.setdefault(header, value)`
  unfoldable pub set_defaults : List (Text × Text) → Store → Store
  set_defaults [] headers = headers
  set_defaults ((header, value) ∷ table) headers =
      set_defaults table (setdefault headers header value)

  -- A response, with the problem document that is its body, if it is one.
  pub record Response : Type 0 where
    pub status_code : ℕ
    pub headers : Headers.Store hs
    pub problem : Option Problem

  abbrev pub Endpoint : Type 0
  Endpoint = HttpRequest → Process → (Raised ⊎ Response) × Process

module _ {hs : Headers} where
  open hs use {Store, set, setdefault}

  abbrev pub with_header : Response hs → Text → Text → Response hs
  with_header response name value = record response { headers = set response.headers name value }

  -- `RequestContextMiddleware.dispatch`, with the id that it draws and the address of the client.
  unfoldable pub request_context : Text → (HttpRequest → Option Text) → Endpoint hs → Endpoint hs
  request_context fresh client_ip next request s =
      let request_id = incoming_or request.incoming fresh in
      let (result, after) = next request (record s { request_id = some request_id }) in
      elim result [
        | inl e ↦ (
          inl e,
          record (log (codes "request_failed") (some request.path) none none after) {
            request_id = s.request_id;
          },
        )
        | inr response ↦ (
          inr (with_header response request_id_header request_id),
          log (codes "request_completed") (some request.path) (some response.status_code)
              (client_ip request) (record after { request_id = s.request_id }),
        )
      ]

  -- `SecurityHeadersMiddleware.dispatch`
  unfoldable pub add_security_headers : Endpoint hs → Endpoint hs
  unfolding set_defaults
  add_security_headers next request s =
      let (result, after) = next request s in
      elim result [
        | inl e ↦ (inl e, after)
        | inr response ↦
            let headers =
              if any (λ path. path == request.path) docs_paths
              then setdefault response.headers content_security_policy docs_csp
              else response.headers in
            (inr (record response { headers = set_defaults hs security_headers headers }), after)
      ]

  -- `PrometheusMiddleware.dispatch`
  unfoldable pub prometheus : Endpoint hs → Endpoint hs
  prometheus next request s =
      if request.path == codes "/metrics"
      then next request s
      else (let (result, after) = next request s in
          elim result [
            | inl e ↦ (inl e, after)
            | inr response ↦ (
              inr response,
              record after {
                counted =
                    after.counted
                    ++ (request.method, route_template request, response.status_code) ∷ [];
              },
            )
          ])
