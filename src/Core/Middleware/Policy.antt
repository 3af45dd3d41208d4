-- ===== src/Core/Middleware/Policy.antt =====
-- The headers that the middleware of app/core/middleware.py leaves on a response.
use smart_travel_aggregator.Prelude.{
  ◌≡◌, inl, inr, Option, none, some, List, [], ◌∷◌, arith, if◌then◌else◌, Bool-cases, ◌==◌, nat_eq,
  list_eq, any,
}
use smart_travel_aggregator.Prelude.Text.{Text, lower}
use smart_travel_aggregator.Core.Middleware.{
  Headers, set_defaults, security_headers, docs_paths, docs_csp, content_security_policy,
  request_id_header,
}

-- The value of a header in a table, whatever its case.
abbrev pub value_of : List (Text × Text) → Text → Option Text
value_of [] q = none
value_of ((header, value) ∷ table) q =
    if lower header == lower q then some value else value_of table q

-- The headers that a response to a path has by default.
abbrev pub defaults_of : Text → List (Text × Text)
defaults_of path =
    if any (λ docs. docs == path) docs_paths
    then (content_security_policy, docs_csp) ∷ security_headers
    else security_headers

abbrev pub or_else : Option Text → Option Text → Option Text
or_else (some value) default = some value
or_else none default = default

module _ (hs : Headers) where
  open hs use {Store, get, set, setdefault}

  get-set_defaults :
      (table : List (Text × Text)) (headers : Store) (q : Text)
      → get (set_defaults hs table headers) q ≡ or_else (get headers q) (value_of table q)
  unfolding set_defaults
  get-set_defaults [] headers q = ground arith
  get-set_defaults ((header, value) ∷ table) headers q = ground (
    arith,
    get-set_defaults table (setdefault headers header value) q,
    hs.get-setdefault headers header value q,
  )

  -- The header `q` of a response with an id, to a path, when the route set the given headers.
  abbrev pub header_of : Store → Text → Text → Text → Option Text
  header_of own path id q =
      if lower request_id_header == lower q
      then some id
      else or_else (get own q) (value_of (defaults_of path) q)

  -- With the default of the documentation pages, if it applies.
  pub get-defaults :
      (headers : Store) (path q : Text)
      → get
          (set_defaults hs security_headers (
            if any (λ docs. docs == path) docs_paths
            then setdefault headers content_security_policy docs_csp
            else headers))
          q
        ≡ or_else (get headers q) (value_of (defaults_of path) q)
  unfolding set_defaults
  get-defaults headers path q = elim (Bool-cases (any (λ docs. docs == path) docs_paths)) [
    | inl docs ↦
        rw docs
          (get-set_defaults ((content_security_policy, docs_csp) ∷ security_headers) headers q)
    | inr other ↦ rw other (get-set_defaults security_headers headers q)
  ]
