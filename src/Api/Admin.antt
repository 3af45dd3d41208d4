-- ===== src/Api/Admin.antt =====
-- app/api/v1/admin.py. `GROUP BY` leaves one row for each route with its count; SQL orders the routes
-- that tie as it likes, here they stand in one fixed order.
pub mod Popular
use smart_travel_aggregator.Prelude.{
  ℕ, zero, suc, ◌+◌, ◌-◌, ◌*◌, ◌/◌, ◌%◌, ◌^◌, ◌≤◌, ◌<◌, min, max, ◌≡◌, refl, sym, ap, ◌∙◌, subst,
  ◌≢◌, ◌↔◌, ◌⊎◌, inl, inr, Bool, true, false, ◌&&◌, ◌||◌, not, Option, none, some, List, [], ◌∷◌,
  ◌++◌, map, arith, ltb, leb, eqb, if◌then◌else◌, ltb→lt, lt→ltb, leb→le, le→leb, eqb_iff,
  Bool-cases, Option-cases, is_some, Eq, ◌==◌, ==_refl, nat_eq, list_eq, length, take, drop, filter,
  any, all, All, length-append, length-take, length-drop, take-append-drop, length-filter-le,
  filter-append, All-append, All-imp, All-both, All-filter, filter-All, length-map, All-map,
  All-reverse, replicate,
}
use smart_travel_aggregator.Prelude.Text.{Text, codes, text_eq_iff}
use smart_travel_aggregator.Prelude.Dict.{Dict}
use smart_travel_aggregator.Prelude.Dict
use smart_travel_aggregator.Prelude.Sorting.{sorted}
use smart_travel_aggregator.Core.Errors.{Raised}
use smart_travel_aggregator.Repositories.PriceAlerts.{PriceAlert, list_active}
use smart_travel_aggregator.Services.AuthService.{Packages, World, Moment, Result}
use smart_travel_aggregator.Api.Deps.{require_admin}
use smart_travel_aggregator.Api.Flights.{SearchHistory}

-- The columns that the query groups by.
pub record SearchRoute : Type 0 where
  pub origin : Text
  pub destination : Text

unfoldable pub search_route_beq : SearchRoute → SearchRoute → Bool
search_route_beq a b = a.origin == b.origin && a.destination == b.destination

pub search_route_beq_iff : (a b : SearchRoute) → (search_route_beq a b ≡ true) ↔ (a ≡ b)
unfolding search_route_beq
search_route_beq_iff a b =
    ground (arith, text_eq_iff a.origin b.origin, text_eq_iff a.destination b.destination)

instance unfoldable pub search_route_eq : Eq SearchRoute
unfolding search_route_beq
search_route_eq = record { beq = search_route_beq; beq_iff = search_route_beq_iff }

abbrev pub route_of : SearchHistory → SearchRoute
route_of row = record { origin = row.origin; destination = row.destination }

abbrev pub or_zero : Option ℕ → ℕ
or_zero none = 0
or_zero (some n) = n

-- `GROUP BY origin, destination` with `count(*)`.
unfoldable pub group_by_route : List SearchHistory → Dict SearchRoute ℕ
group_by_route [] = []
group_by_route (row ∷ rows) =
    let counts = group_by_route rows in
    Dict.set counts (route_of row) (suc (or_zero (Dict.get counts (route_of row))))

-- `ORDER BY count(*) DESC`
abbrev pub is_no_less : SearchRoute × ℕ → SearchRoute × ℕ → Bool
is_no_less a b = leb b.1 a.1

unfoldable pub popular : List SearchHistory → List (SearchRoute × ℕ)
popular history = take 10 (sorted is_no_less (group_by_route history))

pub record PopularRoute : Type 0 where
  pub route : Text
  pub searches : ℕ

abbrev pub shown : SearchRoute × ℕ → PopularRoute
shown (route, searches) = record {
  route = route.origin ++ codes "-" ++ route.destination;
  searches = searches;
}

pub record AdminMetrics : Type 0 where
  pub total_users : ℕ
  pub total_searches : ℕ
  pub active_alerts : ℕ
  pub popular_routes : List PopularRoute

unfoldable pub metrics :
    (p : Packages)
    → World p
    → Moment
    → Option Text
    → List PriceAlert
    → List SearchHistory
    → Result p AdminMetrics
metrics p w m credentials alerts history =
    let (result, after) = require_admin p w m credentials in
    elim result [
      | inl e ↦ (inl e, after)
      | inr admin ↦ (
        inr (record {
          total_users = length after.users;
          total_searches = length history;
          active_alerts = length (list_active alerts);
          popular_routes = map shown (popular history);
        }),
        after,
      )
    ]
