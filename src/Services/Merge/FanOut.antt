-- ===== src/Services/Merge/FanOut.antt =====
-- The fan-out of app/services/aggregation.py and app/services/hotel_aggregation.py.
use smart_travel_aggregator.Prelude.{
  ℕ, suc, ◌+◌, ◌≡◌, refl, List, [], ◌∷◌, ◌++◌, map, arith, nat_eq, list_eq, length,
}
use mathlib.Core.List.{append-nil, append_assoc}
use smart_travel_aggregator.Services.Merge.{Answer, offers, exception, Provider, collect, fan_out}

module _ {A : Type 0} where
  -- The offers of the providers that answered, in the order of the providers.
  abbrev pub answered : List (Answer A) → List A
  answered [] = []
  answered (exception ∷ results) = answered results
  answered (offers result ∷ results) = result ++ answered results

  abbrev pub successes : List (Answer A) → ℕ
  successes [] = 0
  successes (exception ∷ results) = successes results
  successes (offers result ∷ results) = suc (successes results)

  abbrev pub failures : List (Answer A) → ℕ
  failures [] = 0
  failures (exception ∷ results) = suc (failures results)
  failures (offers result ∷ results) = failures results

  collect_lem :
      (results : List (Answer A)) (found : List A) (ok failed : ℕ)
      → collect found ok failed results
        ≡ (found ++ answered results, ok + successes results, failed + failures results)
  unfolding collect
  collect_lem [] found ok failed = ground (arith, append-nil found)
  collect_lem (exception ∷ results) found ok failed =
      ground (arith, collect_lem results found ok (failed + 1))
  collect_lem (offers result ∷ results) found ok failed = ground (
    arith,
    collect_lem results (found ++ result) (ok + 1) failed,
    append_assoc found result (answered results),
  )

  pub fan_out_lem :
      {Q : Type 0} (providers : List (Provider Q A)) (query : Q)
      → let results = map (λ provider. provider query) providers in
        fan_out providers query ≡ (answered results, successes results, failures results)
  unfolding fan_out
  fan_out_lem providers query =
      let results = map (λ provider. provider query) providers in
      ground (arith, collect_lem results [] 0 0)

  pub successes-add-failures :
      (results : List (Answer A)) → successes results + failures results ≡ length results
  successes-add-failures [] = refl
  successes-add-failures (exception ∷ results) = omega (arith, successes-add-failures results)
  successes-add-failures (offers result ∷ results) = omega (arith, successes-add-failures results)
