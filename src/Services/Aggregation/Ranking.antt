-- ===== src/Services/Aggregation/Ranking.antt =====
-- The scores of app/services/aggregation.py.
use smart_travel_aggregator.Prelude.{
  ℕ, zero, suc, ◌≤◌, ◌≡◌, refl, ap, subst, true, List, [], ◌∷◌, map, arith, nat_eq, list_eq, All,
  All-map,
}
use smart_travel_aggregator.Domain.{NormalizedFlight}
use smart_travel_aggregator.Domain.Floats.{Float, IsMonotone}
use smart_travel_aggregator.Services.Aggregation.{
  RankedFlight, Scale, amount, norm, rank, scale, score_of,
}

module _ (float : Float) (laws : IsMonotone float) where
  norm_mono : (a b span : ℕ) → a ≤ b → float.le (norm float a span) (norm float b span) ≡ true
  norm_mono a b zero h = ground (arith, laws.order.total (float.decimal 0 1) (float.decimal 0 1))
  norm_mono a b (suc span) h = laws.ratio_mono a b (suc span) h

  -- A flight that is no dearer than another, no longer and has no more stops is scored no lower,
  -- whatever flights the two are ranked among. The laws of floats are those of `IsMonotone`.
  pub score_of_mono :
      (s : Scale) (a b : NormalizedFlight)
      → amount a ≤ amount b
      → a.duration_minutes ≤ b.duration_minutes
      → a.stops ≤ b.stops
      → float.le (score_of float s b) (score_of float s a) ≡ true
  unfolding score_of
  score_of_mono s a b price duration stops = laws.round_mono _ _ 3 (
      laws.sub_anti _ _ _ (
        laws.add_mono _ _ _ _
          (laws.add_mono _ _ _ _ (laws.mul_mono 5 1 _ _ (norm_mono _ _ s.price_span (omega arith)))
            (laws.mul_mono 3 1 _ _ (norm_mono _ _ s.duration_span (omega arith))))
          (laws.mul_mono 2 1 _ _ (norm_mono _ _ s.max_stops stops))))

-- The flights of the ranking are the flights that were ranked, in their order.
pub rank-flights :
    (float : Float) (flights : List NormalizedFlight)
    → map (λ (r : RankedFlight float). r.flight) (rank float flights) ≡ flights
unfolding rank
rank-flights float [] = refl
rank-flights float (first ∷ rest) = ranked_at (scale first rest) (first ∷ rest)
  where
    ranked_at :
        (s : Scale) (flights : List NormalizedFlight)
        → map
            (λ (r : RankedFlight float). r.flight)
            (map (λ f. record { flight = f; score = score_of float s f }) flights)
          ≡ flights
    ranked_at s [] = refl
    ranked_at s (f ∷ flights) = ap (◌∷◌ f) (ranked_at s flights)

pub All-rank {κ} :
    (P : NormalizedFlight → Type κ) (float : Float) (flights : List NormalizedFlight)
    → All P flights
    → All (λ (r : RankedFlight float). P r.flight) (rank float flights)
unfolding rank
All-rank P float [] h = tt
All-rank P float (first ∷ rest) h =
    All-map (λ (r : RankedFlight float). P r.flight) _ (first ∷ rest) h

pub All-of_rank {κ} :
    (P : NormalizedFlight → Type κ) (float : Float) (flights : List NormalizedFlight)
    → All (λ (r : RankedFlight float). P r.flight) (rank float flights)
    → All P flights
All-of_rank P float flights h =
    subst (All P) (rank-flights float flights)
      (All-map P (λ (r : RankedFlight float). r.flight) (rank float flights) h)
