-- ===== src/Usage/Store/Summary.antt =====
-- What `summarise` says of the values that it is given.
use kqos.Prelude.{
  ℕ, ◌-◌, ◌<◌, ◌≡◌, refl, ap, false, inl, inr, arith, List, [], ◌∷◌, length, get_or, AllOf,
  AllOf-map, AnyOf,
}
use kqos.Prelude.Int.{ℤ, pos}
use kqos.Floats.{FloatApi}
use kqos.SysAdvisor.Window.{sort_floats, rank_of, clamp_rank, float_zero}
use kqos.SysAdvisor.Window.Sorted.{
  sort_floats-IsSorted, length-sort_floats, sort_floats-AllOf, sort_floats-entries, get_or-AllOf,
  get_or-sorted, last_above,
}
use kqos.Usage.{Stats}
use kqos.Usage.Store.{nearest_rank, summarise}

AllOf-AnyOf : {A : Type 0} (xs : List A) → AllOf (λ x. AnyOf (λ y. y ≡ x) xs) xs
AllOf-AnyOf [] = tt
AllOf-AnyOf (x ∷ xs) = (
  inl refl,
  AllOf-map (λ z. AnyOf (λ y. y ≡ z) xs) (λ z. AnyOf (λ y. y ≡ z) (x ∷ xs)) xs (λ z h. inr h)
      (AllOf-AnyOf xs),
)

clamp_rank_bound : (r : ℤ) (n : ℕ) → 0 < n → clamp_rank r n - 1 < n
clamp_rank_bound r n h = ground arith

module _ {Float : Type 0} ⦃f : FloatApi Float⦄ where
  open f use {of_int, less}

  -- One of the values, and no larger than `peak`.
  pub record IsFigure (vals : List Float) (peak x : Float) : Type 0 where
    pub observed : AnyOf (λ y. y ≡ x) vals
    pub below : less peak x ≡ false

  pub record IsSummary (vals : List Float) (stats : Stats Float) : Type 0 where
    pub samples : stats.samples ≡ pos (length vals)
    pub above : AllOf (λ v. less stats.max v ≡ false) vals
    pub max : IsFigure vals stats.max stats.max
    pub p50 : IsFigure vals stats.max stats.p50
    pub p90 : IsFigure vals stats.max stats.p90
    pub p95 : IsFigure vals stats.max stats.p95
    pub p99 : IsFigure vals stats.max stats.p99

  abbrev peak_of : List Float → Float
  peak_of vals = let sorted = sort_floats vals in get_or sorted (length sorted - 1) float_zero

  entry-IsFigure :
      (vals : List Float) (i : ℕ)
      → i < length vals
      → IsFigure vals (peak_of vals) (get_or (sort_floats vals) i float_zero)
  entry-IsFigure vals i h =
      let sorted = sort_floats vals in
      let n = length-sort_floats vals in
      record {
        observed =
            get_or-AllOf (λ x. AnyOf (λ y. y ≡ x) vals) sorted i float_zero (omega (arith, n))
              (sort_floats-AllOf (λ x. AnyOf (λ y. y ≡ x) vals) vals (AllOf-AnyOf vals));
        below =
            get_or-sorted sorted i (length sorted - 1) float_zero (sort_floats-IsSorted vals)
              (omega (arith, n)) (omega (arith, n));
      }

  nearest_rank-IsFigure :
      (v : Float) (vs : List Float) (p : Float)
      → IsFigure (v ∷ vs) (peak_of (v ∷ vs)) (nearest_rank (sort_floats (v ∷ vs)) p)
  unfolding nearest_rank
  nearest_rank-IsFigure v vs p =
      let n = length (sort_floats (v ∷ vs)) in
      entry-IsFigure (v ∷ vs) (clamp_rank (rank_of p n) n - 1) (
        omega (
          arith,
          length-sort_floats (v ∷ vs),
          clamp_rank_bound (rank_of p n) n (omega (arith, length-sort_floats (v ∷ vs))),
        ))

  -- Of some values, the summary has their number, figures that each are one of them, and as the
  -- largest figure one that no value is above.
  pub summarise-IsSummary : (v : Float) (vs : List Float) → IsSummary (v ∷ vs) (summarise (v ∷ vs))
  unfolding summarise
  summarise-IsSummary v vs = record {
    samples = ap pos (length-sort_floats (v ∷ vs));
    above =
        sort_floats-entries (λ x. less (peak_of (v ∷ vs)) x ≡ false) (v ∷ vs)
          (last_above (sort_floats (v ∷ vs)) float_zero (sort_floats-IsSorted (v ∷ vs)));
    max =
        entry-IsFigure (v ∷ vs) (length (sort_floats (v ∷ vs)) - 1)
          (omega (arith, length-sort_floats (v ∷ vs)));
    p50 = nearest_rank-IsFigure v vs (of_int (pos 50));
    p90 = nearest_rank-IsFigure v vs (of_int (pos 90));
    p95 = nearest_rank-IsFigure v vs (of_int (pos 95));
    p99 = nearest_rank-IsFigure v vs (of_int (pos 99));
  }
