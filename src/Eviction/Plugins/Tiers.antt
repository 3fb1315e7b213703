-- ===== src/Eviction/Plugins/Tiers.antt =====
-- The memory plugin takes the tiers in order: the cheapest to lose first.
use kqos.Prelude.{
  AllOf, ℕ, ◌≤◌, ◌≡◌, refl, ap, true, false, List, [], ◌∷◌, ◌++◌, some, map, Bool-cases, inl, inr,
  arith,
}
use mathlib.Core.Path.{subst}
use kqos.Prelude.Int.{ℤ, pos, leb_ℤ, ltb_ℤ, int64, ◌+ℤ◌, ◌-ℤ◌, ◌*ℤ◌, ◌/ℤ◌}
use kqos.Api.{eviction_rank}
use kqos.Eviction.Plugins.{
  PodUsage, insert_stable, sort_stable, tier_before, rank_by_tier_then_usage, usages_for, memory_of,
  free_until, memory_pressure,
}
use kqos.Eviction.Signals.{Signal, Verdict}
use kqos.Floats.{FloatApi}
use kqos.Kubernetes.{QuantityApi, resource_memory}
use kqos.SysAdvisor.Recommend.{bytes_of}

module _ {Float Quantity : Type 0} where
  abbrev pub rank_of : PodUsage Float Quantity → ℕ
  rank_of u = eviction_rank u.level

  -- No pod of `us` has a rank above `bound`.
  abbrev pub NoneAbove : ℕ → List (PodUsage Float Quantity) → Type 0
  NoneAbove bound us = AllOf (λ u. rank_of u ≤ bound) us

  -- The ranks do not rise.
  abbrev pub Descending : List (PodUsage Float Quantity) → Type 0
  Descending [] = Unit
  Descending (u ∷ us) = NoneAbove (rank_of u) us × Descending us

  NoneAbove-mono :
      (m n : ℕ) (us : List (PodUsage Float Quantity)) → m ≤ n → NoneAbove m us → NoneAbove n us
  NoneAbove-mono m n [] h a = a
  NoneAbove-mono m n (u ∷ us) h a = (omega (arith, a.0), NoneAbove-mono m n us h a.1)

module _ {Float Quantity : Type 0} ⦃f : FloatApi Float⦄ ⦃api : QuantityApi Quantity⦄
    (weight : PodUsage Float Quantity → Float) where
  tier_before_rank :
      (a b : PodUsage Float Quantity) → tier_before weight a b ≡ true → rank_of b ≤ rank_of a
  unfolding tier_before
  tier_before_rank a b h = ground arith

  not_tier_before_rank :
      (a b : PodUsage Float Quantity) → tier_before weight a b ≡ false → rank_of a ≤ rank_of b
  unfolding tier_before
  not_tier_before_rank a b h = ground arith

  insert-NoneAbove :
      (bound : ℕ) (v : PodUsage Float Quantity) (us : List (PodUsage Float Quantity))
      → rank_of v ≤ bound
      → NoneAbove bound us
      → NoneAbove bound (insert_stable (tier_before weight) v us)
  unfolding insert_stable
  insert-NoneAbove bound v [] h a = (h, tt)
  insert-NoneAbove bound v (u ∷ us) h a = elim (Bool-cases (tier_before weight u v)) [
    | inl e ↦ rw e (a.0, insert-NoneAbove bound v us h a.1)
    | inr e ↦ rw e (h, a)
  ]

  insert-Descending :
      (v : PodUsage Float Quantity) (us : List (PodUsage Float Quantity))
      → Descending us
      → Descending (insert_stable (tier_before weight) v us)
  unfolding insert_stable
  insert-Descending v [] d = (tt, tt)
  insert-Descending v (u ∷ us) d = elim (Bool-cases (tier_before weight u v)) [
    | inl e ↦
        rw e (
          insert-NoneAbove (rank_of u) v us (tier_before_rank u v e) d.0,
          insert-Descending v us d.1,
        )
    | inr e ↦
        let le = not_tier_before_rank u v e in
        rw e ((le, NoneAbove-mono (rank_of u) (rank_of v) us le d.0), d)
  ]

  sort-Descending :
      (us : List (PodUsage Float Quantity)) → Descending (sort_stable (tier_before weight) us)
  unfolding sort_stable
  sort-Descending [] = tt
  sort-Descending (u ∷ us) = insert-Descending u _ (sort-Descending us)

module _ {Float Quantity : Type 0} ⦃f : FloatApi Float⦄ ⦃api : QuantityApi Quantity⦄ where
  -- `front` is proposed and `back` is not.
  pub record Split (candidates : List (PodUsage Float Quantity))
      (verdicts : List (Verdict Float Quantity)) : Type 0 where
    pub front : List (PodUsage Float Quantity)
    pub back : List (PodUsage Float Quantity)
    pub all : candidates ≡ front ++ back
    pub proposed :
        map (λ (v : Verdict Float Quantity). v.pod) verdicts
        ≡ map (λ (u : PodUsage Float Quantity). u.pod) front
    pub cheaper : AllOf (λ u. NoneAbove (rank_of u) back) front

  NoneAbove-back :
      (n : ℕ) (front back : List (PodUsage Float Quantity))
      → NoneAbove n (front ++ back)
      → NoneAbove n back
  NoneAbove-back n [] back h = h
  NoneAbove-back n (u ∷ front) back h = NoneAbove-back n front back h.1

  free_until-Split :
      (must_free freed : ℤ) (us : List (PodUsage Float Quantity))
      → Descending us
      → Split us (free_until must_free us freed)
  unfolding free_until
  free_until-Split must_free freed [] d = record {
    front = [];
    back = [];
    all = refl;
    proposed = refl;
    cheaper = tt;
  }
  free_until-Split must_free freed (c ∷ cs) d = elim (Bool-cases (leb_ℤ must_free freed)) [
    | inl e ↦ rw e record { front = []; back = c ∷ cs; all = refl; proposed = refl; cheaper = tt }
    | inr e ↦
        let rest =
          free_until-Split must_free (int64 (freed +ℤ int64 (pos c.memory_bytes))) cs d.1 in
        rw e record {
          front = c ∷ rest.front;
          back = rest.back;
          all = ap (◌∷◌ c) rest.all;
          proposed = ap (◌∷◌ c.pod) rest.proposed;
          cheaper = (
            NoneAbove-back (rank_of c) rest.front rest.back
                (subst (λ us. NoneAbove (rank_of c) us) rest.all d.0),
            rest.cheaper,
          );
        }
  ]

  none_proposed : (candidates : List (PodUsage Float Quantity)) → Split candidates []
  none_proposed candidates = record {
    front = [];
    back = candidates;
    all = refl;
    proposed = refl;
    cheaper = tt;
  }

  -- The amounts that the memory plugin computes.
  abbrev alloc : Signal Float Quantity → ℤ
  alloc sig = bytes_of sig.allocatable resource_memory

  abbrev util : Signal Float Quantity → ℤ
  util sig = int64 (int64 (pos sig.sample.memory_bytes) *ℤ pos 100) /ℤ alloc sig

  abbrev must_free : Signal Float Quantity → ℤ
  must_free sig = int64 (
      int64 (pos sig.sample.memory_bytes)
      -ℤ int64 (alloc sig *ℤ (sig.config.memory_pressure_threshold_percent -ℤ pos 5)) /ℤ pos 100)

  -- The memory plugin does not fail, and what it proposes is a front part of its candidates, the
  -- others of which have no rank above that of a proposed one.
  pub memory_pressure-Split :
      (sig : Signal Float Quantity)
      → (vs : List (Verdict Float Quantity)) × (memory_pressure sig ≡ some vs)
        × Split (rank_by_tier_then_usage sig memory_of) vs
  unfolding memory_pressure rank_by_tier_then_usage
  memory_pressure-Split sig = elim (Bool-cases (leb_ℤ (alloc sig) (pos 0))) [
    | inl e ↦ ([], simp e refl, none_proposed _)
    | inr e ↦ elim (Bool-cases (ltb_ℤ (util sig) sig.config.memory_pressure_threshold_percent)) [
      | inl g ↦ ([], simp (e, g) refl, none_proposed _)
      | inr g ↦ elim (Bool-cases (leb_ℤ (must_free sig) (pos 0))) [
        | inl k ↦ ([], simp (e, g, k) refl, none_proposed _)
        | inr k ↦ (
          free_until (must_free sig) (rank_by_tier_then_usage sig memory_of) (pos 0),
          simp (e, g, k) refl,
          free_until-Split (must_free sig) (pos 0) _
              (sort-Descending memory_of (usages_for sig sig.pods)),
        )
      ]
    ]
  ]
