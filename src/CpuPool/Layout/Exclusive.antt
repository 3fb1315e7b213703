-- ===== src/CpuPool/Layout/Exclusive.antt =====
-- What the layout promises to each tier, and where the reclaimed pool breaks the promise.
use kqos.Prelude.{
  ℕ, ◌+◌, ◌≤◌, ◌<◌, ◌≡◌, ◌∙◌, ◌⊎◌, inl, inr, refl, Bool, true, not, ◌&&◌, List, [], ◌∷◌, arith,
  to_ℕ, count-append, map,
}
use kqos.Prelude.Int.{ℤ, pos, ◌≤ℤ◌, ◌<ℤ◌}
use kqos.Api.{QosLevel, shared_cores, reclaimed_cores}
use kqos.Kubernetes.{QuantityApi, Pod}
use kqos.CpuSet.{CpuSet, IsWf, size, contains, difference}
use kqos.CpuSet.Algebra.{contains-difference}
use kqos.CpuPool.Topology.{Topology}
use kqos.CpuPool.Layout.{
  Pool, Config, at_least_one, reserved_cpus, dedicated_layout, shared_cpus, reclaimed_cpus,
  compute_pools, with_members,
}
use kqos.CpuPool.Layout.Partition.{
  owned, guaranteed, is_dedicated, is_system, Inv, dedicated_layout-Inv, owned-base, reserved-share,
  base,
}

owned-with_members :
    {Quantity : Type 0} ⦃api : QuantityApi Quantity⦄ (keep : QosLevel → Bool) (a : ℕ)
    (pods : List (Pod Quantity)) (pools : List Pool)
    → owned keep a (map (with_members pods) pools) ≡ owned keep a pools
owned-with_members keep a pods [] = refl
owned-with_members keep a pods (p ∷ ps) = ground (arith, owned-with_members keep a pods ps)

-- The levels that are counted on the left are counted once on the right.
owned-add-le :
    (p q r : QosLevel → Bool) (a : ℕ) (pools : List Pool)
    → ((l : QosLevel) → to_ℕ (p l) + to_ℕ (q l) ≤ to_ℕ (r l))
    → owned p a pools + owned q a pools ≤ owned r a pools
owned-add-le p q r a [] h = omega arith
owned-add-le p q r a (x ∷ xs) h = ground (arith, h x.level, owned-add-le p q r a xs h)

to_ℕ-le : (b : Bool) → to_ℕ b ≤ 1
to_ℕ-le b = ground arith

module _ {Quantity : Type 0} ⦃api : QuantityApi Quantity⦄ (topology : Topology) (cfg : Config)
    (pods : List (Pod Quantity)) (wf : IsWf topology.online) where
  abbrev placed : List Pool
  placed = (dedicated_layout topology cfg pods).pools

  abbrev left_free : CpuSet
  left_free = (dedicated_layout topology cfg pods).free

  abbrev min_shared : ℤ
  min_shared = at_least_one cfg.shared_pool_min_cpus

  inv : Inv cfg topology.online min_shared (dedicated_layout topology cfg pods)
  inv = dedicated_layout-Inv topology cfg pods wf

  owned-compute_pools :
      (keep : QosLevel → Bool) (a : ℕ)
      → owned keep a (compute_pools topology cfg pods)
        ≡ owned keep a placed
          + (to_ℕ (keep shared_cores && contains (shared_cpus topology cfg pods) a)
              + (to_ℕ (keep reclaimed_cores && contains (reclaimed_cpus topology cfg pods) a) + 0))
  unfolding compute_pools
  owned-compute_pools keep a =
      owned-with_members keep a pods _
      ∙ count-append (λ pool. keep pool.level && contains pool.cpus a) placed _

  -- If the shared pool had to be widened, no dedicated pod was given CPUs.
  widened_cases :
      (min_shared ≤ℤ pos (size left_free)) × (shared_cpus topology cfg pods ≡ left_free)
      ⊎ (placed ≡ base cfg topology.online)
        × (shared_cpus topology cfg pods
            ≡ difference topology.online (reserved_cpus cfg topology.online))
  unfolding shared_cpus
  widened_cases = ground (arith, inv.room)

  owned-shared :
      (a : ℕ)
      → owned guaranteed a placed + to_ℕ (contains (shared_cpus topology cfg pods) a)
        ≡ to_ℕ (contains topology.online a)
  owned-shared a = elim widened_cases [
    | inl (_, e) ↦ rw e (inv.share a)
    | inr (p, e) ↦
        rw (p, e)
          (ground (
            arith,
            owned-base cfg topology.online guaranteed a,
            reserved-share cfg topology.online a,
            contains-difference topology.online (reserved_cpus cfg topology.online) a,
          ))
  ]

  -- Every online CPU is in exactly one of the reserved pool, the dedicated pools and the shared
  -- pool, and no other CPU is in any: these tiers never share a CPU.
  pub guaranteed_partition :
      (a : ℕ)
      → owned guaranteed a (compute_pools topology cfg pods) ≡ to_ℕ (contains topology.online a)
  guaranteed_partition a = omega (arith, owned-compute_pools guaranteed a, owned-shared a)

  owned-dedicated :
      (a : ℕ) → owned is_dedicated a (compute_pools topology cfg pods) ≡ owned is_dedicated a placed
  owned-dedicated a = omega (arith, owned-compute_pools is_dedicated a)

  -- The shared pool has its floor, or it is all that is not reserved and no pod has CPUs of its own.
  pub shared_floor :
      (min_shared ≤ℤ pos (size (shared_cpus topology cfg pods)))
      ⊎ ((a : ℕ)
          → (owned is_dedicated a (compute_pools topology cfg pods) ≡ 0)
            × (contains (shared_cpus topology cfg pods) a ≡ (
                contains topology.online a
                && not (contains (reserved_cpus cfg topology.online) a))))
  shared_floor = elim widened_cases [
    | inl (h, e) ↦ inl (rw e h)
    | inr (p, e) ↦ inr λ a. (
      owned-dedicated a ∙ rw p (owned-base cfg topology.online is_dedicated a),
      rw e (contains-difference topology.online (reserved_cpus cfg topology.online) a),
    )
  ]

  reclaimed_large :
      at_least_one cfg.reclaimed_pool_min_cpus ≤ℤ pos (size (shared_cpus topology cfg pods))
      → reclaimed_cpus topology cfg pods ≡ shared_cpus topology cfg pods
  unfolding reclaimed_cpus
  reclaimed_large h = ground arith

  reclaimed_small :
      pos (size (shared_cpus topology cfg pods)) <ℤ at_least_one cfg.reclaimed_pool_min_cpus
      → reclaimed_cpus topology cfg pods
        ≡ difference topology.online (reserved_cpus cfg topology.online)
  unfolding reclaimed_cpus
  reclaimed_small h = ground arith

  dedicated_system_le :
      (a : ℕ) → owned is_dedicated a placed + owned is_system a placed ≤ owned guaranteed a placed
  dedicated_system_le a =
      owned-add-le is_dedicated is_system guaranteed a placed (λ l. ground arith)

  -- Where the shared pool is large enough for the reclaimed tier, no reclaimed pod runs on a CPU of
  -- a dedicated one.
  pub reclaimed_apart :
      at_least_one cfg.reclaimed_pool_min_cpus ≤ℤ pos (size (shared_cpus topology cfg pods))
      → (a : ℕ)
      → owned is_dedicated a (compute_pools topology cfg pods)
          + to_ℕ (contains (reclaimed_cpus topology cfg pods) a)
        ≤ 1
  reclaimed_apart h a = rw (reclaimed_large h) (
      omega (
        arith,
        owned-dedicated a,
        owned-shared a,
        dedicated_system_le a,
        to_ℕ-le (contains topology.online a),
      ))

  -- Where it is too small, the reclaimed pool takes in every CPU that a dedicated pod was given.
  pub reclaimed_overlaps_dedicated :
      pos (size (shared_cpus topology cfg pods)) <ℤ at_least_one cfg.reclaimed_pool_min_cpus
      → (a : ℕ) → 0 < owned is_dedicated a (compute_pools topology cfg pods)
      → contains (reclaimed_cpus topology cfg pods) a ≡ true
  reclaimed_overlaps_dedicated h a own = rw (reclaimed_small h) (
      ground (
        arith,
        owned-dedicated a,
        owned-shared a,
        dedicated_system_le a,
        inv.system a,
        contains-difference topology.online (reserved_cpus cfg topology.online) a,
      ))
