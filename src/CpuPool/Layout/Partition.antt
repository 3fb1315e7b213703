-- ===== src/CpuPool/Layout/Partition.antt =====
-- The pools of the guaranteed tiers share the online CPUs out between them.
use kqos.Prelude.{
  ℕ, ◌+◌, ◌≤◌, ◌≡◌, ◌⊎◌, inl, inr, refl, Bool, false, not, ◌&&◌, List, [], ◌∷◌, arith, ◌==◌, to_ℕ,
  count, count-append, Bool-cases,
}
use kqos.Prelude.Int.{ℤ, pos, pos_part, ltb_ℤ, ◌-ℤ◌, ◌≤ℤ◌, -ℤ_parts}
use kqos.Strings.{is_nil}
use kqos.Api.{QosLevel, dedicated_cores, reclaimed_cores, system_cores, level_eq}
use kqos.Kubernetes.{QuantityApi, Pod}
use kqos.CpuSet.{CpuSet, IsWf, none_set, size, is_empty, contains, intersection}
use kqos.CpuSet.Algebra.{contains-intersection, contains-difference, difference-IsWf}
use kqos.CpuSet.TakingFrom.{contains_none}
use kqos.CpuSet.Format.{Result, ok, err, endless, parse}
use kqos.CpuPool.{whole_cores_for}
use kqos.CpuPool.Topology.{Topology}
use kqos.CpuPool.Layout.{
  Pool, Config, Layout, at_least_one, reserved_cpus, reserved_of, unreserved_cpus, remaining_of,
  start_layout, pick, dedicated_pool, assign, assign_all, dedicated_layout,
}
use kqos.CpuPool.Layout.Ownership.{Splits, pick-Splits}

-- In how many of the pools at the levels that `keep` names a CPU is.
abbrev pub owned : (QosLevel → Bool) → ℕ → List Pool → ℕ
owned keep a pools = count (λ pool. keep pool.level && contains pool.cpus a) pools

-- The tiers whose CPUs are promised: all but the reclaimed one.
abbrev pub guaranteed : QosLevel → Bool
guaranteed level = not (level_eq level reclaimed_cores)

abbrev pub is_dedicated : QosLevel → Bool
is_dedicated level = level_eq level dedicated_cores

abbrev pub is_system : QosLevel → Bool
is_system level = level_eq level system_cores

pub reserved-share :
    (cfg : Config) (online : CpuSet) (a : ℕ)
    → to_ℕ (contains (reserved_cpus cfg online) a) + to_ℕ (contains (unreserved_cpus cfg online) a)
      ≡ to_ℕ (contains online a)
unfolding reserved_cpus unreserved_cpus
reserved-share cfg online a = elim (Bool-cases (is_nil cfg.reserved_system_cpus)) [
  | inl e ↦ rw e (nothing online a)
  | inr e ↦ rw e (parsed (parse cfg.reserved_system_cpus))
]
  where
    nothing :
        (c : CpuSet) (a : ℕ)
        → to_ℕ (contains none_set a) + to_ℕ (contains c a) ≡ to_ℕ (contains c a)
    nothing c a = unfold contains in omega arith

    parsed :
        (r : Result CpuSet)
        → to_ℕ (contains (reserved_of r online) a) + to_ℕ (contains (remaining_of r online) a)
          ≡ to_ℕ (contains online a)
    parsed (ok c) = ground (
      arith,
      contains-intersection c online a,
      contains-difference online (intersection c online) a,
    )
    parsed (err e) = nothing online a
    parsed endless = nothing online a

unreserved-IsWf : (cfg : Config) (online : CpuSet) → IsWf online → IsWf (unreserved_cpus cfg online)
unfolding unreserved_cpus
unreserved-IsWf cfg online d = elim (Bool-cases (is_nil cfg.reserved_system_cpus)) [
  | inl e ↦ rw e d
  | inr e ↦ rw e (parsed (parse cfg.reserved_system_cpus))
]
  where
    parsed : (r : Result CpuSet) → IsWf (remaining_of r online)
    parsed (ok c) = difference-IsWf online (intersection c online)
    parsed (err e) = d
    parsed endless = d

module _ (cfg : Config) (online : CpuSet) where
  abbrev pub base : List Pool
  base = (start_layout cfg online).pools

  -- What holds while the dedicated pods are placed.
  pub record Inv (min_shared : ℤ) (l : Layout) : Type 0 where
    pub wf : IsWf l.free
    pub share :
        (a : ℕ) → owned guaranteed a l.pools + to_ℕ (contains l.free a) ≡ to_ℕ (contains online a)
    pub system : (a : ℕ) → owned is_system a l.pools ≡ to_ℕ (contains (reserved_cpus cfg online) a)
    pub reclaimed : (a : ℕ) → owned (λ level. level_eq level reclaimed_cores) a l.pools ≡ 0
    pub room : (l.pools ≡ base) ⊎ (min_shared ≤ℤ pos (size l.free))

  pub owned-base :
      (keep : QosLevel → Bool) (a : ℕ)
      → owned keep a base ≡ to_ℕ (keep system_cores && contains (reserved_cpus cfg online) a)
  unfolding start_layout is_empty size
  owned-base keep a = ground (arith, contains_none (reserved_cpus cfg online) a)

  pub start-Inv : (min_shared : ℤ) → IsWf online → Inv min_shared (start_layout cfg online)
  unfolding start_layout
  start-Inv min_shared d = record {
    wf = unreserved-IsWf cfg online d;
    share = λ a. omega (arith, owned-base guaranteed a, reserved-share cfg online a);
    system = λ a. owned-base is_system a;
    reclaimed = λ a. owned-base (λ level. level_eq level reclaimed_cores) a;
    room = inl refl;
  }

module _ {Quantity : Type 0} ⦃api : QuantityApi Quantity⦄ (topology : Topology) (cfg : Config)
    (online : CpuSet) (min_shared : ℤ) where
  -- One dedicated pod keeps the invariant, whether it is given CPUs or falls back.
  assign-Inv :
      (pod : Pod Quantity) (l : Layout)
      → Inv cfg online min_shared l
      → Inv cfg online min_shared (assign topology min_shared pod l)
  unfolding assign
  assign-Inv pod l v = elim (Bool-cases (ltb_ℤ want (pos 1))) [
    | inl e ↦ rw e v
    | inr small ↦ elim (Bool-cases (ltb_ℤ (pos (size l.free) -ℤ want) min_shared)) [
      | inl e ↦ rw (small, e) v
      | inr fits ↦ elim (Bool-cases (size picked.0 == 0)) [
        | inl e ↦
            rw (small, fits, e)
              (record {
                wf = splits.0.rest_wf;
                share = λ a. ground (arith, v.share a, splits.0.share a, contains_none picked.0 a);
                system = v.system;
                reclaimed = v.reclaimed;
                room = inr (roomy small fits);
              })
        | inr e ↦
            rw (small, fits, e)
              (record {
                wf = splits.0.rest_wf;
                share = λ a. omega (
                  arith,
                  v.share a,
                  splits.0.share a,
                  count-append (holds guaranteed a) l.pools own,
                );
                system =
                    λ a. omega (arith, v.system a, count-append (holds is_system a) l.pools own);
                reclaimed = λ a. omega (
                  arith,
                  v.reclaimed a,
                  count-append (holds (λ level. level_eq level reclaimed_cores) a) l.pools own,
                );
                room = inr (roomy small fits);
              })
      ]
    ]
  ]
    where
      want : ℤ
      want = whole_cores_for pod

      picked : CpuSet × CpuSet
      picked = pick topology pod l.free want

      own : List Pool
      own = dedicated_pool pod.uid picked.0 ∷ []

      splits : Splits l.free picked.0 picked.1 × (size picked.0 ≤ pos_part want)
      splits = pick-Splits topology pod l.free want v.wf

      holds : (QosLevel → Bool) → ℕ → Pool → Bool
      holds keep a pool = keep pool.level && contains pool.cpus a

      roomy :
          ltb_ℤ want (pos 1) ≡ false
          → ltb_ℤ (pos (size l.free) -ℤ want) min_shared ≡ false
          → min_shared ≤ℤ pos (size picked.1)
      roomy small fits = ground (arith, splits.0.sizes, splits.1, -ℤ_parts (pos (size l.free)) want)

  pub assign_all-Inv :
      (pods : List (Pod Quantity)) (l : Layout)
      → Inv cfg online min_shared l
      → Inv cfg online min_shared (assign_all topology min_shared pods l)
  unfolding assign_all
  assign_all-Inv [] l v = v
  assign_all-Inv (pod ∷ pods) l v = assign_all-Inv pods _ (assign-Inv pod l v)

pub dedicated_layout-Inv :
    {Quantity : Type 0} ⦃api : QuantityApi Quantity⦄ (topology : Topology) (cfg : Config)
    (pods : List (Pod Quantity))
    → IsWf topology.online
    → Inv cfg topology.online
        (at_least_one cfg.shared_pool_min_cpus)
        (dedicated_layout topology cfg pods)
unfolding dedicated_layout
dedicated_layout-Inv topology cfg pods d =
    assign_all-Inv topology cfg topology.online (at_least_one cfg.shared_pool_min_cpus) _ _
      (start-Inv cfg topology.online _ d)
