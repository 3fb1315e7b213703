-- ===== src/CpuPool/Layout/Ownership.antt =====
-- Who owns a CPU while the dedicated pods are placed.
use kqos.Prelude.{ℕ, ◌+◌, ◌≤◌, ◌≡◌, inl, inr, Option, none, some, arith, to_ℕ, Bool-cases}
use kqos.Prelude.Int.{ℤ, pos_part}
use kqos.Kubernetes.{QuantityApi, Pod}
use kqos.Qos.{wants_numa_binding}
use kqos.CpuSet.{CpuSet, IsWf, size, contains, take_ids, take_from}
use kqos.CpuSet.Algebra.{contains-difference}
use kqos.CpuSet.Taking.{contains-take_ids, size-take_ids, take_ids-IsWf}
use kqos.CpuSet.TakingFrom.{take_from-Sub, take_from-IsWf, size-take_from, take_from_rest}
use kqos.CpuPool.Topology.{Topology, Zone, zone_for}
use kqos.CpuPool.Layout.{take_zone, pick}

-- The two parts of a set.
pub record Splits (whole taken rest : CpuSet) : Type 0 where
  pub share : (a : ℕ) → to_ℕ (contains taken a) + to_ℕ (contains rest a) ≡ to_ℕ (contains whole a)
  pub sizes : size taken + size rest ≡ size whole
  pub rest_wf : IsWf rest

take_ids-Splits : (c : CpuSet) (n : ℤ) → IsWf c → Splits c (take_ids c n).0 (take_ids c n).1
take_ids-Splits c n d = record {
  share = contains-take_ids c n d;
  sizes = (size-take_ids c n d).1;
  rest_wf = (take_ids-IsWf c n d).1;
}

take_from-Splits :
    (c : CpuSet) (n : ℤ) (p : CpuSet) → IsWf c → Splits c (take_from c n p).0 (take_from c n p).1
take_from-Splits c n p d = record {
  share = λ a.
      rw (take_from_rest c n p d)
        (ground (arith, contains-difference c (take_from c n p).0 a, take_from-Sub c n p d a));
  sizes = (size-take_from c n p d).1;
  rest_wf = (take_from-IsWf c n p d).1;
}

-- What `pick` hands out has at most the size that is wanted.
abbrev Bounded : ℤ → CpuSet → Type 0
Bounded want taken = size taken ≤ pos_part want

take_zone-Splits :
    (free : CpuSet) (want : ℤ) (zone : Option Zone)
    → IsWf free
    → Splits free (take_zone free want zone).0 (take_zone free want zone).1
      × Bounded want (take_zone free want zone).0
take_zone-Splits free want none d =
    (take_ids-Splits free want d, omega (arith, (size-take_ids free want d).0))
take_zone-Splits free want (some zone) d = (
  take_from-Splits free want zone.cpus d,
  omega (arith, (size-take_from free want zone.cpus d).0),
)

module _ {Quantity : Type 0} ⦃api : QuantityApi Quantity⦄ (topology : Topology) where
  pub pick-Splits :
      (pod : Pod Quantity) (free : CpuSet) (want : ℤ)
      → IsWf free
      → Splits free (pick topology pod free want).0 (pick topology pod free want).1
        × Bounded want (pick topology pod free want).0
  unfolding pick
  pick-Splits pod free want d = elim (Bool-cases (wants_numa_binding pod)) [
    | inl e ↦ rw e (take_zone-Splits free want (zone_for topology free want) d)
    | inr e ↦ rw e (take_zone-Splits free want none d)
  ]
