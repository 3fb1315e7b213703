-- ===== src/CpuPool.antt =====
-- pkg/agent/cpupool: the CPU layout of one node (pool.go, topology.go).
pub mod Topology
pub mod Layout
pub mod Applying
use kqos.Prelude.{
  ℕ, ◌+◌, Bool, true, false, not, List, [], ◌∷◌, ◌++◌, Option, none, some, String, str_eq,
  if◌then◌else◌, ◌==◌,
}
use mathlib.Core.List.{reverse}
use kqos.Prelude.Int.{ℤ, pos, ltb_ℤ, eqb_ℤ, ◌+ℤ◌, ◌/ℤ◌, ◌%ℤ◌}
use kqos.Api.{QosLevel, dedicated_cores, shared_cores, reclaimed_cores, system_cores}
use kqos.Kubernetes.{QuantityApi, Pod, lookup, resource_cpu}
use kqos.Qos.{effective_requests, level_of, wants_numa_binding}

-- `WeightSystem`, `WeightDedicated`, `WeightShared` and `WeightReclaimed`
unfoldable pub weight_for : QosLevel → ℕ
weight_for system_cores = 10000
weight_for dedicated_cores = 5000
weight_for reclaimed_cores = 10
weight_for _ = 1000

-- A request in milli-cores, rounded up to whole cores.
abbrev pub cores_of_milli : ℤ → ℤ
cores_of_milli milli =
    if eqb_ℤ (milli %ℤ pos 1000) (pos 0) then milli /ℤ pos 1000 else milli /ℤ pos 1000 +ℤ pos 1

module _ {Quantity : Type 0} ⦃api : QuantityApi Quantity⦄ where
  open api use {milli_value}

  unfoldable pub whole_cores_for : Pod Quantity → ℤ
  whole_cores_for pod = elim (lookup resource_cpu (effective_requests pod)) [
    | none ↦ pos 0
    | some q ↦ cores_of_milli (milli_value q)
  ]

  -- The inner loop of `sortPodsByCPUDesc`: the pod moves left past each smaller one. The part of
  -- the slice that is in order is kept backwards, its last pod first.
  unfoldable pub move_left : Pod Quantity → List (Pod Quantity) → List (Pod Quantity)
  move_left pod [] = pod ∷ []
  move_left pod (p ∷ ps) =
      if ltb_ℤ (whole_cores_for p) (whole_cores_for pod) then p ∷ move_left pod ps else pod ∷ p ∷ ps

  unfoldable pub sort_from : List (Pod Quantity) → List (Pod Quantity) → List (Pod Quantity)
  sort_from done [] = reverse done
  sort_from done (pod ∷ pods) = sort_from (move_left pod done) pods

  unfoldable pub sort_pods_by_cpu_desc : List (Pod Quantity) → List (Pod Quantity)
  unfolding sort_from move_left
  sort_pods_by_cpu_desc pods = sort_from [] pods
