-- ===== src/CpuPool/Layout/Tests.antt =====
-- A node of four CPUs on which one pod asks for two of its own, and the properties there.
use kqos.Prelude.{ℕ, ◌+◌, ◌≤◌, ◌≡◌, ◌⊎◌, refl, arith, true, not, ◌&&◌, List, [], ◌∷◌, to_ℕ, select}
use kqos.Prelude.Int.{pos, ◌≤ℤ◌, ◌*ℤ◌, ◌/ℤ◌, ◌%ℤ◌, ◌-ℤ◌, ◌+ℤ◌}
use kqos.CpuPool
use kqos.CpuSet
use kqos.Qos
use kqos.Api
use kqos.Kubernetes
use kqos.Samples.{Amount, amounts, pod_of}
use kqos.Kubernetes.{Pod}
use kqos.CpuSet.{CpuSet, IsWf, contains, size, new_range, put_range, put}
use kqos.CpuPool.Topology.{Topology}
use kqos.CpuPool.Layout.{
  Config, Pool, compute_pools, shared_cpus, reclaimed_cpus, at_least_one, reserved_cpus,
}
use kqos.CpuPool.Layout.Partition.{owned, guaranteed, is_dedicated}
use kqos.CpuPool.Layout.Exclusive.{
  guaranteed_partition, shared_floor, reclaimed_apart, reclaimed_overlaps_dedicated,
}

abbrev node : Topology
node = record { zones = []; online = record { elems = 0 ∷ 1 ∷ 2 ∷ 3 ∷ [] } }

abbrev config : ℕ → Config
config reclaimed = record {
  cpu_set_enabled = true;
  reserved_system_cpus = [];
  shared_pool_min_cpus = pos 2;
  reclaimed_pool_min_cpus = pos reclaimed;
}

abbrev pods : List (Pod Amount)
pods = pod_of "a" 2 ∷ []

node-IsWf : IsWf node.online
node-IsWf = (refl, (refl, (refl, (refl, tt))))

-- What the tests below run.
layout_code : Unit {0}
unfolding shared_cpus size CpuPool.Layout.dedicated_layout CpuPool.Layout.assign_all
    CpuPool.sort_pods_by_cpu_desc CpuPool.Layout.dedicated_pods Qos.level_of Qos.native_qos ◌*ℤ◌
    CpuPool.Layout.assign CpuPool.whole_cores_for Qos.effective_requests Qos.sum_pod Qos.raise_inits
    Qos.sum_apps Kubernetes.put_key ◌%ℤ◌ ◌/ℤ◌ Api.is_valid Api.to_level CpuPool.Layout.pick
    reserved_cpus CpuPool.Layout.start_layout CpuPool.Layout.unreserved_cpus
    CpuPool.Topology.best_zone CpuPool.Topology.zone_for CpuPool.move_left CpuPool.sort_from
    contains CpuSet.difference CpuSet.insert_sorted CpuSet.intersection CpuSet.is_empty CpuSet.list
    CpuSet.new put CpuSet.put_if put_range CpuSet.sort_ints CpuSet.take_from CpuSet.take_ids
    CpuSet.union select ◌+ℤ◌ ◌-ℤ◌ Qos.add Qos.add_all Qos.extended_sum Qos.extended_total
    Qos.inferred_level Qos.pod_requests Qos.raise_all Qos.scan_containers Qos.scan_name
    Qos.wants_numa_binding compute_pools reclaimed_cpus
layout_code = tt

shared_size : size (shared_cpus node (config 1) pods) ≡ 2
unfolding layout_code
shared_size = refl

shared_size_wide : size (shared_cpus node (config 3) pods) ≡ 2
unfolding layout_code
shared_size_wide = refl

reclaimed_all : reclaimed_cpus node (config 3) pods ≡ record { elems = 3 ∷ 2 ∷ 1 ∷ 0 ∷ [] }
unfolding layout_code
reclaimed_all = refl

dedicated_zero : owned is_dedicated 0 (compute_pools node (config 3) pods) ≡ 1
unfolding layout_code
dedicated_zero = refl

guaranteed_partition_example : owned guaranteed 3 (compute_pools node (config 1) pods) ≡ 1
unfolding contains
guaranteed_partition_example = guaranteed_partition node (config 1) pods node-IsWf 3

shared_floor_example :
    (at_least_one (pos 2) ≤ℤ pos (size (shared_cpus node (config 1) pods)))
    ⊎ ((a : ℕ)
        → (owned is_dedicated a (compute_pools node (config 1) pods) ≡ 0)
          × (contains (shared_cpus node (config 1) pods) a ≡ (
              contains node.online a && not (contains (reserved_cpus (config 1) node.online) a))))
shared_floor_example = shared_floor node (config 1) pods node-IsWf

reclaimed_apart_example :
    owned is_dedicated 0 (compute_pools node (config 1) pods)
      + to_ℕ (contains (reclaimed_cpus node (config 1) pods) 0)
    ≤ 1
reclaimed_apart_example =
    reclaimed_apart node (config 1) pods node-IsWf (omega (arith, shared_size)) 0

reclaimed_overlaps_dedicated_example : contains (reclaimed_cpus node (config 3) pods) 0 ≡ true
reclaimed_overlaps_dedicated_example =
    reclaimed_overlaps_dedicated node (config 3) pods node-IsWf (omega (arith, shared_size_wide)) 0
      (omega (arith, dedicated_zero))
