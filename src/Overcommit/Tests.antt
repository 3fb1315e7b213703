-- ===== src/Overcommit/Tests.antt =====
-- Passes of the controller over a concrete node.
use kqos.Prelude.{◌≡◌, refl, true, false, [], ◌∷◌, some, arith}
use kqos.Prelude.Int.{pos, ◌-ℤ◌}
use kqos.Api.{resource_reclaimed_cpu, resource_reclaimed_memory}
use kqos.Kubernetes.{resource_cpu, resource_memory}
use kqos.Overcommit.{Reconciler, Node, found, unchanged, stale, extended_value, sync, reconcile}
use kqos.Overcommit.Sync.{IsSynced, sync-IsSynced}
use kqos.Overcommit.Withdrawal.{OffersNothing, reconcile-OffersNothing, sync_twice}
use kqos.Profile.{NodeResourceProfile}
use kqos.Samples.{Amount, whole, thousandths, amounts}
use kqos.SysAdvisor.Advisor.{no_recommendation}

abbrev reconciler : Reconciler
reconciler = record { min_change_milli = pos 50; min_change_bytes = pos 67_108_864 }

-- A node that offers a core and 100 mebibytes.
abbrev node : Node Amount
node = record {
  name = "n1";
  capacity = (resource_cpu, whole (pos 8)) ∷ [];
  allocatable =
      (resource_reclaimed_cpu, whole (pos 1000))
      ∷ (resource_reclaimed_memory, whole (pos 100))
      ∷ [];
}

abbrev profile : NodeResourceProfile Amount
profile = record {
  name = "n1";
  node_name = "n1";
  status = record {
    capacity = [];
    allocatable = [];
    qos_allocations = [];
    reclaimable =
        (resource_cpu, thousandths (pos 1500)) ∷ (resource_memory, whole (pos 104_857_600)) ∷ [];
    pressure = no_recommendation.pressure;
    cpu_set_pools = [];
    topology_zones = [];
    advisor_revision = pos 3;
    last_report_time = some (pos 10_000_000_000);
    conditions = [];
  };
}

sync-IsSynced_example :
    IsSynced reconciler
      (pos 1500)
      (pos 104_857_600)
      (sync reconciler true (pos 1500) (pos 104_857_600) node).1
unfolding extended_value
sync-IsSynced_example =
    sync-IsSynced reconciler (pos 1500) (pos 104_857_600) node (omega arith) (omega arith)
      (refl, omega arith) (refl, omega arith)
      (record { cpu = (refl, omega arith); memory = (refl, omega arith) })

-- The same node 100 seconds after the last report.
reconcile-OffersNothing_example :
    OffersNothing
      (reconcile reconciler true (λ name. found node) (pos 110_000_000_001) (found profile)).1
unfolding stale ◌-ℤ◌
reconcile-OffersNothing_example =
    reconcile-OffersNothing reconciler (λ name. found node) (pos 110_000_000_001) profile node refl
      refl

sync_twice_example :
    sync reconciler false
      (pos 1500)
      (pos 104_857_600)
      (sync reconciler true (pos 1500) (pos 104_857_600) node).1
    ≡ (unchanged, (sync reconciler true (pos 1500) (pos 104_857_600) node).1)
sync_twice_example =
    sync_twice reconciler (pos 1500) (pos 104_857_600) node (omega arith) (omega arith) false
