-- ===== src/CpuPool/Applying/Tests.antt =====
-- Two passes over two pods on four CPUs.
use kqos.Prelude.{false, ◌≡◌, refl, true, [], ◌∷◌, some}
use kqos.Prelude.Int.{pos}
use kqos.CpuPool.Applying.{Manager, Cgroups, apply_layout}
use kqos.CpuPool.Applying.Repeated.{apply_layout_twice}
use kqos.Samples.{amounts, pod_of}

abbrev cgroups : Cgroups
cgroups = record { pod_path = λ uid. some uid; succeeds = λ w. true }

abbrev manager : Manager
manager = record {
  topology = record { zones = []; online = record { elems = 0 ∷ 1 ∷ 2 ∷ 3 ∷ [] } };
  cfg = record {
    cpu_set_enabled = true;
    reserved_system_cpus = [];
    shared_pool_min_cpus = pos 1;
    reclaimed_pool_min_cpus = pos 1;
  };
  applied_weight = [];
  applied_cpu_set = [];
  last_pools = [];
}

apply_layout_twice_example :
    (apply_layout
      (record cgroups { succeeds = λ w. false })
      (pod_of "a" 2 ∷ pod_of "b" 1 ∷ [])
      (apply_layout cgroups (pod_of "a" 2 ∷ pod_of "b" 1 ∷ []) manager).0).1
    ≡ []
apply_layout_twice_example =
    apply_layout_twice cgroups (λ w. false) (pod_of "a" 2 ∷ pod_of "b" 1 ∷ []) manager (λ w. refl)
      ((refl, tt), (tt, tt))
