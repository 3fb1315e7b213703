-- ===== src/Policy/Rollup/Tests.antt =====
-- The rollup of three profiles.
use kqos.Prelude.{◌≡◌, [], ◌∷◌, Option, none, some, String, List, arith}
use kqos.Prelude.Int.{ℤ, pos, ◌-ℤ◌}
use kqos.Agent.Configuration.{default_spec}
use kqos.Kubernetes.{resource_cpu}
use kqos.Policy.{QosPolicy}
use kqos.Policy.Rollup.{rollup}
use kqos.Policy.Rollup.Counted.{rollup-count}
use kqos.Profile.{NodeResourceProfile}
use kqos.Samples.{Amount, whole, amounts, whole_floats}
use kqos.SysAdvisor.Advisor.{no_recommendation, PressureLevel, no_pressure, critical, unset_level}
use kqos.SysAdvisor.Recommend.{default_config}

abbrev profile_of : String → PressureLevel → Option ℤ → NodeResourceProfile Amount
profile_of name level at = record {
  name = name;
  node_name = name;
  status = record {
    capacity = [];
    allocatable = (resource_cpu, whole (pos 8)) ∷ [];
    qos_allocations = [];
    reclaimable = (resource_cpu, whole (pos 2)) ∷ [];
    pressure = record no_recommendation.pressure { level = level };
    cpu_set_pools = [];
    topology_zones = [];
    advisor_revision = pos 1;
    last_report_time = at;
    conditions = [];
  };
}

-- A quiet node, one under pressure that is silent, and one that has not reported yet.
abbrev profiles : List (NodeResourceProfile Amount)
profiles =
    profile_of "n1" no_pressure (some (pos 100_000_000_000))
    ∷ profile_of "n2" critical (some (pos 1))
    ∷ profile_of "n3" unset_level none
    ∷ []

abbrev policy : QosPolicy Amount String
policy = record {
  spec = default_spec (default_config {Float = ℤ});
  status = record {
    observed_nodes = pos 0;
    ready_nodes = pos 0;
    total_reclaimable_cpu = whole (pos 0);
    total_reclaimable_memory = whole (pos 0);
    effective_overcommit_percent = pos 0;
    nodes_under_pressure = pos 0;
    last_updated = pos 0;
    conditions = [];
  };
}

rollup-count_example :
    ((rollup none (pos 120_000_000_000) profiles policy).observed_nodes ≡ pos 3)
    × ((rollup none (pos 120_000_000_000) profiles policy).ready_nodes ≡ pos 1)
    × ((rollup none (pos 120_000_000_000) profiles policy).nodes_under_pressure ≡ pos 2)
unfolding ◌-ℤ◌
rollup-count_example = rollup-count none (pos 120_000_000_000) profiles policy (omega arith)
