-- ===== src/Agent/Report.antt =====
-- pkg/agent/report.go: what the agent writes to the node's profile and sends to the controller. The
-- owner of a pod is read by `GetControllerOf`, which is the API machinery's: an argument.
pub mod Health
pub mod Delivery
mod Tests
use Prim.Native.String.{◌++◌ as str_append}
use kqos.Prelude.{
  ℕ, ◌≡◌, Bool, true, false, not, List, [], ◌∷◌, Option, none, some, String, str_eq, if◌then◌else◌,
  map,
}
use kqos.Prelude.Int.{ℤ, pos, eqb_ℤ}
use kqos.Api.{QosLevel, level_text}
use kqos.Collector.{NodeSample, PodSample}
use kqos.Collector.Totals.{by_qos, to_resource_list, requested_cpu_milli, requested_memory_bytes}
use kqos.CpuPool.Applying.{Manager, status_pools, status_zones}
use kqos.Floats.{FloatApi}
use kqos.Kubernetes.{QuantityApi, ResourceList, Pod, lookup, put_key, resource_cpu, resource_memory}
use kqos.Profile.{Condition, QosAllocation, NodeResourceProfileStatus}
use kqos.Profile.Conditions.{set_condition}
use kqos.Qos.{effective_requests}
use kqos.SysAdvisor.Advisor.{Recommendation}
use kqos.Usage.{PodUsage, Report}

unfoldable pub bool_condition : Bool → String
bool_condition b = if b then "True" else "False"

-- The conditions, with the time that `setCondition` stamps them with still to be filled in.
abbrev pub healthy : Condition
healthy = record {
  kind = "AgentHealthy";
  status = "True";
  reason = "Sampling";
  message = "agent is sampling cgroup v2 and reporting normally";
  last_transition_time = pos 0;
}

abbrev pub degraded_sampling : Condition
degraded_sampling = record {
  kind = "AgentHealthy";
  status = "False";
  reason = "DegradedSampling";
  message = "cgroup hierarchy unreadable; figures are estimates and eviction is suspended";
  last_transition_time = pos 0;
}

abbrev pub ready : Recommendation → Condition
ready rec = record {
  kind = "RecommendationReady";
  status = bool_condition (not (str_eq rec.confidence "Low"));
  reason = str_append "Confidence" rec.confidence;
  message = str_append "reclaimable capacity bound by " rec.reason;
  last_transition_time = pos 0;
}

-- `clock` answers the readings of the clock, one for each condition that is set.
unfoldable pub build_conditions : (ℕ → ℤ) → Bool → Recommendation → List Condition → List Condition
build_conditions clock degraded rec existing =
    let sampled = set_condition (clock 0) healthy existing in
    set_condition (clock 2) (ready rec)
      (if degraded then set_condition (clock 1) degraded_sampling sampled else sampled)

abbrev pub reclaimable_resource_list :
    {Quantity : Type 0} → ⦃api : QuantityApi Quantity⦄ → Recommendation → ResourceList Quantity
reclaimable_resource_list ⦃api = api⦄ rec =
    (resource_cpu, api.new_milli_quantity rec.reclaimable_cpu_milli)
    ∷ (resource_memory, api.new_quantity rec.reclaimable_memory_bytes)
    ∷ []

abbrev pub with_owner :
    {Float : Type 0} → Option (String × String) → PodUsage Float → PodUsage Float
with_owner none u = u
with_owner (some owner) u = record u { owner_kind = owner.0; owner_name = owner.1 }

module _ {Quantity : Type 0} ⦃api : QuantityApi Quantity⦄ where
  open api use {milli_value, value}

  -- Later pods replace earlier ones of the same uid.
  unfoldable pub index_pods :
      List (Pod Quantity) → List (String × Pod Quantity) → List (String × Pod Quantity)
  index_pods [] out = out
  index_pods (pod ∷ pods) out = index_pods pods (put_key pod.uid pod out)

  abbrev pub read_or : (Quantity → ℤ) → ℤ → Option Quantity → ℤ
  read_or read old none = old
  read_or read old (some q) = read q

module _ {Float Quantity : Type 0} ⦃f : FloatApi Float⦄ ⦃api : QuantityApi Quantity⦄ where
  open api use {milli_value, value}

  -- `capacity` and `allocatable` are the node's.
  unfoldable pub build_status :
      (ℕ → ℤ)
      → ResourceList Quantity
      → ResourceList Quantity
      → Manager
      → NodeSample Float Quantity
      → Recommendation
      → List Condition
      → NodeResourceProfileStatus Quantity
  build_status clock capacity allocatable pools sample rec existing = record {
    capacity = capacity;
    allocatable = allocatable;
    qos_allocations =
        map
          (λ e. (
            e.0,
            record {
              pods = e.1.pods;
              requested = to_resource_list e.1 "requested";
              limits = to_resource_list e.1 "limits";
              actual = to_resource_list e.1 "actual";
            },
          ))
          (by_qos sample);
    reclaimable = reclaimable_resource_list rec;
    pressure = rec.pressure;
    cpu_set_pools = status_pools pools;
    topology_zones = status_zones pools;
    advisor_revision = rec.revision;
    last_report_time = some sample.timestamp;
    conditions = build_conditions clock sample.degraded rec existing;
  }

  abbrev pub usage_of : PodSample Float Quantity → PodUsage Float
  usage_of ps = record {
    uid = ps.uid;
    namespace = ps.namespace;
    name = ps.name;
    qos_level = level_text ps.qos_level;
    owner_kind = "";
    owner_name = "";
    cpu_milli = ps.cpu_milli;
    memory_bytes = ps.memory_bytes;
    request_cpu_milli = requested_cpu_milli ps;
    request_memory_bytes = requested_memory_bytes ps;
    throttled_ratio = ps.throttled_ratio;
  }

  -- The effective requests, where the native CPU request is 0.
  abbrev pub with_effective : ResourceList Quantity → PodUsage Float → PodUsage Float
  with_effective eff u =
      if eqb_ℤ u.request_cpu_milli (pos 0)
      then record u {
        request_cpu_milli = read_or milli_value u.request_cpu_milli (lookup resource_cpu eff);
        request_memory_bytes = read_or value u.request_memory_bytes (lookup resource_memory eff);
      }
      else u

  -- `controller_of` is the kind and the name of a pod's controller, if it has one.
  abbrev pub with_pod :
      (Pod Quantity → Option (String × String))
      → Option (Pod Quantity)
      → PodUsage Float
      → PodUsage Float
  with_pod controller_of none u = u
  with_pod controller_of (some pod) u =
      with_effective (effective_requests pod) (with_owner (controller_of pod) u)

  unfoldable pub report_pods :
      (Pod Quantity → Option (String × String))
      → List (String × Pod Quantity)
      → List (PodSample Float Quantity)
      → List (PodUsage Float)
  report_pods controller_of by_uid [] = []
  report_pods controller_of by_uid (ps ∷ samples) =
      let rest = report_pods controller_of by_uid samples in
      if not ps.valid
      then rest
      else with_pod controller_of (lookup ps.uid by_uid) (usage_of ps) ∷ rest

  unfoldable pub build_report :
      (Pod Quantity → Option (String × String))
      → String
      → NodeSample Float Quantity
      → List (Pod Quantity)
      → Report Float
  unfolding report_pods index_pods
  build_report controller_of node_name sample pods = record {
    node = node_name;
    timestamp = some sample.timestamp;
    pods = report_pods controller_of (index_pods pods []) sample.pods;
    degraded = sample.degraded;
  }
