-- ===== src/Collector/Totals.antt =====
-- pkg/agent/collector/collector.go: the totals of a sample for each level. A Go map with levels for
-- keys is an association list.
pub mod Counts
mod Tests
use kqos.Prelude.{
  ℕ, ◌+◌, ◌%◌, ◌≡◌, Bool, true, false, List, [], ◌∷◌, Option, none, some, String, str_eq,
  if◌then◌else◌,
}
use kqos.Prelude.Int.{ℤ, pos, ◌+ℤ◌, int32, int64}
use kqos.Api.{QosLevel, level_eq}
use kqos.Collector.{NodeSample, PodSample}
use kqos.Floats.{FloatApi}
use kqos.Kubernetes.{QuantityApi, ResourceList, lookup, resource_cpu, resource_memory}
use kqos.SysAdvisor.Recommend.{in_unit}

pub record QosTotals (Float : Type 0) : Type 0 where
  pub pods : ℤ
  pub requested_cpu_milli : ℤ
  pub requested_memory_bytes : ℤ
  pub limit_cpu_milli : ℤ
  pub limit_memory_bytes : ℤ
  pub actual_cpu_milli : Float
  -- a uint64
  pub actual_memory_bytes : ℕ

module _ {V : Type 0} where
  abbrev pub at_level : QosLevel → V → List (QosLevel × V) → V
  at_level q d [] = d
  at_level q d ((k, v) ∷ m) = if level_eq k q then v else at_level q d m

  unfoldable pub put_level : QosLevel → V → List (QosLevel × V) → List (QosLevel × V)
  put_level q v [] = (q, v) ∷ []
  put_level q v ((k, w) ∷ m) = if level_eq k q then (k, v) ∷ m else (k, w) ∷ put_level q v m

module _ {Float : Type 0} ⦃f : FloatApi Float⦄ where
  open f use {of_int, to_int}

  -- The totals of no pods.
  abbrev pub no_totals : QosTotals Float
  no_totals = record {
    pods = pos 0;
    requested_cpu_milli = pos 0;
    requested_memory_bytes = pos 0;
    limit_cpu_milli = pos 0;
    limit_memory_bytes = pos 0;
    actual_cpu_milli = of_int (pos 0);
    actual_memory_bytes = 0;
  }

  -- The amounts that `ToResourceList` picks for a kind.
  abbrev pub amounts_of : QosTotals Float → String → ℤ × ℤ
  amounts_of t kind =
      if str_eq kind "requested"
      then (t.requested_cpu_milli, t.requested_memory_bytes)
      else if str_eq kind "limits"
      then (t.limit_cpu_milli, t.limit_memory_bytes)
      else if str_eq kind "actual"
      then (to_int t.actual_cpu_milli, int64 (pos t.actual_memory_bytes))
      else (pos 0, pos 0)

module _ {Float Quantity : Type 0} ⦃f : FloatApi Float⦄ ⦃api : QuantityApi Quantity⦄ where
  open f use {add}
  open api use {milli_value, value}

  unfoldable pub requested_cpu_milli : PodSample Float Quantity → ℤ
  requested_cpu_milli p = in_unit milli_value (lookup resource_cpu p.requests)

  unfoldable pub requested_memory_bytes : PodSample Float Quantity → ℤ
  requested_memory_bytes p = in_unit value (lookup resource_memory p.requests)

  -- The loop's body, on the totals of the pod's level.
  unfoldable pub add_pod : PodSample Float Quantity → QosTotals Float → QosTotals Float
  add_pod p t = record {
    pods = int32 (t.pods +ℤ pos 1);
    requested_cpu_milli = int64 (t.requested_cpu_milli +ℤ requested_cpu_milli p);
    requested_memory_bytes = int64 (t.requested_memory_bytes +ℤ requested_memory_bytes p);
    limit_cpu_milli =
        int64 (t.limit_cpu_milli +ℤ in_unit milli_value (lookup resource_cpu p.limits));
    limit_memory_bytes =
        int64 (t.limit_memory_bytes +ℤ in_unit value (lookup resource_memory p.limits));
    actual_cpu_milli = if p.valid then add t.actual_cpu_milli p.cpu_milli else t.actual_cpu_milli;
    actual_memory_bytes =
        if p.valid
        then (t.actual_memory_bytes + p.memory_bytes) % 18_446_744_073_709_551_616
        else t.actual_memory_bytes;
  }

  unfoldable pub add_pods :
      List (PodSample Float Quantity)
      → List (QosLevel × QosTotals Float)
      → List (QosLevel × QosTotals Float)
  add_pods [] out = out
  add_pods (p ∷ ps) out =
      add_pods ps (put_level p.qos_level (add_pod p (at_level p.qos_level no_totals out)) out)

  unfoldable pub by_qos : NodeSample Float Quantity → List (QosLevel × QosTotals Float)
  by_qos n = add_pods n.pods []

  unfoldable pub to_resource_list : QosTotals Float → String → ResourceList Quantity
  to_resource_list t kind =
      let a = amounts_of t kind in
      (resource_cpu, api.new_milli_quantity a.0) ∷ (resource_memory, api.new_quantity a.1) ∷ []
