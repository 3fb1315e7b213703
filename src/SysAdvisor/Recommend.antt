-- ===== src/SysAdvisor/Recommend.antt =====
-- pkg/agent/sysadvisor/advisor.go: the operations on the advisor's windows, up to its verdict.
pub mod Safety
pub mod Alarm
use kqos.Prelude.{
  ℕ, ◌+◌, ◌*◌, ◌%◌, ◌^◌, ◌/◌, ◌≡◌, Bool, true, false, not, ◌&&◌, ◌||◌, List, [], ◌∷◌, Option, none,
  some, String, ltb, if◌then◌else◌,
}
use Prim.Native.String.{◌++◌}
use kqos.Prelude.Int.{ℤ, pos, pos_part, ◌+ℤ◌, ◌-ℤ◌, ◌*ℤ◌, ◌/ℤ◌, ltb_ℤ, leb_ℤ, eqb_ℤ, int64, int32}
use kqos.Api.{QosLevel, reclaimed_cores, level_eq}
use kqos.Collector.{NodeSample, PodSample}
use kqos.Floats.{FloatApi}
use kqos.Kubernetes.{QuantityApi, ResourceList, lookup, resource_cpu, resource_memory}
use kqos.SysAdvisor.Window.{Window, new_window, push, aggregate, max, percentile, full, count_live}
use kqos.SysAdvisor.Advisor.{
  Advisor, Config, NodePressure, PressureLevel, Recommendation, no_pressure, moderate, critical,
  pressure_eq, no_recommendation, pct, reclaimable, damp,
}

module _ {Float : Type 0} ⦃f : FloatApi Float⦄ where
  open f use {of_int, to_int, round_to_int, less, add, sub, div, abs, fraction}

  -- The windows that `resize` makes: one slot for each interval, 3 at least.
  unfoldable pub window_for : Config Float → Window Float
  window_for cfg =
      let interval = if ltb_ℤ cfg.interval_seconds (pos 1) then pos 1 else cfg.interval_seconds in
      let capacity = cfg.window_seconds /ℤ interval in
      new_window (if ltb_ℤ capacity (pos 3) then pos 3 else capacity)
        (cfg.window_seconds *ℤ pos 1_000_000_000)

  unfoldable pub resize : Advisor Float → Advisor Float
  unfolding window_for
  resize a = record {
    protected_cpu = window_for a.cfg;
    protected_memory = window_for a.cfg;
    node_cpu = window_for a.cfg;
    node_memory = window_for a.cfg;
    cpu_psi = window_for a.cfg;
    mem_psi = window_for a.cfg;
    last = a.last;
    revision = a.revision;
    cfg = a.cfg;
  }

  -- `New`
  unfoldable pub new_advisor : Config Float → Advisor Float
  unfolding window_for
  new_advisor cfg = record {
    protected_cpu = window_for cfg;
    protected_memory = window_for cfg;
    node_cpu = window_for cfg;
    node_memory = window_for cfg;
    cpu_psi = window_for cfg;
    mem_psi = window_for cfg;
    last = no_recommendation;
    revision = pos 0;
    cfg = cfg;
  }

  -- The windows of an advisor are never nil after `New`.
  unfoldable pub set_config : Advisor Float → Config Float → Advisor Float
  unfolding resize
  set_config a cfg =
      let same =
        eqb_ℤ cfg.window_seconds a.cfg.window_seconds
        && eqb_ℤ cfg.interval_seconds a.cfg.interval_seconds in
      if same then record a { cfg = cfg } else resize (record a { cfg = cfg })

  abbrev pub default_config : Config Float
  default_config = record {
    window_seconds = pos 300;
    interval_seconds = pos 10;
    algorithm = "p95";
    ewma_alpha = fraction 3 10;
    cpu_target_percent = pos 75;
    memory_target_percent = pos 65;
    headroom_percent = pos 10;
    max_reclaim_percent = pos 50;
    min_reclaim_cpu_milli = pos 200;
    min_reclaim_mem_bytes = pos 268_435_456;
    memory_pressure_threshold_percent = pos 85;
    cpu_pressure_threshold_percent = pos 92;
    cpu_stall_threshold_percent = pos 40;
    growth_step_percent = pos 25;
  }

  unfoldable pub rel_diff : ℤ → ℤ → Float
  rel_diff a b =
      let base = abs (of_int a) in
      if eqb_ℤ a b
      then of_int (pos 0)
      else if less base (of_int (pos 1))
      then of_int (pos 1)
      else div (abs (of_int (int64 (b -ℤ a)))) base

  unfoldable pub materially_differs : Advisor Float → Recommendation → Bool
  unfolding rel_diff
  materially_differs a rec =
      let last = a.last in
      not (pressure_eq last.pressure.level rec.pressure.level)
      || less (fraction 2 100) (rel_diff last.reclaimable_cpu_milli rec.reclaimable_cpu_milli)
      || less (fraction 2 100) (rel_diff last.reclaimable_memory_bytes rec.reclaimable_memory_bytes)

  -- `x >= y`
  abbrev pub at_least : Float → Float → Bool
  at_least x y = not (less x y)

  unfoldable pub pressure : Advisor Float → ℤ → ℤ → ℤ → NodePressure
  unfolding pct
  pressure a cpu_alloc mem_alloc now =
      let cpu_util = pct (to_int (percentile a.node_cpu (of_int (pos 90)) now)) cpu_alloc in
      let mem_util = pct (to_int (max a.node_memory now)) mem_alloc in
      let cpu_stall = percentile a.cpu_psi (of_int (pos 90)) now in
      let mem_stall = percentile a.mem_psi (of_int (pos 90)) now in
      let stall_limit = of_int a.cfg.cpu_stall_threshold_percent in
      let is_critical =
        leb_ℤ a.cfg.memory_pressure_threshold_percent mem_util
        || leb_ℤ a.cfg.cpu_pressure_threshold_percent cpu_util
        || at_least cpu_stall stall_limit
        || at_least mem_stall (of_int (pos 10)) in
      let is_moderate =
        leb_ℤ (a.cfg.memory_pressure_threshold_percent -ℤ pos 10) mem_util
        || leb_ℤ (a.cfg.cpu_pressure_threshold_percent -ℤ pos 10) cpu_util
        || at_least cpu_stall (div stall_limit (of_int (pos 2))) in
      record {
        level = if is_critical then critical else if is_moderate then moderate else no_pressure;
        cpu_utilization_percent = int32 cpu_util;
        memory_utilization_percent = int32 mem_util;
        cpu_some_stalled_percent = int32 (round_to_int cpu_stall);
        memory_full_stalled_percent = int32 (round_to_int mem_stall);
      }

  -- `confidence`
  abbrev pub confidence_at : Advisor Float → ℤ → String
  confidence_at a now =
      if not (full a.protected_cpu)
      then "Low"
      else if ltb (count_live a.protected_cpu now) (a.protected_cpu.capacity / 2)
      then "Medium"
      else "High"

module _ {Quantity : Type 0} ⦃api : QuantityApi Quantity⦄ where
  open api use {milli_value, value}

  abbrev pub in_unit : (Quantity → ℤ) → Option Quantity → ℤ
  in_unit g none = pos 0
  in_unit g (some q) = g q

  unfoldable pub milli_of : ResourceList Quantity → String → ℤ
  milli_of rl name = in_unit milli_value (lookup name rl)

  unfoldable pub bytes_of : ResourceList Quantity → String → ℤ
  bytes_of rl name = in_unit value (lookup name rl)

module _ {Float Quantity : Type 0} ⦃f : FloatApi Float⦄ ⦃api : QuantityApi Quantity⦄ where
  open f use {of_int, to_int, add}

  -- The loop of `Observe`: the usage of the tiers that are not reclaimed; memory is a uint64.
  unfoldable pub protected_usage : List (PodSample Float Quantity) → Float × ℕ → Float × ℕ
  protected_usage [] (cpu, mem) = (cpu, mem)
  protected_usage (p ∷ ps) (cpu, mem) = protected_usage ps (
      if level_eq p.qos_level reclaimed_cores then (cpu, mem) else (
        if p.valid then add cpu p.cpu_milli else cpu,
        (mem + p.memory_bytes) % 18_446_744_073_709_551_616,
      ))

  unfoldable pub observe : Advisor Float → NodeSample Float Quantity → Advisor Float
  unfolding protected_usage
  observe a s =
      let usage = protected_usage s.pods (of_int (pos 0), 0) in
      if s.valid
      then record a {
        protected_cpu = push a.protected_cpu usage.0 s.timestamp;
        protected_memory = push a.protected_memory (of_int (pos usage.1)) s.timestamp;
        node_cpu = push a.node_cpu s.cpu_milli s.timestamp;
        node_memory = push a.node_memory (of_int (pos s.memory_bytes)) s.timestamp;
        cpu_psi = push a.cpu_psi s.cpu_pressure.some_avg10 s.timestamp;
        mem_psi = push a.mem_psi s.memory_pressure.full_avg10 s.timestamp;
      }
      else a

  -- What `Recommend` answers, but for the revision.
  unfoldable pub verdict : Advisor Float → ResourceList Quantity → ℤ → Recommendation
  unfolding reclaimable damp pressure milli_of bytes_of
  verdict a allocatable now =
      let cpu_alloc = milli_of allocatable resource_cpu in
      let mem_alloc = bytes_of allocatable resource_memory in
      let prot_cpu = to_int (aggregate a.protected_cpu a.cfg.algorithm a.cfg.ewma_alpha now) in
      let prot_mem = to_int (max a.protected_memory now) in
      let cpu =
        reclaimable a.cfg cpu_alloc prot_cpu a.cfg.cpu_target_percent a.cfg.min_reclaim_cpu_milli in
      let mem =
        reclaimable a.cfg mem_alloc prot_mem a.cfg.memory_target_percent
          a.cfg.min_reclaim_mem_bytes in
      let p = pressure a cpu_alloc mem_alloc now in
      let stop = pressure_eq p.level critical in
      record {
        reclaimable_cpu_milli =
            if stop then pos 0 else damp a.cfg a.last.reclaimable_cpu_milli cpu.0;
        reclaimable_memory_bytes =
            if stop then pos 0 else damp a.cfg a.last.reclaimable_memory_bytes mem.0;
        protected_cpu_milli = prot_cpu;
        protected_memory_bytes = prot_mem;
        pressure = p;
        confidence = confidence_at a now;
        reason = if stop then "critical-pressure" else cpu.1 ++ "/" ++ mem.1;
        revision = pos 0;
      }

  unfoldable pub recommend :
      Advisor Float → ResourceList Quantity → ℤ → Recommendation × Advisor Float
  unfolding verdict materially_differs
  recommend a allocatable now =
      let v = verdict a allocatable now in
      let revision = if materially_differs a v then int64 (a.revision +ℤ pos 1) else a.revision in
      let rec = record v { revision = revision } in
      (rec, record a { last = rec; revision = revision })
