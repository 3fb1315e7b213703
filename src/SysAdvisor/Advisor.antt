-- ===== src/SysAdvisor/Advisor.antt =====
-- pkg/agent/sysadvisor/advisor.go: the advisor's state and configuration, and the formulas on int64,
-- which wraps. An int32 of the configuration is an integer.
pub mod Damping
pub mod Offer
use kqos.Prelude.{
  ℕ, ◌+◌, ◌*◌, ◌%◌, ◌^◌, ◌/◌, ◌≡◌, Bool, true, false, not, ◌&&◌, ◌||◌, List, [], ◌∷◌, Option, none,
  some, String, ltb, if◌then◌else◌,
}
use Prim.Native.String.{◌++◌}
use kqos.Prelude.Int.{ℤ, pos, pos_part, ◌+ℤ◌, ◌-ℤ◌, ◌*ℤ◌, ◌/ℤ◌, ltb_ℤ, leb_ℤ, eqb_ℤ, int64, int32}
use kqos.Api.{QosLevel, reclaimed_cores, level_eq}
use kqos.Collector.{NodeSample, PodSample}
use kqos.Floats.{FloatApi}
use kqos.Kubernetes.{QuantityApi, ResourceList, lookup, resource_cpu, resource_memory}
use kqos.SysAdvisor.Window.{Window, new_window, push, aggregate, max, percentile, full, count_live}

-- `unset_level` is the empty text of a recommendation that was never made.
pub data PressureLevel : Type 0 where
  unset_level no_pressure moderate critical : PressureLevel

abbrev pub pressure_eq : PressureLevel → PressureLevel → Bool
pressure_eq unset_level unset_level = true
pressure_eq no_pressure no_pressure = true
pressure_eq moderate moderate = true
pressure_eq critical critical = true
pressure_eq _ _ = false

pub record NodePressure : Type 0 where
  pub level : PressureLevel
  pub cpu_utilization_percent : ℤ
  pub memory_utilization_percent : ℤ
  pub cpu_some_stalled_percent : ℤ
  pub memory_full_stalled_percent : ℤ

pub record Recommendation : Type 0 where
  pub reclaimable_cpu_milli : ℤ
  pub reclaimable_memory_bytes : ℤ
  pub protected_cpu_milli : ℤ
  pub protected_memory_bytes : ℤ
  pub pressure : NodePressure
  pub confidence : String
  pub reason : String
  pub revision : ℤ

-- The zero value of a recommendation.
abbrev pub no_recommendation : Recommendation
no_recommendation = record {
  reclaimable_cpu_milli = pos 0;
  reclaimable_memory_bytes = pos 0;
  protected_cpu_milli = pos 0;
  protected_memory_bytes = pos 0;
  pressure = record {
    level = unset_level;
    cpu_utilization_percent = pos 0;
    memory_utilization_percent = pos 0;
    cpu_some_stalled_percent = pos 0;
    memory_full_stalled_percent = pos 0;
  };
  confidence = "";
  reason = "";
  revision = pos 0;
}

pub record Config (Float : Type 0) : Type 0 where
  pub window_seconds : ℤ
  pub interval_seconds : ℤ
  pub algorithm : String
  pub ewma_alpha : Float
  pub cpu_target_percent : ℤ
  pub memory_target_percent : ℤ
  pub headroom_percent : ℤ
  pub max_reclaim_percent : ℤ
  pub min_reclaim_cpu_milli : ℤ
  pub min_reclaim_mem_bytes : ℤ
  pub memory_pressure_threshold_percent : ℤ
  pub cpu_pressure_threshold_percent : ℤ
  pub cpu_stall_threshold_percent : ℤ
  pub growth_step_percent : ℤ

pub record Advisor (Float : Type 0) : Type 0 where
  pub protected_cpu : Window Float
  pub protected_memory : Window Float
  pub node_cpu : Window Float
  pub node_memory : Window Float
  pub cpu_psi : Window Float
  pub mem_psi : Window Float
  pub last : Recommendation
  pub revision : ℤ
  pub cfg : Config Float

-- `a * int64(percent) / 100`
unfoldable pub percent_of : ℤ → ℤ → ℤ
percent_of a percent = int64 (a *ℤ percent) /ℤ pos 100

unfoldable pub pct : ℤ → ℤ → ℤ
pct part whole =
    let v = int64 (part *ℤ pos 100) /ℤ whole in
    if leb_ℤ whole (pos 0)
    then pos 0
    else if ltb_ℤ v (pos 0)
    then pos 0
    else if ltb_ℤ (pos 100) v
    then pos 100
    else v

-- What `reclaimable` makes of a budget, once the protected usage and the headroom are off it.
abbrev pub cap_and_floor : ℤ → ℤ → ℤ → ℤ × String
cap_and_floor value cap floor =
    if leb_ℤ value (pos 0)
    then (pos 0, "no-headroom")
    else if ltb_ℤ (if ltb_ℤ cap value then cap else value) floor
    then (pos 0, "below-floor")
    else if ltb_ℤ cap value
    then (cap, "max-reclaim-cap")
    else (value, "usage-derived")

module _ {Float : Type 0} where
  unfoldable pub reclaimable : Config Float → ℤ → ℤ → ℤ → ℤ → ℤ × String
  unfolding percent_of
  reclaimable cfg allocatable protected target_percent floor =
      let budget = percent_of allocatable target_percent in
      let headroom = percent_of allocatable cfg.headroom_percent in
      let value = int64 (int64 (budget -ℤ protected) -ℤ headroom) in
      if leb_ℤ allocatable (pos 0)
      then (pos 0, "no-allocatable")
      else cap_and_floor value (percent_of allocatable cfg.max_reclaim_percent) floor

  unfoldable pub damp : Config Float → ℤ → ℤ → ℤ
  unfolding percent_of
  damp cfg current target =
      let step = cfg.growth_step_percent in
      let share = percent_of (int64 (target -ℤ current)) step in
      let delta = if ltb_ℤ share (pos 1) then pos 1 else share in
      let next = int64 (current +ℤ delta) in
      if leb_ℤ target current
      then target
      else if leb_ℤ step (pos 0) || leb_ℤ (pos 100) step
      then target
      else if ltb_ℤ target next
      then target
      else next
