-- ===== src/Eviction/Signals.antt =====
-- pkg/agent/eviction/plugin.go, and EvictionConfig of pkg/apis/kqos/v1alpha1/qospolicy_types.go:
-- what a plugin reads and what it proposes.
use kqos.Prelude.{Bool, List, Option, String}
use kqos.Prelude.Int.{ℤ}
use kqos.Collector.{NodeSample, PodSample}
use kqos.Kubernetes.{Pod, ResourceList}
use kqos.SysAdvisor.Advisor.{Recommendation}

pub record EvictionConfig : Type 0 where
  pub enabled : Bool
  pub dry_run : Bool
  pub memory_pressure_threshold_percent : ℤ
  pub cpu_pressure_threshold_percent : ℤ
  pub cpu_some_stalled_threshold_percent : ℤ
  pub max_evictions_per_minute : ℤ
  pub grace_period_seconds : ℤ
  pub stabilisation_seconds : ℤ
  pub disabled_plugins : List String

pub record Signal (Float Quantity : Type 0) : Type 0 where
  pub sample : NodeSample Float Quantity
  pub recommendation : Recommendation
  pub allocatable : ResourceList Quantity
  pub config : EvictionConfig
  pub pods : List (Pod Quantity)
  pub sample_by_uid : List (String × PodSample Float Quantity)

-- `Message`, a text for the reader of an event, is left out.
pub record Verdict (Float Quantity : Type 0) : Type 0 where
  pub pod : Pod Quantity
  pub plugin : String
  pub reason : String
  pub score : Float
  pub releases_cpu_milli : ℤ
  pub releases_memory_bytes : ℤ

-- `Evaluate` answers `none` for an error.
pub record Plugin (Float Quantity : Type 0) : Type 0 where
  pub name : String
  pub evaluate : Signal Float Quantity → Option (List (Verdict Float Quantity))
