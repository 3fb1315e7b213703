-- ===== src/Collector.antt =====
-- pkg/agent/collector/collector.go: the samples that the collector hands to the other parts, and
-- pkg/agent/cgroup/cgroup.go's PSI record.
pub mod Totals
pub mod Sampling
pub mod Collecting
use kqos.Prelude.{ℕ, Bool, List, String}
use kqos.Prelude.Int.{ℤ}
use kqos.Api.{QosLevel}
use kqos.Kubernetes.{ResourceList}

pub record Psi (Float : Type 0) : Type 0 where
  pub some_avg10 : Float
  pub some_avg60 : Float
  pub some_avg300 : Float
  pub full_avg10 : Float
  pub full_avg60 : Float
  pub full_avg300 : Float

-- `Err`, which only explains why a sample is not valid, is left out.
pub record PodSample (Float Quantity : Type 0) : Type 0 where
  pub uid : String
  pub namespace : String
  pub name : String
  pub qos_level : QosLevel
  pub cpu_milli : Float
  -- a uint64
  pub memory_bytes : ℕ
  pub throttled_ratio : Float
  pub requests : ResourceList Quantity
  pub limits : ResourceList Quantity
  pub valid : Bool

pub record NodeSample (Float Quantity : Type 0) : Type 0 where
  -- in nanoseconds
  pub timestamp : ℤ
  pub interval : ℤ
  pub cpu_milli : Float
  pub memory_bytes : ℕ
  pub cpu_pressure : Psi Float
  pub memory_pressure : Psi Float
  pub online_cpus : ℤ
  pub pods : List (PodSample Float Quantity)
  pub degraded : Bool
  pub valid : Bool
