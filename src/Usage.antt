-- ===== src/Usage.antt =====
-- pkg/usage/types.go: what agents report of pods, and how it is summed up for a workload.
pub mod Store
use Prim.Native.String.{◌++◌ as str_append}
use kqos.Prelude.{ℕ, Bool, List, Option, String}
use kqos.Prelude.Int.{ℤ}

pub record PodUsage (Float : Type 0) : Type 0 where
  pub uid : String
  pub namespace : String
  pub name : String
  pub qos_level : String
  pub owner_kind : String
  pub owner_name : String
  pub cpu_milli : Float
  pub memory_bytes : ℕ
  pub request_cpu_milli : ℤ
  pub request_memory_bytes : ℤ
  pub throttled_ratio : Float

pub record Report (Float : Type 0) : Type 0 where
  pub node : String
  pub timestamp : Option ℤ
  pub pods : List (PodUsage Float)
  pub degraded : Bool

pub record WorkloadKey : Type 0 where
  pub namespace : String
  pub kind : String
  pub name : String

-- `WorkloadKey.String`
unfoldable pub key_text : WorkloadKey → String
key_text k = str_append k.namespace (str_append "/" (str_append k.kind (str_append "/" k.name)))

-- The distribution of one resource over the pods of a workload.
pub record Stats (Float : Type 0) : Type 0 where
  pub samples : ℤ
  pub p50 : Float
  pub p90 : Float
  pub p95 : Float
  pub p99 : Float
  pub max : Float
  pub mean : Float
