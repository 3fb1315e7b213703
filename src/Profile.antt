-- ===== src/Profile.antt =====
-- pkg/apis/kqos/v1alpha1/noderesourceprofile_types.go: the profile of a node, which its agent writes
-- and the controllers read.
pub mod Conditions
use kqos.Prelude.{List, Option, String}
use kqos.Prelude.Int.{ℤ}
use kqos.Api.{QosLevel}
use kqos.Kubernetes.{ResourceList}
use kqos.Strings.{Text}
use kqos.SysAdvisor.Advisor.{NodePressure}

-- `metav1.Condition`; `status` is its text, "True", "False" or "Unknown".
pub record Condition : Type 0 where
  pub kind : String
  pub status : String
  pub reason : String
  pub message : String
  pub last_transition_time : ℤ

pub record QosAllocation (Quantity : Type 0) : Type 0 where
  pub pods : ℤ
  pub requested : ResourceList Quantity
  pub limits : ResourceList Quantity
  pub actual : ResourceList Quantity

pub record CpuSetPool : Type 0 where
  pub name : String
  pub qos_level : QosLevel
  pub cpus : Text
  pub size : ℤ

pub record TopologyZone : Type 0 where
  pub id : ℤ
  pub cpus : Text
  pub allocatable_cpus : ℤ

pub record NodeResourceProfileStatus (Quantity : Type 0) : Type 0 where
  pub capacity : ResourceList Quantity
  pub allocatable : ResourceList Quantity
  pub qos_allocations : List (QosLevel × QosAllocation Quantity)
  pub reclaimable : ResourceList Quantity
  pub pressure : NodePressure
  pub cpu_set_pools : List CpuSetPool
  pub topology_zones : List TopologyZone
  pub advisor_revision : ℤ
  pub last_report_time : Option ℤ
  pub conditions : List Condition

pub record NodeResourceProfile (Quantity : Type 0) : Type 0 where
  pub name : String
  pub node_name : String
  pub status : NodeResourceProfileStatus Quantity
