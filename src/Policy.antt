-- ===== src/Policy.antt =====
-- pkg/apis/kqos/v1alpha1/qospolicy_types.go: the policy of a cluster and its status. A label selector
-- is the API machinery's, a parameter.
pub mod Rollup
use kqos.Prelude.{Bool, List, Option, String}
use kqos.Prelude.Int.{ℤ}
use kqos.Eviction.Signals.{EvictionConfig}
use kqos.Profile.{Condition}
use kqos.Strings.{Text}
use kqos.Webhook.{WebhookConfig}

pub record OvercommitConfig (Quantity : Type 0) : Type 0 where
  pub cpu_target_utilization_percent : ℤ
  pub memory_target_utilization_percent : ℤ
  pub headroom_percent : ℤ
  pub max_reclaim_ratio_percent : ℤ
  pub min_reclaim_cpu : Option Quantity
  pub min_reclaim_memory : Option Quantity

pub record AdvisorConfig : Type 0 where
  pub window_seconds : ℤ
  pub interval_seconds : ℤ
  pub algorithm : String
  pub ewma_alpha : String

pub record CpuSetConfig : Type 0 where
  pub enabled : Bool
  pub reserved_system_cpus : Text
  pub shared_pool_min_cpus : ℤ
  pub reclaimed_pool_min_cpus : ℤ

pub record QosPolicySpec (Quantity Selector : Type 0) : Type 0 where
  pub node_selector : Option Selector
  pub overcommit : OvercommitConfig Quantity
  pub advisor : AdvisorConfig
  pub eviction : EvictionConfig
  pub cpu_set : CpuSetConfig
  pub webhook : WebhookConfig

pub record QosPolicyStatus (Quantity : Type 0) : Type 0 where
  pub observed_nodes : ℤ
  pub ready_nodes : ℤ
  pub total_reclaimable_cpu : Quantity
  pub total_reclaimable_memory : Quantity
  pub effective_overcommit_percent : ℤ
  pub nodes_under_pressure : ℤ
  pub last_updated : ℤ
  pub conditions : List Condition

pub record QosPolicy (Quantity Selector : Type 0) : Type 0 where
  pub spec : QosPolicySpec Quantity Selector
  pub status : QosPolicyStatus Quantity
