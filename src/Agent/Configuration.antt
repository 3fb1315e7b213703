-- ===== src/Agent/Configuration.antt =====
-- pkg/agent/agent.go: how the policy reaches the parts of the agent, and pkg/agent/eviction/plugin.go:
-- the plugins that are built. `scan` is the reading of a number by `fmt.Sscanf`.
use Prim.Native.String.{◌++◌ as str_append}
use kqos.Prelude.{
  Bool, true, false, not, ◌||◌, List, [], ◌∷◌, Option, none, some, String, str_eq, if◌then◌else◌,
  select, map, mem_text,
}
use kqos.Prelude.Int.{ℤ, pos}
use kqos.CpuPool.Applying.{Manager}
use kqos.Eviction.Manager.{Manager as EvictionManager}
use kqos.Eviction.Plugins.{PodUsage, memory_pressure, cpu_suppression, reclaimed_overrun}
use kqos.Eviction.Signals.{Plugin, Verdict}
use kqos.Floats.{FloatApi}
use kqos.Kubernetes.{QuantityApi}
use kqos.Overcommit.{Fetched, found, not_found, failed}
use kqos.Policy.{QosPolicySpec}
use kqos.SysAdvisor.Advisor.{Advisor, Config}
use kqos.SysAdvisor.Recommend.{set_config}
use kqos.Webhook.{default_config as default_webhook}

-- `sort.Slice`, of the two plugins that use it.
pub record Sorts (Float Quantity : Type 0) : Type 0 where
  pub usages :
      (PodUsage Float Quantity → PodUsage Float Quantity → Bool)
      → List (PodUsage Float Quantity)
      → List (PodUsage Float Quantity)
  pub verdicts :
      (Verdict Float Quantity → Verdict Float Quantity → Bool)
      → List (Verdict Float Quantity)
      → List (Verdict Float Quantity)

-- `fmt.Sprint` of a slice of strings.
abbrev pub sprint_rest : List String → String
sprint_rest [] = "]"
sprint_rest (s ∷ ss) = str_append " " (str_append s (sprint_rest ss))

abbrev pub sprint : List String → String
sprint [] = "[]"
sprint (s ∷ ss) = str_append "[" (str_append s (sprint_rest ss))

abbrev pub default_spec :
    {Float Quantity Selector : Type 0} → Config Float → QosPolicySpec Quantity Selector
default_spec cfg = record {
  node_selector = none;
  overcommit = record {
    cpu_target_utilization_percent = cfg.cpu_target_percent;
    memory_target_utilization_percent = cfg.memory_target_percent;
    headroom_percent = cfg.headroom_percent;
    max_reclaim_ratio_percent = cfg.max_reclaim_percent;
    min_reclaim_cpu = none;
    min_reclaim_memory = none;
  };
  advisor = record {
    window_seconds = cfg.window_seconds;
    interval_seconds = cfg.interval_seconds;
    algorithm = cfg.algorithm;
    ewma_alpha = "0.3";
  };
  eviction = record {
    enabled = true;
    dry_run = false;
    memory_pressure_threshold_percent = cfg.memory_pressure_threshold_percent;
    cpu_pressure_threshold_percent = cfg.cpu_pressure_threshold_percent;
    cpu_some_stalled_threshold_percent = cfg.cpu_stall_threshold_percent;
    max_evictions_per_minute = pos 3;
    grace_period_seconds = pos 30;
    stabilisation_seconds = pos 30;
    disabled_plugins = [];
  };
  cpu_set = record {
    enabled = false;
    reserved_system_cpus = [];
    shared_pool_min_cpus = pos 2;
    reclaimed_pool_min_cpus = pos 1;
  };
  webhook = default_webhook;
}

-- The policy that applies: the default one, where there is none and where it cannot be read. `cfg` is the advisor's
-- default configuration.
unfoldable pub load_policy :
    {Float Quantity Selector : Type 0}
    → Config Float
    → Fetched (QosPolicySpec Quantity Selector)
    → QosPolicySpec Quantity Selector
load_policy cfg (found spec) = spec
load_policy cfg not_found = default_spec cfg
load_policy cfg failed = default_spec cfg

-- A floor that the policy does not name stays as it is.
abbrev pub floor_or : {Quantity : Type 0} → (Quantity → ℤ) → ℤ → Option Quantity → ℤ
floor_or read old none = old
floor_or read old (some q) = read q

module _ {Float : Type 0} ⦃f : FloatApi Float⦄ where
  open f use {of_int, less, at_most, fraction}

  abbrev pub alpha_of : Option Float → Float
  alpha_of none = fraction 3 10
  alpha_of (some a) =
      if at_most a (of_int (pos 0)) || less (of_int (pos 1)) a then fraction 3 10 else a

  unfoldable pub parse_alpha : (String → Option Float) → String → Float
  parse_alpha scan s = alpha_of (scan s)

module _ {Float Quantity : Type 0} ⦃f : FloatApi Float⦄ ⦃api : QuantityApi Quantity⦄ where
  open api use {milli_value, value}

  -- The registered plugins, in the order of their names.
  abbrev pub registry : Sorts Float Quantity → List (Plugin Float Quantity)
  registry sorts =
      (record { name = "cpu-suppression"; evaluate = cpu_suppression sorts.usages })
      ∷ (record { name = "memory-pressure"; evaluate = memory_pressure })
      ∷ (record { name = "reclaimed-overrun"; evaluate = reclaimed_overrun sorts.verdicts })
      ∷ []

  unfoldable pub build_plugins : Sorts Float Quantity → List String → List (Plugin Float Quantity)
  build_plugins sorts disabled = select (λ p. not (mem_text p.name disabled)) (registry sorts)

  abbrev pub registered_names : Sorts Float Quantity → List String
  registered_names sorts = map (λ p. p.name) (registry sorts)

  unfoldable pub advisor_config :
      {Selector : Type 0}
      → (String → Option Float)
      → QosPolicySpec Quantity Selector
      → Config Float
      → Config Float
  advisor_config scan spec cfg = record cfg {
    window_seconds = spec.advisor.window_seconds;
    interval_seconds = spec.advisor.interval_seconds;
    algorithm = spec.advisor.algorithm;
    ewma_alpha = parse_alpha scan spec.advisor.ewma_alpha;
    cpu_target_percent = spec.overcommit.cpu_target_utilization_percent;
    memory_target_percent = spec.overcommit.memory_target_utilization_percent;
    headroom_percent = spec.overcommit.headroom_percent;
    max_reclaim_percent = spec.overcommit.max_reclaim_ratio_percent;
    min_reclaim_cpu_milli =
        floor_or milli_value cfg.min_reclaim_cpu_milli spec.overcommit.min_reclaim_cpu;
    min_reclaim_mem_bytes =
        floor_or value cfg.min_reclaim_mem_bytes spec.overcommit.min_reclaim_memory;
    memory_pressure_threshold_percent = spec.eviction.memory_pressure_threshold_percent;
    cpu_pressure_threshold_percent = spec.eviction.cpu_pressure_threshold_percent;
    cpu_stall_threshold_percent = spec.eviction.cpu_some_stalled_threshold_percent;
  }

-- `Agent`, the parts that change, with the key of the plugins that are disabled.
pub record Agent (Float Quantity : Type 0) : Type 0 where
  pub advisor : Advisor Float
  pub pools : Manager
  pub evictor : EvictionManager Float Quantity
  pub disabled_plugins : String

module _ {Float Quantity : Type 0} ⦃f : FloatApi Float⦄ ⦃api : QuantityApi Quantity⦄ where
  unfoldable pub apply_policy :
      {Selector : Type 0}
      → Sorts Float Quantity
      → (String → Option Float)
      → QosPolicySpec Quantity Selector
      → Agent Float Quantity
      → Agent Float Quantity
  apply_policy sorts scan spec a =
      let key = sprint spec.eviction.disabled_plugins in
      record {
        advisor = set_config a.advisor (advisor_config scan spec a.advisor.cfg);
        pools = record a.pools {
          cfg = record {
            cpu_set_enabled = spec.cpu_set.enabled;
            reserved_system_cpus = spec.cpu_set.reserved_system_cpus;
            shared_pool_min_cpus = spec.cpu_set.shared_pool_min_cpus;
            reclaimed_pool_min_cpus = spec.cpu_set.reclaimed_pool_min_cpus;
          };
        };
        evictor =
            if str_eq key a.disabled_plugins
            then a.evictor
            else record a.evictor { plugins = build_plugins sorts spec.eviction.disabled_plugins };
        disabled_plugins = key;
      }
