-- ===== src/Policy/Rollup.antt =====
-- pkg/controller/policy/controller.go: the policy's status, made of the profiles of all nodes. What the
-- API server answers, and whether a node matches the policy's selector, are arguments.
pub mod Counted
mod Tests
use kqos.Prelude.{
  ℕ, ◌≡◌, Bool, true, false, not, ◌&&◌, List, [], ◌∷◌, Option, none, some, String, str_eq,
  if◌then◌else◌,
}
use kqos.Prelude.Int.{ℤ, pos, ltb_ℤ, int64, int32, ◌+ℤ◌, ◌-ℤ◌, ◌*ℤ◌, ◌/ℤ◌}
use kqos.Kubernetes.{QuantityApi, ResourceList, lookup, resource_cpu, resource_memory}
use kqos.Overcommit.{
  Fetched, found, not_found, failed, Outcome, done, retry, requeue_after, amount_or_zero,
}
use kqos.Policy.{QosPolicy, QosPolicySpec, QosPolicyStatus}
use kqos.Profile.{NodeResourceProfile}
use kqos.SysAdvisor.Advisor.{no_pressure, pressure_eq}

-- 90 seconds
abbrev pub agent_liveness_window : ℤ
agent_liveness_window = pos 90_000_000_000

-- The variables of the loop over the profiles.
pub record Rollup : Type 0 where
  pub observed : ℤ
  pub ready : ℤ
  pub under_pressure : ℤ
  pub reclaim_cpu_milli : ℤ
  pub reclaim_mem : ℤ
  pub alloc_cpu_milli : ℤ
  pub alloc_mem : ℤ

abbrev pub no_nodes : Rollup
no_nodes = record {
  observed = pos 0;
  ready = pos 0;
  under_pressure = pos 0;
  reclaim_cpu_milli = pos 0;
  reclaim_mem = pos 0;
  alloc_cpu_milli = pos 0;
  alloc_mem = pos 0;
}

abbrev pub is_live_at : ℤ → Option ℤ → Bool
is_live_at now none = false
is_live_at now (some at) = ltb_ℤ (now -ℤ at) agent_liveness_window

-- An int32 that goes up by 1 under a condition.
abbrev pub one_if : Bool → ℤ → ℤ
one_if b n = if b then int32 (n +ℤ pos 1) else n

-- `selects` tells of a node's name whether the node is there and matches; it is `none` for a policy
-- without a selector.
abbrev pub is_selected : Option (String → Bool) → String → Bool
is_selected none name = true
is_selected (some selects) name = selects name

abbrev pub overcommit_percent : ℤ → ℤ → ℤ
overcommit_percent reclaim alloc =
    if ltb_ℤ (pos 0) alloc then int32 (int64 (reclaim *ℤ pos 100) /ℤ alloc) else pos 0

module _ {Quantity : Type 0} ⦃api : QuantityApi Quantity⦄ where
  open api use {milli_value, value, new_milli_quantity, new_quantity}

  unfoldable pub add_profile : ℤ → NodeResourceProfile Quantity → Rollup → Rollup
  add_profile now p r = record {
    observed = int32 (r.observed +ℤ pos 1);
    ready = one_if (is_live_at now p.status.last_report_time) r.ready;
    under_pressure =
        one_if (not (pressure_eq p.status.pressure.level no_pressure)) r.under_pressure;
    reclaim_cpu_milli = int64 (
        r.reclaim_cpu_milli
        +ℤ amount_or_zero milli_value (lookup resource_cpu p.status.reclaimable));
    reclaim_mem =
        int64 (r.reclaim_mem +ℤ amount_or_zero value (lookup resource_memory p.status.reclaimable));
    alloc_cpu_milli = int64 (
        r.alloc_cpu_milli +ℤ amount_or_zero milli_value (lookup resource_cpu p.status.allocatable));
    alloc_mem =
        int64 (r.alloc_mem +ℤ amount_or_zero value (lookup resource_memory p.status.allocatable));
  }

  unfoldable pub add_profiles :
      Option (String → Bool) → ℤ → List (NodeResourceProfile Quantity) → Rollup → Rollup
  add_profiles selects now [] r = r
  add_profiles selects now (p ∷ ps) r =
      add_profiles selects now ps
        (if is_selected selects p.node_name then add_profile now p r else r)

  module _ {Selector : Type 0} where
    -- The status that is written.
    unfoldable pub rollup :
        Option (String → Bool)
        → ℤ
        → List (NodeResourceProfile Quantity)
        → QosPolicy Quantity Selector
        → QosPolicyStatus Quantity
    rollup selects now profiles policy =
        let r = add_profiles selects now profiles no_nodes in
        record {
          observed_nodes = r.observed;
          ready_nodes = r.ready;
          total_reclaimable_cpu = new_milli_quantity r.reclaim_cpu_milli;
          total_reclaimable_memory = new_quantity r.reclaim_mem;
          effective_overcommit_percent = overcommit_percent r.reclaim_cpu_milli r.alloc_cpu_milli;
          nodes_under_pressure = r.under_pressure;
          last_updated = now;
          conditions = policy.status.conditions;
        }

    -- The pass with a selector that is understood, and with the profiles that are listed, if they
    -- are; `takes` tells whether the API server takes the patch of the status.
    abbrev pub write_rollup :
        Bool
        → Option (String → Bool)
        → ℤ
        → Option (List (NodeResourceProfile Quantity))
        → QosPolicy Quantity Selector
        → Outcome × QosPolicy Quantity Selector
    write_rollup takes selects now none policy = (retry, policy)
    write_rollup takes selects now (some profiles) policy =
        if takes
        then (
          requeue_after (pos 30_000_000_000),
          record policy { status = rollup selects now profiles policy },
        )
        else (retry, policy)

    -- `understand` is `LabelSelectorAsSelector` with the match of a node by its name.
    abbrev pub write_selected :
        (Selector → Option (String → Bool))
        → Bool
        → ℤ
        → Option (List (NodeResourceProfile Quantity))
        → Option Selector
        → QosPolicy Quantity Selector
        → Outcome × QosPolicy Quantity Selector
    write_selected understand takes now profiles none policy =
        write_rollup takes none now profiles policy
    write_selected understand takes now profiles (some selector) policy =
        elim (understand selector) [
          | none ↦ (retry, policy)
          | some selects ↦ write_rollup takes (some selects) now profiles policy
        ]

    unfoldable pub reconcile_policy :
        (Selector → Option (String → Bool))
        → Bool
        → ℤ
        → Option (List (NodeResourceProfile Quantity))
        → Fetched (QosPolicy Quantity Selector)
        → Outcome × Fetched (QosPolicy Quantity Selector)
    reconcile_policy understand takes now profiles not_found = (done, not_found)
    reconcile_policy understand takes now profiles failed = (retry, failed)
    reconcile_policy understand takes now profiles (found policy) =
        let result =
          write_selected understand takes now profiles policy.spec.node_selector policy in
        (result.0, found result.1)
