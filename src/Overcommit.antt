-- ===== src/Overcommit.antt =====
-- pkg/controller/overcommit: controller.go, which puts what a profile offers on its node as extended
-- resources, and predicate.go, which picks the changes that it looks at. What the API server answers
-- to a read and to a patch is an argument; a patch that it takes sets the amounts that it holds.
pub mod Sync
pub mod Withdrawal
mod Tests
use kqos.Prelude.{
  ℕ, ◌≡◌, Bool, true, false, not, ◌&&◌, ◌||◌, List, [], ◌∷◌, Option, none, some, String, str_eq,
  if◌then◌else◌,
}
use kqos.Prelude.Int.{ℤ, pos, ltb_ℤ, leb_ℤ, eqb_ℤ, int64, ◌-ℤ◌, ◌*ℤ◌, ◌/ℤ◌}
use kqos.Api.{resource_reclaimed_cpu, resource_reclaimed_memory}
use kqos.Kubernetes.{QuantityApi, ResourceList, lookup, put_key, resource_cpu, resource_memory}
use kqos.Profile.{Condition, NodeResourceProfile}
use kqos.SysAdvisor.Advisor.{pressure_eq}

-- 90 seconds
abbrev pub stale_after : ℤ
stale_after = pos 90_000_000_000

pub record Reconciler : Type 0 where
  pub min_change_milli : ℤ
  pub min_change_bytes : ℤ

-- The defaults that `SetupWithManager` fills in.
unfoldable pub set_up : Reconciler → Reconciler
set_up r = record {
  min_change_milli = if eqb_ℤ r.min_change_milli (pos 0) then pos 50 else r.min_change_milli;
  min_change_bytes =
      if eqb_ℤ r.min_change_bytes (pos 0) then pos 67_108_864 else r.min_change_bytes;
}

-- `corev1.Node`, as far as it is read and patched.
pub record Node (Quantity : Type 0) : Type 0 where
  pub name : String
  pub capacity : ResourceList Quantity
  pub allocatable : ResourceList Quantity

-- What a read of an object answers.
pub data Fetched (A : Type 0) : Type 0 where
  found : A → Fetched A
  not_found failed : Fetched A

-- What `sync` answers: `false` and `true` without an error, or an error.
pub data Synced : Type 0 where
  unchanged updated refused : Synced

-- What `Reconcile` answers, and the node as it stands afterwards, if one was found.
pub data Outcome : Type 0 where
  done : Outcome
  retry : Outcome
  requeue_after : ℤ → Outcome

abbrev pub not_negative : ℤ → ℤ
not_negative v = if ltb_ℤ v (pos 0) then pos 0 else v

unfoldable pub abs : ℤ → ℤ
abs v = if ltb_ℤ v (pos 0) then int64 (pos 0 -ℤ v) else v

-- `a != b` on tests
abbrev pub differ : Bool → Bool → Bool
differ true b = not b
differ false b = b

abbrev pub mebi : ℤ
mebi = pos 1_048_576

-- Whether an amount differs enough from what is advertised; `diff` and `least` are in one unit.
abbrev pub matters : ℤ → ℤ → ℤ → ℤ → Bool
matters wanted current diff least =
    differ (eqb_ℤ wanted (pos 0)) (eqb_ℤ current (pos 0)) || leb_ℤ least diff

unfoldable pub significant : Reconciler → ℤ → ℤ → ℤ → ℤ → Bool
unfolding abs
significant r cpu_milli mem_mib cur_cpu cur_mem =
    matters cpu_milli cur_cpu (abs (int64 (cpu_milli -ℤ cur_cpu))) r.min_change_milli
    || matters mem_mib cur_mem
        (int64 (int64 (abs (int64 (mem_mib -ℤ cur_mem)) *ℤ pos 1024) *ℤ pos 1024))
        r.min_change_bytes

unfoldable pub stale : Option ℤ → ℤ → Bool
stale none now = true
stale (some at) now = ltb_ℤ stale_after (now -ℤ at)

unfoldable pub condition_status : String → List Condition → String
condition_status kind [] = ""
condition_status kind (c ∷ cs) =
    let rest = condition_status kind cs in if str_eq c.kind kind then c.status else rest

abbrev pub outcome_of : Synced → Outcome
outcome_of refused = retry
outcome_of unchanged = requeue_after (stale_after /ℤ pos 2)
outcome_of updated = requeue_after (stale_after /ℤ pos 2)

module _ {Quantity : Type 0} where
  -- `UpdateFunc`, on profiles: whether an update is looked at.
  unfoldable pub reclaimable_changed :
      NodeResourceProfile Quantity → NodeResourceProfile Quantity → Bool
  unfolding condition_status
  reclaimable_changed old new =
      if not (eqb_ℤ old.status.advisor_revision new.status.advisor_revision)
      then true
      else if not (pressure_eq old.status.pressure.level new.status.pressure.level)
      then true
      else not (
          str_eq (condition_status "AgentHealthy" old.status.conditions)
            (condition_status "AgentHealthy" new.status.conditions))

module _ {Quantity : Type 0} ⦃api : QuantityApi Quantity⦄ where
  open api use {milli_value, value, new_quantity, new_milli_quantity}

  abbrev pub amount_or_zero : (Quantity → ℤ) → Option Quantity → ℤ
  amount_or_zero read none = pos 0
  amount_or_zero read (some q) = read q

  -- In milli-cores and in bytes.
  unfoldable pub desired_from : ResourceList Quantity → ℤ × ℤ
  desired_from reclaimable = (
    not_negative (amount_or_zero milli_value (lookup resource_cpu reclaimable)),
    not_negative (amount_or_zero value (lookup resource_memory reclaimable)),
  )

  unfoldable pub extended_value : Node Quantity → String → ℤ
  extended_value node name = amount_or_zero value (lookup name node.allocatable)

  -- The two keys of the patch, in one of the node's lists.
  abbrev pub put_both : ℤ → ℤ → ResourceList Quantity → ResourceList Quantity
  put_both cpu_milli mem_mib rl =
      put_key resource_reclaimed_memory (new_quantity mem_mib)
        (put_key resource_reclaimed_cpu (new_quantity cpu_milli) rl)

  unfoldable pub patch : ℤ → ℤ → Node Quantity → Node Quantity
  patch cpu_milli mem_mib node = record node {
    capacity = put_both cpu_milli mem_mib node.capacity;
    allocatable = put_both cpu_milli mem_mib node.allocatable;
  }

  -- `takes` tells whether the API server takes the patch.
  unfoldable pub sync : Reconciler → Bool → ℤ → ℤ → Node Quantity → Synced × Node Quantity
  sync r takes cpu_milli mem_bytes node =
      let mem_mib = mem_bytes /ℤ mebi in
      let cur_cpu = extended_value node resource_reclaimed_cpu in
      let cur_mem = extended_value node resource_reclaimed_memory in
      if not (significant r cpu_milli mem_mib cur_cpu cur_mem)
      then (unchanged, node)
      else if takes
      then (updated, patch cpu_milli mem_mib node)
      else (refused, node)

  -- What a profile asks for: nothing, if it is stale.
  abbrev pub wanted_from : NodeResourceProfile Quantity → ℤ → ℤ × ℤ
  wanted_from profile now =
      if stale profile.status.last_report_time now
      then (pos 0, pos 0)
      else desired_from profile.status.reclaimable

  unfoldable pub reconcile_node :
      Reconciler
      → Bool
      → NodeResourceProfile Quantity
      → ℤ
      → Fetched (Node Quantity)
      → Outcome × Fetched (Node Quantity)
  reconcile_node r takes profile now not_found = (done, not_found)
  reconcile_node r takes profile now failed = (retry, failed)
  reconcile_node r takes profile now (found node) =
      let wanted = wanted_from profile now in
      let result = sync r takes wanted.0 wanted.1 node in (outcome_of result.0, found result.1)

  -- `nodes` answers a read of a node by its name.
  unfoldable pub reconcile :
      Reconciler
      → Bool
      → (String → Fetched (Node Quantity))
      → ℤ
      → Fetched (NodeResourceProfile Quantity)
      → Outcome × Fetched (Node Quantity)
  reconcile r takes nodes now not_found = (done, not_found)
  reconcile r takes nodes now failed = (retry, not_found)
  reconcile r takes nodes now (found profile) =
      reconcile_node r takes profile now (nodes profile.node_name)

  unfoldable pub advertised_for : Node Quantity → ResourceList Quantity
  advertised_for node =
      (resource_cpu, new_milli_quantity (extended_value node resource_reclaimed_cpu))
      ∷ (
        resource_memory,
        new_quantity
            (int64 (int64 (extended_value node resource_reclaimed_memory *ℤ pos 1024) *ℤ pos 1024)),
      )
      ∷ []
