-- ===== src/Agent/Loop.antt =====
-- pkg/agent/agent.go: one tick of the agent. What the API server answers, the sample that the
-- collector made, and what the cgroups take, are arguments; metrics and log lines are left out.
pub mod Ticks
mod Tests
use kqos.Prelude.{
  ℕ, ◌≡◌, Bool, true, false, not, ◌||◌, List, [], ◌∷◌, Option, none, some, String, if◌then◌else◌,
  select,
}
use kqos.Prelude.Int.{ℤ}
use kqos.Agent.Configuration.{Agent, Sorts, load_policy, apply_policy}
use kqos.Agent.Report.{build_status, build_report}
use kqos.Api.{evictable}
use kqos.Collector.{NodeSample, PodSample}
use kqos.CpuPool.Applying.{Manager, Cgroups, Write, reconcile_pools}
use kqos.Eviction.Manager.{ApiAnswer, Result, run}
use kqos.Eviction.Signals.{Signal, Verdict}
use kqos.Floats.{FloatApi}
use kqos.Kubernetes.{QuantityApi, ResourceList, Pod, put_key}
use kqos.Overcommit.{Fetched, Node, found, not_found, failed}
use kqos.Policy.{QosPolicySpec}
use kqos.Profile.{Condition, NodeResourceProfileStatus}
use kqos.Qos.{level_of, is_mirror_pod, is_terminal}
use kqos.SysAdvisor.Recommend.{observe, recommend, default_config}
use kqos.Usage.{Report}

module _ {Quantity : Type 0} ⦃api : QuantityApi Quantity⦄ where
  unfoldable pub live_pods : List (Pod Quantity) → List (Pod Quantity)
  live_pods pods = select (λ pod. not (is_terminal pod)) pods

  unfoldable pub eviction_candidates : List (Pod Quantity) → List (Pod Quantity)
  eviction_candidates pods =
      select (λ pod. not (not (evictable (level_of pod)) || is_mirror_pod pod || pod.deleting)) pods

module _ {Float Quantity : Type 0} where
  -- A later sample of a pod replaces an earlier one.
  unfoldable pub index_samples :
      List (PodSample Float Quantity)
      → List (String × PodSample Float Quantity)
      → List (String × PodSample Float Quantity)
  index_samples [] out = out
  index_samples (p ∷ ps) out = index_samples ps (put_key p.uid p out)

-- What a tick meets.
pub record World (Float Quantity Selector : Type 0) : Type 0 where
  pub policy : Fetched (QosPolicySpec Quantity Selector)
  pub node : Fetched (Node Quantity)
  -- The pods of the node, if they are listed, and the sample, if it is collected.
  pub pods : Option (List (Pod Quantity))
  pub sample : Option (NodeSample Float Quantity)
  -- What `report` gets of the conditions of the profile, first and after it created the profile;
  -- whether the profile was created or was there already, and whether the patch is taken.
  pub profile : Fetched (List Condition)
  pub creates : Bool
  pub created : Fetched (List Condition)
  pub takes_status : Bool
  pub cgroups_available : Bool
  pub cgroups : Cgroups
  pub answer : Verdict Float Quantity → ApiAnswer
  pub clock : ℕ → ℤ
  pub scan : String → Option Float
  pub controller_of : Pod Quantity → Option (String × String)

pub record Options : Type 0 where
  pub node_name : String
  pub publishes : Bool
  pub enforce_cpu_weight : Bool

-- What a tick does: the writes that it tries, the status that the profile then has, if it was
-- written, the report that it makes, and what it evicts.
pub record Done (Float Quantity : Type 0) : Type 0 where
  pub writes : List Write
  pub status : Option (NodeResourceProfileStatus Quantity)
  pub report : Option (Report Float)
  pub evictions : Result Float Quantity

abbrev pub fetched_or_none : Fetched (List Condition) → Option (List Condition)
fetched_or_none (found conditions) = some conditions
fetched_or_none not_found = none
fetched_or_none failed = none

-- The conditions that `report` goes on with, if it does not stop at an error.
abbrev pub existing :
    Fetched (List Condition) → Bool → Fetched (List Condition) → Option (List Condition)
existing (found conditions) creates created = some conditions
existing failed creates created = none
existing not_found creates created = if creates then fetched_or_none created else none

-- The status that `report` writes, made of the conditions that it found.
abbrev pub written :
    {Quantity : Type 0}
    → Bool
    → (List Condition → NodeResourceProfileStatus Quantity)
    → Option (List Condition)
    → Option (NodeResourceProfileStatus Quantity)
written takes status none = none
written takes status (some conditions) = if takes then some (status conditions) else none

abbrev pub pools_after : Manager → Option (Manager × List Write) → Manager × List Write
pools_after m none = (m, [])
pools_after m (some r) = r

module _ {Float Quantity Selector : Type 0} ⦃f : FloatApi Float⦄ ⦃api : QuantityApi Quantity⦄ where
  -- What the eviction manager is asked with.
  abbrev pub signal_of :
      QosPolicySpec Quantity Selector
      → Node Quantity
      → List (Pod Quantity)
      → NodeSample Float Quantity
      → Agent Float Quantity
      → Signal Float Quantity
  signal_of spec node pods sample a = record {
    sample = sample;
    recommendation = (recommend (observe a.advisor sample) node.allocatable sample.timestamp).0;
    allocatable = node.allocatable;
    config = spec.eviction;
    pods = eviction_candidates pods;
    sample_by_uid = index_samples sample.pods [];
  }

  -- The tick from the sample on, with the policy applied.
  unfoldable pub act :
      Options
      → World Float Quantity Selector
      → QosPolicySpec Quantity Selector
      → Node Quantity
      → List (Pod Quantity)
      → NodeSample Float Quantity
      → Agent Float Quantity
      → Agent Float Quantity × Done Float Quantity
  act opts w spec node pods sample a =
      let advised = recommend (observe a.advisor sample) node.allocatable sample.timestamp in
      let pools =
        if opts.enforce_cpu_weight
        then pools_after a.pools (reconcile_pools w.cgroups_available w.cgroups pods a.pools)
        else (a.pools, []) in
      let evicted = run w.answer a.evictor (signal_of spec node pods sample a) (w.clock 3) in
      (
        record a { advisor = advised.1; pools = pools.0; evictor = evicted.1 },
        record {
          writes = pools.1;
          status =
              written w.takes_status
                (build_status w.clock node.capacity node.allocatable pools.0 sample advised.0)
                (existing w.profile w.creates w.created);
          report =
              if opts.publishes
              then some (build_report w.controller_of opts.node_name sample pods)
              else none;
          evictions = evicted.0;
        },
      )

  abbrev pub act_if :
      Options
      → World Float Quantity Selector
      → QosPolicySpec Quantity Selector
      → Fetched (Node Quantity)
      → Option (List (Pod Quantity))
      → Option (NodeSample Float Quantity)
      → Agent Float Quantity
      → Agent Float Quantity × Option (Done Float Quantity)
  act_if opts w spec (found node) (some pods) (some sample) a =
      let result = act opts w spec node (live_pods pods) sample a in (result.0, some result.1)
  act_if opts w spec _ _ _ a = (a, none)

  -- A tick stops early where the node, the pods or the sample are not to be had.
  unfoldable pub tick :
      Sorts Float Quantity
      → Options
      → World Float Quantity Selector
      → Agent Float Quantity
      → Agent Float Quantity × Option (Done Float Quantity)
  tick sorts opts w a =
      let spec = load_policy (default_config {Float = Float}) w.policy in
      act_if opts w spec w.node w.pods w.sample (apply_policy sorts w.scan spec a)
