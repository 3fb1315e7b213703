-- ===== src/Agent/Loop/Ticks.antt =====
-- What holds of a tick whose sample is made of estimates.
use kqos.Prelude.{
  ◌≡◌, ◌∙◌, refl, sym, Bool, true, false, List, ◌&&◌, [], Option, none, some, if◌then◌else◌, inl,
  inr,
}
use mathlib.Core.Path.{subst}
use kqos.Prelude.Int.{ℤ}
use kqos.Agent.Configuration.{Agent, Sorts, load_policy, apply_policy}
use kqos.Agent.Loop.{
  World, Options, Done, signal_of, live_pods, act, act_if, tick, existing, written,
}
use kqos.Agent.Report.{build_report, build_status, degraded_sampling}
use kqos.Agent.Report.Delivery.{ingest-build_report}
use kqos.Agent.Report.Health.{degraded_restamped}
use kqos.Collector.{NodeSample}
use kqos.Eviction.Safety.{run_idle}
use kqos.Floats.{FloatApi}
use kqos.Kubernetes.{QuantityApi, Pod}
use kqos.Overcommit.{Fetched, Node, found, not_found, failed}
use kqos.Policy.{QosPolicySpec}
use kqos.Profile.{Condition, NodeResourceProfileStatus}
use kqos.Profile.Conditions.{condition_of}
use kqos.SysAdvisor.Recommend.{default_config}
use kqos.Usage.{Report}
use kqos.Usage.Store.{OwnerResolver, Store, ingest}

abbrev pub ReportHas : {Float : Type 0} → (Report Float → Type 0) → Option (Report Float) → Type 0
ReportHas P none = Unit
ReportHas P (some r) = P r

ReportHas-if :
    {Float : Type 0} (b : Bool) (P : Report Float → Type 0) (r : Report Float)
    → P r
    → ReportHas P (if b then some r else none)
ReportHas-if true P r h = h
ReportHas-if false P r h = tt

abbrev pub StatusHas :
    {Quantity : Type 0}
    → (NodeResourceProfileStatus Quantity → Type 0)
    → Option (NodeResourceProfileStatus Quantity)
    → Type 0
StatusHas P none = Unit
StatusHas P (some status) = P status

abbrev pub is_some : {A : Type 0} → Option A → Bool
is_some none = false
is_some (some a) = true

StatusHas-written :
    {Quantity : Type 0} (takes : Bool) (P : NodeResourceProfileStatus Quantity → Type 0)
    (status : List Condition → NodeResourceProfileStatus Quantity) (o : Option (List Condition))
    → ((conditions : List Condition) → P (status conditions))
    → StatusHas P (written takes status o)
StatusHas-written takes P status none h = tt
StatusHas-written true P status (some conditions) h = h conditions
StatusHas-written false P status (some conditions) h = tt

is_some-written :
    {Quantity : Type 0} (takes : Bool)
    (status : List Condition → NodeResourceProfileStatus Quantity) (o : Option (List Condition))
    → is_some (written takes status o) ≡ (takes && is_some o)
is_some-written true status none = refl
is_some-written false status none = refl
is_some-written true status (some conditions) = refl
is_some-written false status (some conditions) = refl

module _ {Float Quantity : Type 0} ⦃f : FloatApi Float⦄ ⦃api : QuantityApi Quantity⦄ where
  -- A property of what a tick does, if it comes to act.
  abbrev pub DoneHas : (Done Float Quantity → Type 0) → Option (Done Float Quantity) → Type 0
  DoneHas P none = Unit
  DoneHas P (some d) = P d

module _ {Float Quantity Selector : Type 0} ⦃f : FloatApi Float⦄ ⦃api : QuantityApi Quantity⦄ where
  -- Nothing is evicted, the store takes nothing, and the profile says so, which is written unless a
  -- call of the API server fails.
  pub record IsHarmless (w : World Float Quantity Selector) (d : Done Float Quantity) : Type 0 where
    pub evicts_none : d.evictions.evicted ≡ []
    pub stored :
        (resolve : OwnerResolver) (now : ℤ) (s : Store Float)
        → ReportHas (λ r. ingest resolve r now s ≡ (s, 0)) d.report
    pub reached :
        is_some d.status ≡ (w.takes_status && is_some (existing w.profile w.creates w.created))
    pub said :
        StatusHas
          (λ status.
            condition_of "AgentHealthy" status.conditions
            ≡ some (record degraded_sampling { last_transition_time = w.clock 1 }))
          d.status

  act-IsHarmless :
      (opts : Options) (w : World Float Quantity Selector) (spec : QosPolicySpec Quantity Selector)
      (node : Node Quantity) (pods : List (Pod Quantity)) (sample : NodeSample Float Quantity)
      (a : Agent Float Quantity)
      → sample.degraded ≡ true
      → IsHarmless w (act opts w spec node pods sample a).1
  unfolding act build_status
  act-IsHarmless opts w spec node pods sample a e = record {
    evicts_none =
        run_idle w.answer a.evictor (signal_of spec node pods sample a) (w.clock 3) (inr (inl e));
    stored = λ resolve now s.
        ReportHas-if opts.publishes (λ r. ingest resolve r now s ≡ (s, 0))
          (build_report w.controller_of opts.node_name sample pods)
          (ingest-build_report resolve w.controller_of opts.node_name sample pods now s
            ∙ rw e refl);
    reached = is_some-written w.takes_status _ (existing w.profile w.creates w.created);
    said =
        StatusHas-written w.takes_status _ _ (existing w.profile w.creates w.created)
          (λ conditions. rw e (degraded_restamped w.clock _ conditions));
  }

  act_if-IsHarmless :
      (opts : Options) (w : World Float Quantity Selector) (spec : QosPolicySpec Quantity Selector)
      (node : Fetched (Node Quantity)) (pods : Option (List (Pod Quantity)))
      (sample : NodeSample Float Quantity) (a : Agent Float Quantity)
      → sample.degraded ≡ true
      → DoneHas (IsHarmless w) (act_if opts w spec node pods (some sample) a).1
  act_if-IsHarmless opts w spec (found node) (some pods) sample a e =
      act-IsHarmless opts w spec node (live_pods pods) sample a e
  act_if-IsHarmless opts w spec (found node) none sample a e = tt
  act_if-IsHarmless opts w spec not_found pods sample a e = tt
  act_if-IsHarmless opts w spec failed pods sample a e = tt

  -- A tick whose sample is made of estimates evicts nothing, reports nothing that the usage store
  -- takes, and says in the profile that the agent is not healthy; it writes the profile unless the
  -- API server fails to give, to create or to patch it.
  pub tick-IsHarmless :
      (sorts : Sorts Float Quantity) (opts : Options) (w : World Float Quantity Selector)
      (a : Agent Float Quantity) (sample : NodeSample Float Quantity)
      → w.sample ≡ some sample
      → sample.degraded ≡ true
      → DoneHas (IsHarmless w) (tick sorts opts w a).1
  unfolding tick
  tick-IsHarmless sorts opts w a sample e d =
      let spec = load_policy (default_config {Float = Float}) w.policy in
      let configured = apply_policy sorts w.scan spec a in
      subst (λ o. DoneHas (IsHarmless w) (act_if opts w spec w.node w.pods o configured).1) (sym e)
        (act_if-IsHarmless opts w spec w.node w.pods sample configured d)
