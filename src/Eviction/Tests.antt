-- ===== src/Eviction/Tests.antt =====
-- The theorems on the eviction pass at a concrete node, and what the pass does there.
use kqos.Prelude.{
  AllOf, ◌≡◌, ◌≤◌, inl, inr, refl, arith, true, false, Bool, List, [], ◌∷◌, some, length, map,
}
use kqos.Prelude.Int.{ℤ, pos, ◌-ℤ◌, ◌+ℤ◌, ◌*ℤ◌, ◌/ℤ◌}
use kqos.Eviction.Budget.{run_budget}
use kqos.Eviction.Bucket.{clamp_tokens, configure, new_token_bucket, refill, take}
use kqos.Eviction.Distinct.{Distinct, run-Distinct}
use kqos.Eviction.Manager.{
  ApiAnswer, accepted, Manager, carry_out, consider, consider_all, gc_recent, is_stabilising,
  key_of, new_manager, propose, recent_only, run, settle, suppress, track_breach, veto,
}
use kqos.Eviction.Plugins.{memory_of, memory_pressure, rank_by_tier_then_usage}
use kqos.Eviction.Plugins.Tiers.{Split, memory_pressure-Split}
use kqos.Eviction.Safety.{MayGo, run-MayGo, run_calm, run_idle}
use kqos.Eviction.Signals.{EvictionConfig, Plugin, Signal, Verdict}
use kqos.Api.{evictable}
use kqos.Kubernetes.{Pod, put_key}
use kqos.Qos.{level_of, inferred_level, native_qos, is_mirror_pod, is_terminal}
use kqos.Samples.{Amount, amounts, whole_floats, node_capacity, node_sample, pod_of}
use kqos.SysAdvisor.Advisor.{Recommendation, critical, no_recommendation, no_pressure}

abbrev config : Bool → EvictionConfig
config dry_run = record {
  enabled = true;
  dry_run = dry_run;
  memory_pressure_threshold_percent = pos 85;
  cpu_pressure_threshold_percent = pos 92;
  cpu_some_stalled_threshold_percent = pos 40;
  max_evictions_per_minute = pos 2;
  grace_period_seconds = pos 30;
  stabilisation_seconds = pos 30;
  disabled_plugins = [];
}

abbrev pressed : Recommendation
pressed = record no_recommendation {
  pressure = record (no_recommendation.pressure) { level = critical };
}

abbrev calm_node : Recommendation
calm_node = record no_recommendation {
  pressure = record (no_recommendation.pressure) { level = no_pressure };
}

abbrev verdict_on : Pod Amount → Verdict ℤ Amount
verdict_on pod = record {
  pod = pod;
  plugin = "all";
  reason = "test";
  score = pos 0;
  releases_cpu_milli = pos 0;
  releases_memory_bytes = pos 0;
}

-- A plugin that proposes every pod of the node.
abbrev evict_all : Plugin ℤ Amount
evict_all = record { name = "all"; evaluate = λ sig. some (map verdict_on sig.pods) }

abbrev signal : Bool → Recommendation → Signal ℤ Amount
signal dry_run r = record {
  sample = node_sample (pos 5) 900;
  recommendation = r;
  allocatable = node_capacity;
  config = config dry_run;
  pods = pod_of "a" 1 ∷ pod_of "a" 1 ∷ pod_of "b" 1 ∷ pod_of "c" 1 ∷ [];
  sample_by_uid = [];
}

-- A manager that has seen pressure for a minute.
abbrev ready : Manager ℤ Amount
ready = record (new_manager (evict_all ∷ [])) { breached_since = some (pos 0) }

abbrev yes : Verdict ℤ Amount → ApiAnswer
yes v = accepted

abbrev pass : List (Verdict ℤ Amount)
pass = (run yes ready (signal false pressed) (pos 60_000_000_000)).0.evicted

eviction_code : Unit {0}
unfolding clamp_tokens configure new_token_bucket refill take carry_out consider consider_all
    gc_recent is_stabilising key_of new_manager propose recent_only run settle suppress track_breach
    veto evictable level_of inferred_level native_qos is_mirror_pod is_terminal put_key ◌-ℤ◌ ◌+ℤ◌
    ◌*ℤ◌ ◌/ℤ◌
eviction_code = tt

run-MayGo_example : AllOf (λ v. MayGo v.pod) pass
run-MayGo_example = run-MayGo yes ready (signal false pressed) (pos 60_000_000_000)

run-Distinct_example : Distinct pass
run-Distinct_example = run-Distinct yes ready (signal false pressed) (pos 60_000_000_000)

run_budget_example : length pass ≤ 2
run_budget_example = run_budget yes ready (signal false pressed) (pos 60_000_000_000) (omega arith)

run_idle_example : (run yes ready (signal true pressed) (pos 60_000_000_000)).0.evicted ≡ []
run_idle_example = run_idle yes ready (signal true pressed) (pos 60_000_000_000) (inr (inr refl))

run_calm_example : (run yes ready (signal false calm_node) (pos 60_000_000_000)).0.evicted ≡ []
run_calm_example =
    run_calm yes ready (signal false calm_node) (pos 60_000_000_000) (omega arith) (inl refl)

-- Of three pods, one of them proposed twice, a budget of two lets two go.
pass-names : map (λ (v : Verdict ℤ Amount). v.pod.name) pass ≡ "a" ∷ "b" ∷ []
unfolding eviction_code
pass-names = refl

memory_pressure-Split_example :
    (vs : List (Verdict ℤ Amount)) × (memory_pressure (signal false pressed) ≡ some vs)
    × Split (rank_by_tier_then_usage (signal false pressed) memory_of) vs
memory_pressure-Split_example = memory_pressure-Split (signal false pressed)
