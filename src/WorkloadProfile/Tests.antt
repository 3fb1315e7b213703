-- ===== src/WorkloadProfile/Tests.antt =====
-- A pass over a concrete profile.
use kqos.Prelude.{◌≡◌, refl, true, [], ◌∷◌, none, some, select, ℕ}
use kqos.Prelude.Int.{ℤ, pos, ◌-ℤ◌}
use kqos.Api.{shared_cores}
use kqos.Overcommit.{found}
use kqos.Samples.{Amount, whole, amounts, whole_floats}
use kqos.Usage.{key_text}
use kqos.Usage.Store.{Store, Series, Sample}
use kqos.WorkloadProfile.{
  WorkloadProfile, WorkloadProfileStatus, UsageStatistics, again_soon, factor_of,
  reconcile_workload, owner_resolver,
}
use kqos.WorkloadProfile.Advice.{IsAdvice, reconcile_workload-IsAdvice}

abbrev no_figures : UsageStatistics Amount
no_figures = record {
  p50 = whole (pos 0);
  p90 = whole (pos 0);
  p95 = whole (pos 0);
  p99 = whole (pos 0);
  max = whole (pos 0);
}

abbrev profile : WorkloadProfile Amount
profile = record {
  namespace = "default";
  name = "web";
  spec = record {
    target_ref = record { api_version = "apps/v1"; kind = "Deployment"; name = "web" };
    qos_level = shared_cores;
    safety_margin_percent = pos 100;
  };
  status = record {
    samples = pos 0;
    pod_count = pos 0;
    cpu = no_figures;
    memory = no_figures;
    current_requests = [];
    recommendation = [];
    waste_percent = pos 0;
    confidence = "";
    last_updated = none;
    conditions = [];
  };
}

abbrev sample_at : ℕ → ℕ → ℕ → Sample ℤ
sample_at at milli bytes = record {
  at = pos at;
  cpu_milli = pos milli;
  memory_bytes = pos bytes;
  request_cpu = pos 1000;
  request_mem = pos 64;
  pod_uid = "a";
}

abbrev series : Series ℤ
series = record {
  key = record { namespace = "default"; kind = "Deployment"; name = "web" };
  samples = sample_at 10 900 90 ∷ sample_at 40 100 20_000_000 ∷ sample_at 50 300 10_000_000 ∷ [];
  pods = ("a", pos 50) ∷ [];
  last = pos 50;
}

-- With a retention of 60, the first sample has expired at 90.
abbrev store : Store ℤ
store = record {
  retention = pos 60;
  max_per_key = 4096;
  series = ("default/Deployment/web", series) ∷ [];
  node_seen = [];
}

reconcile_workload-IsAdvice_example :
    (status : WorkloadProfileStatus Amount) × (reconcile_workload store true
        (pos 90)
        (found profile)
      ≡ (again_soon, found (record profile { status = status })))
    × IsAdvice
        (factor_of (pos 100))
        (sample_at 40 100 20_000_000 ∷ sample_at 50 300 10_000_000 ∷ [])
        status
unfolding key_text select ◌-ℤ◌
reconcile_workload-IsAdvice_example =
    reconcile_workload-IsAdvice store (pos 90) profile series (sample_at 40 100 20_000_000)
      (sample_at 50 300 10_000_000 ∷ []) refl refl

-- A replica set is followed to its deployment.
owner_test :
    owner_resolver (λ namespace name. some ("Deployment", "web")) "default" "ReplicaSet" "web-1"
    ≡ some (record { namespace = "default"; kind = "Deployment"; name = "web" })
unfolding owner_resolver
owner_test = refl
