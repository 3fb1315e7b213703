-- ===== src/Usage/Store/Tests.antt =====
-- The store at concrete reports.
use kqos.Prelude.{ℕ, ◌≡◌, refl, false, [], ◌∷◌, none, some, String, arith, AllOf}
use kqos.Prelude.Int.{ℤ, pos, ◌-ℤ◌, ◌*ℤ◌, ◌≤ℤ◌}
use kqos.Samples.{whole_floats}
use kqos.Usage.{PodUsage, Report}
use kqos.Usage.Store.{Store, new_store, ingest, gc, workload_requests, workload_stats, workload_key}
use kqos.Usage.Store.Expiry.{IsFresh, workload_stats-gc, gc-IsFresh}
use kqos.Usage.Store.Latest.{workload_requests-ingest}
use kqos.Usage.Store.Reachable.{Reachable, created, ingested, collected_at, IsWf, Reachable-IsWf}

abbrev usage_of : String → ℕ → PodUsage ℤ
usage_of uid milli = record {
  uid = uid;
  namespace = "default";
  name = uid;
  qos_level = "shared_cores";
  owner_kind = "ReplicaSet";
  owner_name = "web";
  cpu_milli = pos milli;
  memory_bytes = 64;
  request_cpu_milli = pos 500;
  request_memory_bytes = pos 128;
  throttled_ratio = pos 0;
}

abbrev report_of : ℕ → Report ℤ
report_of at = record {
  node = "n1";
  timestamp = some (pos at);
  pods = usage_of "a" 100 ∷ usage_of "b" 300 ∷ [];
  degraded = false;
}

-- A minute of retention, a report at 10 s and one at 50 s, and a collection at 90 s.
abbrev store : Store ℤ
store =
    gc (pos 90_000_000_000)
      (ingest none (report_of 50_000_000_000) (pos 50_000_000_000)
        (ingest none (report_of 10_000_000_000) (pos 10_000_000_000)
          (new_store (pos 60_000_000_000))).0).0

reachable : Reachable none store
reachable = collected_at (pos 90_000_000_000) (
    ingested (report_of 50_000_000_000) (pos 50_000_000_000)
      (ingested (report_of 10_000_000_000) (pos 10_000_000_000) (created (pos 60_000_000_000))))

Reachable-IsWf_example : IsWf store
Reachable-IsWf_example = Reachable-IsWf reachable

workload_requests-ingest_example :
    workload_requests
      (ingest none (report_of 95_000_000_000) (pos 95_000_000_000) store).0
      (record { namespace = "default"; kind = "ReplicaSet"; name = "web" })
    ≡ some (pos 500, pos 128)
unfolding workload_key
workload_requests-ingest_example =
    workload_requests-ingest none store (report_of 95_000_000_000) (pos 95_000_000_000)
      (usage_of "a" 100 ∷ []) (usage_of "b" 300) 500 128 reachable refl refl refl (omega arith) refl
      (omega arith)

workload_stats-gc_example :
    workload_stats
      (gc (pos 100_000_000_000) store)
      (record { namespace = "default"; kind = "ReplicaSet"; name = "web" })
      (pos 105_000_000_000)
    ≡ workload_stats store
        (record { namespace = "default"; kind = "ReplicaSet"; name = "web" })
        (pos 105_000_000_000)
workload_stats-gc_example =
    workload_stats-gc store (record { namespace = "default"; kind = "ReplicaSet"; name = "web" })
      (pos 100_000_000_000) (pos 105_000_000_000) (Reachable-IsWf reachable).once (omega arith)

gc-IsFresh_example :
    AllOf
      (λ e. IsFresh (pos 90_000_000_000) store.retention e.1)
      (gc (pos 90_000_000_000) store).series
    × AllOf
        (λ e. (pos 90_000_000_000 -ℤ e.1) ≤ℤ (pos 2 *ℤ store.retention))
        (gc (pos 90_000_000_000) store).node_seen
gc-IsFresh_example = gc-IsFresh (pos 90_000_000_000) store
