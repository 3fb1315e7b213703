-- ===== src/Agent/Report/Delivery.antt =====
-- What becomes of a report in the controller's store.
use kqos.Prelude.{
  ℕ, suc, ◌≡◌, ◌∙◌, refl, ap, List, [], ◌∷◌, Option, String, if◌then◌else◌, count, Bool-cases, inl,
  inr, arith, length,
}
use kqos.Prelude.Int.{ℤ}
use kqos.Agent.Report.{report_pods, index_pods, build_report}
use kqos.Collector.{NodeSample, PodSample}
use kqos.Floats.{FloatApi}
use kqos.Kubernetes.{put_key, QuantityApi, Pod}
use kqos.Usage.{PodUsage}
use kqos.Usage.Store.{OwnerResolver, Store, ingest, ingest_pods, ingest_pod}
use kqos.Usage.Store.Latest.{workload_key_found}

ingest_pods-all :
    {Float : Type 0} ⦃f : FloatApi Float⦄ (resolve : OwnerResolver) (at now : ℤ)
    (ps : List (PodUsage Float)) (s : Store Float)
    → (ingest_pods resolve at now ps s).1 ≡ length ps
unfolding ingest_pods
ingest_pods-all resolve at now [] s = refl
ingest_pods-all resolve at now (p ∷ ps) s =
    simp (workload_key_found resolve p)
      (ap suc (ingest_pods-all resolve at now ps (ingest_pod resolve at now p s)))

abbrev pair_of : {A : Type 0} → A → ℕ → A × ℕ
pair_of a n = (a, n)

count_eq : {A : Type 0} {n : ℕ} (x : A × ℕ) → x.1 ≡ n → pair_of x.0 x.1 ≡ pair_of x.0 n
count_eq x h = rw h refl

module _ {Float Quantity : Type 0} ⦃f : FloatApi Float⦄ ⦃api : QuantityApi Quantity⦄ where
  length-report_pods :
      (controller_of : Pod Quantity → Option (String × String))
      (by_uid : List (String × Pod Quantity)) (samples : List (PodSample Float Quantity))
      → length (report_pods controller_of by_uid samples) ≡ count (λ ps. ps.valid) samples
  unfolding report_pods
  length-report_pods controller_of by_uid [] = refl
  length-report_pods controller_of by_uid (ps ∷ samples) =
      let rest = length-report_pods controller_of by_uid samples in
      elim (Bool-cases ps.valid) [
        | inl e ↦ simp e (omega (arith, rest))
        | inr e ↦ simp e (omega (arith, rest))
      ]

  -- A store takes the valid samples of an agent's report, each once, and of a degraded sample
  -- nothing, which leaves it as it was.
  pub ingest-build_report :
      (resolve : OwnerResolver) (controller_of : Pod Quantity → Option (String × String))
      (node_name : String) (sample : NodeSample Float Quantity) (pods : List (Pod Quantity))
      (now : ℤ) (s : Store Float)
      → ingest resolve (build_report controller_of node_name sample pods) now s ≡ (
          if sample.degraded then (s, 0) else (
            (ingest resolve (build_report controller_of node_name sample pods) now s).0,
            count (λ ps. ps.valid) sample.pods,
          ))
  unfolding ingest build_report
  ingest-build_report resolve controller_of node_name sample pods now s =
      let found = report_pods controller_of (index_pods pods []) sample.pods in
      let seen = record s { node_seen = put_key node_name now s.node_seen } in
      elim (Bool-cases sample.degraded) [
        | inl e ↦ simp e refl
        | inr e ↦ simp e (
            count_eq _ (
              ingest_pods-all resolve sample.timestamp now found seen
              ∙ length-report_pods controller_of (index_pods pods []) sample.pods))
      ]
