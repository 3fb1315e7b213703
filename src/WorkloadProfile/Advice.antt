-- ===== src/WorkloadProfile/Advice.antt =====
-- The recommendation of a pass of `Reconcile`, against the samples of the workload that have not
-- expired.
use kqos.Prelude.{
  suc, ◌≡◌, ◌∙◌, refl, ap, true, false, arith, List, ◌∷◌, map, Option, none, some, length,
  length-map, select, AllOf, AnyOf,
}
use kqos.Prelude.Int.{ℤ, pos, ◌≤ℤ◌, ◌-ℤ◌}
use kqos.Floats.{FloatApi}
use kqos.Kubernetes.{QuantityApi, resource_cpu, resource_memory, lookup}
use kqos.Overcommit.{found}
use kqos.Usage.{key_text}
use kqos.Usage.Store.{
  Store, Series, Sample, is_live, summarise, workload_stats, stats_of_live, workload_requests,
}
use kqos.Usage.Store.Summary.{summarise-IsSummary}
use kqos.WorkloadProfile.{
  WorkloadProfile, WorkloadProfileStatus, at_least, factor_of, recommended_cpu, recommended_memory,
  requests_or_zero, sampled_status, status_of, target_key, reconcile_workload, again_soon,
}

at_least_floor : (floor v : ℤ) → floor ≤ℤ at_least floor v
at_least_floor floor v = ground arith

at_least_value : (floor v : ℤ) → v ≤ℤ at_least floor v
at_least_value floor v = ground arith

abbrev as_number : {Quantity : Type 0} → (Quantity → ℤ) → Option Quantity → ℤ
as_number read none = pos 0
as_number read (some q) = read q

module _ {Quantity : Type 0} ⦃api : QuantityApi Quantity⦄ where
  open api use {milli_value, value}

  abbrev advised_cpu : WorkloadProfileStatus Quantity → ℤ
  advised_cpu status = as_number milli_value (lookup resource_cpu status.recommendation)

  abbrev advised_memory : WorkloadProfileStatus Quantity → ℤ
  advised_memory status = as_number value (lookup resource_memory status.recommendation)

module _ {Float Quantity : Type 0} ⦃f : FloatApi Float⦄ ⦃api : QuantityApi Quantity⦄ where
  open f use {less, mul, to_int}
  open api use {milli_value-new, value-new}

  -- The status advises on the samples: CPU by one of them, and memory by one that none is above,
  -- times the factor.
  pub record IsAdvice (factor : Float) (live : List (Sample Float))
      (status : WorkloadProfileStatus Quantity) : Type 0 where
    pub usual : Float
    pub usual_observed : AnyOf (λ v. v ≡ usual) (map (λ sm. sm.cpu_milli) live)
    pub cpu_covers : to_int (mul usual factor) ≤ℤ advised_cpu status
    pub cpu_floor : pos 10 ≤ℤ advised_cpu status
    pub peak : Float
    pub peak_observed : AnyOf (λ v. v ≡ peak) (map (λ sm. sm.memory_bytes) live)
    pub peak_above : AllOf (λ v. less peak v ≡ false) (map (λ sm. sm.memory_bytes) live)
    pub memory_covers : to_int (mul peak factor) ≤ℤ advised_memory status
    pub memory_floor : pos 16_777_216 ≤ℤ advised_memory status
    pub samples : status.samples ≡ pos (length live)

  sampled-IsAdvice :
      (now : ℤ) (wp : WorkloadProfile Quantity) (requests : ℤ × ℤ) (sm : Sample Float)
      (sms : List (Sample Float))
      → IsAdvice
          (factor_of wp.spec.safety_margin_percent)
          (sm ∷ sms)
          (status_of now wp (stats_of_live (sm ∷ sms)) requests)
  unfolding sampled_status recommended_cpu recommended_memory
  sampled-IsAdvice now wp requests sm sms =
      let cpu = summarise (sm.cpu_milli ∷ map (λ x. x.cpu_milli) sms) in
      let memory = summarise (sm.memory_bytes ∷ map (λ x. x.memory_bytes) sms) in
      let cpu_facts = summarise-IsSummary sm.cpu_milli (map (λ x. x.cpu_milli) sms) in
      let memory_facts = summarise-IsSummary sm.memory_bytes (map (λ x. x.memory_bytes) sms) in
      let factor = factor_of wp.spec.safety_margin_percent in
      let cpu_wanted = to_int (mul cpu.p95 factor) in
      let memory_wanted = to_int (mul memory.max factor) in
      let cpu_read = milli_value-new (at_least (pos 10) cpu_wanted) in
      let memory_read = value-new (at_least (pos 16_777_216) memory_wanted) in
      record {
        usual = cpu.p95;
        usual_observed = cpu_facts.p95.observed;
        cpu_covers = rw cpu_read (at_least_value (pos 10) cpu_wanted);
        cpu_floor = rw cpu_read (at_least_floor (pos 10) cpu_wanted);
        peak = memory.max;
        peak_observed = memory_facts.max.observed;
        peak_above = memory_facts.above;
        memory_covers = rw memory_read (at_least_value (pos 16_777_216) memory_wanted);
        memory_floor = rw memory_read (at_least_floor (pos 16_777_216) memory_wanted);
        samples = cpu_facts.samples ∙ ap (λ n. pos (suc n)) (length-map (λ x. x.cpu_milli) sms);
      }

  -- A pass over a profile whose workload has samples that have not expired, and whose patch the API
  -- server takes, leaves the profile with advice on these samples.
  pub reconcile_workload-IsAdvice :
      (store : Store Float) (now : ℤ) (wp : WorkloadProfile Quantity) (ser : Series Float)
      (sm : Sample Float) (sms : List (Sample Float))
      → lookup (key_text (target_key wp)) store.series ≡ some ser
      → select (is_live (now -ℤ store.retention)) ser.samples ≡ sm ∷ sms
      → (status : WorkloadProfileStatus Quantity) × (reconcile_workload store true now (found wp)
          ≡ (again_soon, found (record wp { status = status })))
        × IsAdvice (factor_of wp.spec.safety_margin_percent) (sm ∷ sms) status
  unfolding reconcile_workload workload_stats
  reconcile_workload-IsAdvice store now wp ser sm sms there live = (
    status_of now wp (stats_of_live (sm ∷ sms))
        (requests_or_zero (workload_requests store (target_key wp))),
    simp (there, live) refl,
    sampled-IsAdvice now wp (requests_or_zero (workload_requests store (target_key wp))) sm sms,
  )
