-- ===== src/Collector/Collecting/First.antt =====
-- The first reading of the cgroups, which makes no rates, and what the counters are kept for.
use kqos.Prelude.{
  map, ◌++◌, sym, ap, ◌∙◌, length-map, String, ◌≡◌, refl, Bool, true, false, ◌&&◌, inl, inr, arith,
  Bool-cases, Option-cases, List, [], ◌∷◌, Option, none, some, String, str_eq, length, length-map,
  ltb, AllOf, AllOf-snoc,
}
use mathlib.Core.List.{append_assoc, append-nil}
use kqos.Prelude.Int.{ℤ, pos, ◌-ℤ◌, leb_ℤ}
use kqos.Floats.{FloatApi}
use kqos.Kubernetes.{QuantityApi, Pod, lookup}
use kqos.Kubernetes.Maps.{put_key-AllOf, lookup-AllOf}
use kqos.Collector.{PodSample, NodeSample}
use kqos.Collector.Sampling.{
  with_figure, workload_or, Cgroups, CpuCounter, CpuStat, Pass, new_collector, blank_sample,
  counter_at, delta_milli_cores, with_rate, sample_read, sample_pod, sample_pods, no_counter,
}
use kqos.Collector.Collecting.{
  read_rollup, with_pressure, finish_sample, start_of, collect, empty_sample,
}
use kqos.SysAdvisor.Window.{float_zero}

no_time_passed : (now : ℤ) → leb_ℤ (now -ℤ now) (pos 0) ≡ true
unfolding ◌-ℤ◌
no_time_passed now = ground arith

module _ {Float : Type 0} ⦃f : FloatApi Float⦄ where
  -- Two readings at one time make no rate.
  delta_at_once :
      (prev : CpuCounter) (cur : CpuStat) (now : ℤ)
      → prev.at ≡ some now
      → delta_milli_cores {Float = Float} prev cur now ≡ none
  unfolding delta_milli_cores
  delta_at_once prev cur now e = elim (Bool-cases (ltb cur.usage_usec prev.usage_usec)) [
    | inl b ↦ simp (e, b) refl
    | inr b ↦ simp (e, b, no_time_passed now) refl
  ]

module _ {Float Quantity : Type 0} ⦃f : FloatApi Float⦄ ⦃api : QuantityApi Quantity⦄ where
  abbrev pub IsUnrated : PodSample Float Quantity → Type 0
  IsUnrated ps = (ps.valid ≡ false) × (ps.cpu_milli ≡ float_zero)

  -- A pass in which all counters were read now.
  record IsFresh (now : ℤ) (pass : Pass Float Quantity) : Type 0 where
    counters : AllOf (λ e. e.1.at ≡ some now) pass.counters
    unrated : AllOf IsUnrated pass.samples

  with_rate-IsUnrated :
      (now : ℤ) (pod : Pod Quantity) (counters : List (String × CpuCounter)) (cur : CpuStat)
      → AllOf (λ e. e.1.at ≡ some now) counters
      → IsUnrated (with_rate (blank_sample pod) (lookup pod.uid counters) cur now)
  unfolding with_rate
  with_rate-IsUnrated now pod counters cur h = elim (Option-cases (lookup pod.uid counters)) [
    | inl e ↦ rw e (refl, refl)
    | inr (prev, e) ↦
        rw
          (
            e,
            delta_at_once prev cur now
                (lookup-AllOf (λ e. e.1.at ≡ some now) pod.uid prev counters h e),
          )
          (refl, refl)
  ]

  sample_read-IsFresh :
      (fs : Cgroups Float) (now : ℤ) (pod : Pod Quantity) (path : String) (o : Option CpuStat)
      (pass : Pass Float Quantity)
      → IsFresh now pass
      → IsFresh now (sample_read fs now pod path o pass)
  sample_read-IsFresh fs now pod path none pass h = record {
    counters = h.counters;
    unrated = AllOf-snoc IsUnrated pass.samples (blank_sample pod) h.unrated (refl, refl);
  }
  sample_read-IsFresh fs now pod path (some cur) pass h = record {
    counters =
        put_key-AllOf (λ e. e.1.at ≡ some now) pod.uid (counter_at now cur) pass.counters h.counters
          refl;
    unrated =
        AllOf-snoc IsUnrated pass.samples _ h.unrated
          (with_rate-IsUnrated now pod pass.counters cur h.counters);
  }

  sample_pod-IsFresh :
      (fs : Cgroups Float) (now : ℤ) (pod : Pod Quantity) (pass : Pass Float Quantity)
      → IsFresh now pass
      → IsFresh now (sample_pod fs now pod pass)
  unfolding sample_pod
  sample_pod-IsFresh fs now pod pass h = elim (Option-cases (fs.pod_path pod.uid)) [
    | inl e ↦ rw e (record {
      counters = h.counters;
      unrated = AllOf-snoc IsUnrated pass.samples (blank_sample pod) h.unrated (refl, refl);
    })
    | inr (path, e) ↦ rw e (sample_read-IsFresh fs now pod path (fs.cpu_stat path) pass h)
  ]

  sample_pods-IsFresh :
      (fs : Cgroups Float) (now : ℤ) (pods : List (Pod Quantity)) (pass : Pass Float Quantity)
      → IsFresh now pass
      → IsFresh now (sample_pods fs now pods pass)
  unfolding sample_pods
  sample_pods-IsFresh fs now [] pass h = h
  sample_pods-IsFresh fs now (pod ∷ pods) pass h =
      sample_pods-IsFresh fs now pods (sample_pod fs now pod pass)
        (sample_pod-IsFresh fs now pod pass h)

  abbrev uids_of : List (PodSample Float Quantity) → List String
  uids_of samples = map (λ ps. ps.uid) samples

  uids-snoc :
      (samples : List (PodSample Float Quantity)) (ps : PodSample Float Quantity)
      → uids_of (samples ++ ps ∷ []) ≡ uids_of samples ++ ps.uid ∷ []
  uids-snoc [] ps = refl
  uids-snoc (q ∷ samples) ps = ap (λ us. q.uid ∷ us) (uids-snoc samples ps)

  with_rate-uid :
      (ps : PodSample Float Quantity) (prev : Option CpuCounter) (cur : CpuStat) (now : ℤ)
      → (with_rate ps prev cur now).uid ≡ ps.uid
  unfolding with_rate
  with_rate-uid ps none cur now = refl
  with_rate-uid ps (some prev) cur now = figure (delta_milli_cores prev cur now)
    where
      figure : (o : Option Float) → (with_figure ps prev cur o).uid ≡ ps.uid
      figure none = refl
      figure (some milli) = refl

  uids-sample_pod :
      (fs : Cgroups Float) (now : ℤ) (pod : Pod Quantity) (pass : Pass Float Quantity)
      → uids_of (sample_pod fs now pod pass).samples ≡ uids_of pass.samples ++ pod.uid ∷ []
  unfolding sample_pod
  uids-sample_pod fs now pod pass = elim (Option-cases (fs.pod_path pod.uid)) [
    | inl e ↦ rw e (uids-snoc pass.samples (blank_sample pod))
    | inr (path, e) ↦ elim (Option-cases (fs.cpu_stat path)) [
      | inl g ↦ rw (e, g) (uids-snoc pass.samples (blank_sample pod))
      | inr (cur, g) ↦
          let rated = with_rate (blank_sample pod) (lookup pod.uid pass.counters) cur now in
          rw (e, g)
            (uids-snoc pass.samples
                (record rated { memory_bytes = workload_or 0 (fs.memory_stat path) })
              ∙ ap (λ u. uids_of pass.samples ++ u ∷ [])
                  (with_rate-uid (blank_sample pod) (lookup pod.uid pass.counters) cur now))
    ]
  ]

  uids-sample_pods :
      (fs : Cgroups Float) (now : ℤ) (pods : List (Pod Quantity)) (pass : Pass Float Quantity)
      → uids_of (sample_pods fs now pods pass).samples
        ≡ uids_of pass.samples ++ map (λ pod. pod.uid) pods
  unfolding sample_pods
  uids-sample_pods fs now [] pass = sym (append-nil (uids_of pass.samples))
  uids-sample_pods fs now (pod ∷ pods) pass =
      uids-sample_pods fs now pods (sample_pod fs now pod pass)
      ∙ ap (λ us. us ++ map (λ p. p.uid) pods) (uids-sample_pod fs now pod pass)
      ∙ append_assoc (uids_of pass.samples) (pod.uid ∷ []) (map (λ p. p.uid) pods)

  -- The node's sample before the loop over the pods is not valid.
  rollup_invalid :
      (fs : Cgroups Float) (now : ℤ) (sample : NodeSample Float Quantity)
      → sample.valid ≡ false
      → (read_rollup fs now no_counter sample).0.valid ≡ false
  unfolding read_rollup delta_milli_cores
  rollup_invalid fs now sample h = elim (Bool-cases (str_eq fs.kubepods "")) [
    | inl e ↦ rw e h
    | inr e ↦ elim (Option-cases (fs.cpu_stat fs.kubepods)) [
      | inl g ↦ rw (e, g) h
      | inr (st, g) ↦ rw (e, g) h
    ]
  ]

  -- A sample of pods without a rate; it is valid only where it had to sum pods up.
  pub record IsFirst (fs : Cgroups Float) (pods : List (Pod Quantity))
      (sample : NodeSample Float Quantity) : Type 0 where
    pub unrated : AllOf IsUnrated sample.pods
    pub each : map (λ ps. ps.uid) sample.pods ≡ map (λ pod. pod.uid) pods
    pub valid : sample.valid ≡ (str_eq fs.kubepods "" && ltb 0 (length pods))

  finish_sample-IsFirst :
      (fs : Cgroups Float) (pods : List (Pod Quantity)) (sample : NodeSample Float Quantity)
      (pass : Pass Float Quantity)
      → sample.valid ≡ false
      → AllOf IsUnrated pass.samples
      → uids_of pass.samples ≡ map (λ pod. pod.uid) pods
      → IsFirst fs pods (finish_sample fs sample pass)
  unfolding finish_sample
  finish_sample-IsFirst fs pods sample pass h u each =
      let n : length pass.samples ≡ length pods =
        sym (length-map (λ ps. ps.uid) pass.samples)
        ∙ ap length each
        ∙ length-map (λ pod. pod.uid) pods in
      elim (Bool-cases (str_eq fs.kubepods "")) [
        | inl e ↦ rw e (record { unrated = u; each = each; valid = rw (e, n) refl })
        | inr e ↦ rw e (record { unrated = u; each = each; valid = rw e h })
      ]

  -- The first Collect of a collector, where the cgroups can be read, succeeds with a sample of each
  -- pod in their order, none of them valid and none with a rate; the node's sample is valid only if the path of the
  -- rollup is not known and there is a pod.
  pub collect-IsFirst :
      (fs : Cgroups Float) (now : ℤ) (pods : List (Pod Quantity)) (online : ℤ) (estimate : Bool)
      → fs.available ≡ true
      → (sample : NodeSample Float Quantity) × ((collect fs now pods online
            (new_collector estimate)).0
          ≡ some sample)
        × IsFirst fs pods sample
  unfolding collect new_collector
  collect-IsFirst fs now pods online estimate h =
      let start = start_of (new_collector estimate) in
      let fresh = sample_pods-IsFresh fs now pods start (record { counters = tt; unrated = tt }) in
      let sample = with_pressure fs (read_rollup fs now no_counter (empty_sample now online)).0 in
      (
        finish_sample fs sample (sample_pods fs now pods start),
        simp h refl,
        finish_sample-IsFirst fs pods sample (sample_pods fs now pods start)
            (rollup_invalid fs now (empty_sample now online) refl) fresh.unrated
            (uids-sample_pods fs now pods start),
      )
