-- ===== src/Usage/Store/Reachable.antt =====
-- The states that a store can be in, and what holds in all of them.
use kqos.Prelude.{
  ℕ, ◌-◌, ltb, ◌≤◌, ◌≡◌, ◌∙◌, refl, List, [], ◌∷◌, String, length, length-drop, length-select,
  AllOf, Bool-cases, Option-cases, inl, inr, arith,
}
use kqos.Prelude.Int.{ℤ, pos, ◌-ℤ◌, ◌<ℤ◌}
use kqos.Floats.{FloatApi}
use kqos.Kubernetes.{lookup}
use kqos.Kubernetes.Maps.{IsMap, put_key-IsMap, put_key-AllOf, lookup-AllOf}
use kqos.Usage.{PodUsage, Report, WorkloadKey, key_text}
use kqos.Usage.Store.{
  OwnerResolver, Store, Series, new_store, newest, workload_key, series_or_new, append_sample,
  ingest_pod, ingest_pods, ingest, is_gone, without_expired, gc_series, gc, or_else,
}
use kqos.Usage.Store.Expiry.{lookup-gc_series}

length-newest : {A : Type 0} (max : ℕ) (xs : List A) → length (newest max xs) ≤ max
length-newest max xs = elim (Bool-cases (ltb max (length xs))) [
  | inl e ↦ rw e (omega (arith, length-drop (length xs - max) xs))
  | inr e ↦ rw e (ground arith)
]

module _ {Float : Type 0} ⦃f : FloatApi Float⦄ where
  -- A store that was made and has taken reports and collected garbage in some order.
  pub data Reachable (resolve : OwnerResolver) : Store Float → Type 0 where
    created : (retention : ℤ) → Reachable resolve (new_store retention)
    ingested :
        {s : Store Float} (r : Report Float) (now : ℤ)
        → Reachable resolve s
        → Reachable resolve (ingest resolve r now s).0
    collected_at : {s : Store Float} (now : ℤ) → Reachable resolve s → Reachable resolve (gc now s)

  -- An entry is a series under the text of its key, with at most `max` samples.
  pub record IsEntry (max : ℕ) (e : String × Series Float) : Type 0 where
    pub named : key_text e.1.key ≡ e.0
    pub bounded : length e.1.samples ≤ max

  pub record IsWf (s : Store Float) : Type 0 where
    pub retention : pos 0 <ℤ s.retention
    pub max : s.max_per_key ≡ 4096
    pub once : IsMap s.series
    pub entries : AllOf (IsEntry s.max_per_key) s.series

  new_store-IsWf : (retention : ℤ) → IsWf (new_store retention)
  unfolding new_store
  new_store-IsWf retention = record {
    retention = ground arith;
    max = refl;
    once = tt;
    entries = tt;
  }

  append_sample-IsEntry :
      (max : ℕ) (at now : ℤ) (p : PodUsage Float) (key : WorkloadKey) (ser : Series Float)
      → key_text ser.key ≡ key_text key
      → IsEntry max (key_text key, append_sample max at now p ser)
  unfolding append_sample
  append_sample-IsEntry max at now p key ser h = record { named = h; bounded = length-newest max _ }

  series_or_new_named :
      (max : ℕ) (key : WorkloadKey) (now : ℤ) (m : List (String × Series Float))
      → AllOf (IsEntry max) m
      → key_text (series_or_new key now (lookup (key_text key) m)).key ≡ key_text key
  series_or_new_named max key now m h = elim (Option-cases (lookup (key_text key) m)) [
    | inl e ↦ rw e refl
    | inr e ↦ rw (e.1) (lookup-AllOf (IsEntry max) (key_text key) e.0 m h e.1).named
  ]

  ingest_pod-IsWf :
      (resolve : OwnerResolver) (at now : ℤ) (p : PodUsage Float) (s : Store Float)
      → IsWf s
      → IsWf (ingest_pod resolve at now p s)
  unfolding ingest_pod
  ingest_pod-IsWf resolve at now p s h =
      let key = (workload_key resolve p).0 in
      let ser =
        append_sample s.max_per_key at now p
          (series_or_new key now (lookup (key_text key) s.series)) in
      elim (Bool-cases (workload_key resolve p).1) [
        | inl e ↦ simp e (record {
          retention = h.retention;
          max = h.max;
          once = put_key-IsMap (key_text key) ser s.series h.once;
          entries = put_key-AllOf (IsEntry s.max_per_key) (key_text key) ser s.series h.entries (
              append_sample-IsEntry s.max_per_key at now p key _
                (series_or_new_named s.max_per_key key now s.series h.entries));
        })
        | inr e ↦ simp e h
      ]

  ingest_pods-IsWf :
      (resolve : OwnerResolver) (at now : ℤ) (ps : List (PodUsage Float)) (s : Store Float)
      → IsWf s
      → IsWf (ingest_pods resolve at now ps s).0
  unfolding ingest_pods
  ingest_pods-IsWf resolve at now [] s h = h
  ingest_pods-IsWf resolve at now (p ∷ ps) s h =
      ingest_pods-IsWf resolve at now ps _ (ingest_pod-IsWf resolve at now p s h)

  ingest-IsWf :
      (resolve : OwnerResolver) (r : Report Float) (now : ℤ) (s : Store Float)
      → IsWf s
      → IsWf (ingest resolve r now s).0
  unfolding ingest
  ingest-IsWf resolve r now s h = elim (Bool-cases r.degraded) [
    | inl e ↦ simp e h
    | inr e ↦ simp e (
        ingest_pods-IsWf resolve (or_else r.timestamp now) now r.pods _
          (record { retention = h.retention; max = h.max; once = h.once; entries = h.entries }))
  ]

  pub ingest_pods-max :
      (resolve : OwnerResolver) (at now : ℤ) (ps : List (PodUsage Float)) (s : Store Float)
      → (ingest_pods resolve at now ps s).0.max_per_key ≡ s.max_per_key
  unfolding ingest_pods ingest_pod
  ingest_pods-max resolve at now [] s = refl
  ingest_pods-max resolve at now (p ∷ ps) s =
      ingest_pods-max resolve at now ps (ingest_pod resolve at now p s)
      ∙ elim (Bool-cases (workload_key resolve p).1) [ inl e ↦ simp e refl | inr e ↦ simp e refl ]

  gc_series-entries :
      (now retention : ℤ) (max : ℕ) (m : List (String × Series Float))
      → AllOf (IsEntry max) m
      → AllOf (IsEntry max) (gc_series now retention m)
  unfolding gc_series
  gc_series-entries now retention max [] h = tt
  gc_series-entries now retention max ((k, ser) ∷ m) h =
      let kept = without_expired (now -ℤ retention) ser in
      let rest = gc_series-entries now retention max m h.1 in
      elim (Bool-cases (is_gone now retention kept)) [
        | inl e ↦ simp e rest
        | inr e ↦ simp e (
          record {
            named = h.0.named;
            bounded = omega (arith, h.0.bounded, length-select _ ser.samples);
          },
          rest,
        )
      ]

  gc_series-IsMap :
      (now retention : ℤ) (m : List (String × Series Float))
      → IsMap m
      → IsMap (gc_series now retention m)
  unfolding gc_series
  gc_series-IsMap now retention [] h = tt
  gc_series-IsMap now retention ((k, ser) ∷ m) h =
      let kept = without_expired (now -ℤ retention) ser in
      let rest = gc_series-IsMap now retention m h.1 in
      elim (Bool-cases (is_gone now retention kept)) [
        | inl e ↦ simp e rest
        | inr e ↦ simp e (lookup-gc_series now retention k m h.1 ∙ rw (h.0) refl, rest)
      ]

  gc-IsWf : (now : ℤ) (s : Store Float) → IsWf s → IsWf (gc now s)
  unfolding gc
  gc-IsWf now s h = record {
    retention = h.retention;
    max = h.max;
    once = gc_series-IsMap now s.retention s.series h.once;
    entries = gc_series-entries now s.retention s.max_per_key s.series h.entries;
  }

  -- In every state the retention is positive, a series stands once and under its own key, and holds
  -- at most 4096 samples.
  pub Reachable-IsWf : {resolve : OwnerResolver} {s : Store Float} → Reachable resolve s → IsWf s
  Reachable-IsWf (created retention) = new_store-IsWf retention
  Reachable-IsWf (ingested r now h) = ingest-IsWf _ r now _ (Reachable-IsWf h)
  Reachable-IsWf (collected_at now h) = gc-IsWf now _ (Reachable-IsWf h)
