-- ===== src/Usage/Store/Latest.antt =====
-- The requests that were reported last are read back.
use kqos.Prelude.{
  ℕ, zero, suc, ◌-◌, ◌≤◌, ◌<◌, ◌≡◌, ◌∙◌, refl, ap, true, false, List, [], ◌∷◌, ◌++◌, Option, some,
  str_eq, length, length-append, drop, ltb, Bool-cases, inl, inr, arith,
}
use kqos.Prelude.Int.{ℤ, pos}
use kqos.Floats.{FloatApi, max_exact}
use kqos.Kubernetes.{lookup, put_key}
use kqos.Kubernetes.Maps.{lookup-put_key, str_eq_self}
use kqos.Usage.{PodUsage, Report, key_text}
use kqos.Usage.Store.{
  OwnerResolver, Store, newest, last_of, sample_of, workload_key, append_sample, ingest_pod,
  ingest_pods, ingest, or_else, workload_requests, series_or_new,
}
use kqos.Usage.Store.Reachable.{Reachable, Reachable-IsWf, ingest_pods-max}

last_of-append : {A : Type 0} (xs : List A) (x : A) → last_of (xs ++ x ∷ []) ≡ some x
last_of-append [] x = refl
last_of-append (y ∷ []) x = refl
last_of-append (y ∷ z ∷ zs) x = last_of-append (z ∷ zs) x

last_of-drop :
    {A : Type 0} (n : ℕ) (xs : List A) (x : A)
    → n ≤ length xs
    → last_of (drop n (xs ++ x ∷ [])) ≡ some x
last_of-drop zero xs x h = last_of-append xs x
last_of-drop (suc n) [] x h = absurd (ground arith)
last_of-drop (suc n) (y ∷ ys) x h = last_of-drop n ys x (omega arith)

last_of-newest :
    {A : Type 0} (max : ℕ) (xs : List A) (x : A)
    → 0 < max
    → last_of (newest max (xs ++ x ∷ [])) ≡ some x
last_of-newest max xs x h = elim (Bool-cases (ltb max (length (xs ++ x ∷ [])))) [
  | inl e ↦
      rw e
        (last_of-drop (length (xs ++ x ∷ []) - max) xs x (omega (arith, length-append xs (x ∷ []))))
  | inr e ↦ rw e (last_of-append xs x)
]

abbrev pair_of : ℤ → ℤ → Option (ℤ × ℤ)
pair_of a b = some (a, b)

requests_eq : {a b c d : ℤ} → a ≡ c → b ≡ d → pair_of a b ≡ pair_of c d
requests_eq h g = rw (h, g) refl

module _ {Float : Type 0} ⦃f : FloatApi Float⦄ where
  open f use {of_int, to_int}

  ingest_pods-append :
      (resolve : OwnerResolver) (at now : ℤ) (ps : List (PodUsage Float)) (p : PodUsage Float)
      (s : Store Float)
      → (ingest_pods resolve at now (ps ++ p ∷ []) s).0
        ≡ ingest_pod resolve at now p (ingest_pods resolve at now ps s).0
  unfolding ingest_pods
  ingest_pods-append resolve at now [] p s = refl
  ingest_pods-append resolve at now (q ∷ ps) p s =
      ingest_pods-append resolve at now ps p (ingest_pod resolve at now q s)

  -- Every pod has a workload.
  pub workload_key_found :
      (resolve : OwnerResolver) (p : PodUsage Float) → (workload_key resolve p).1 ≡ true
  unfolding workload_key
  workload_key_found resolve p = elim (Bool-cases (str_eq p.owner_kind "")) [
    | inl e ↦ simp e refl
    | inr e ↦ simp e refl
  ]

  requests-ingest_pod :
      (resolve : OwnerResolver) (at now : ℤ) (p : PodUsage Float) (s : Store Float)
      → 0 < s.max_per_key
      → workload_requests (ingest_pod resolve at now p s) (workload_key resolve p).0
        ≡ some (to_int (of_int p.request_cpu_milli), to_int (of_int p.request_memory_bytes))
  unfolding workload_requests ingest_pod append_sample
  requests-ingest_pod resolve at now p s h =
      let key = (workload_key resolve p).0 in
      let old = series_or_new key now (lookup (key_text key) s.series) in
      let new = append_sample s.max_per_key at now p old in
      simp
        (
          workload_key_found resolve p,
          lookup-put_key (key_text key) (key_text key) new s.series,
          str_eq_self (key_text key),
          last_of-newest s.max_per_key old.samples (sample_of at p) h,
        )
        refl

  -- The requests of the last pod of a report are what the store then answers for its workload.
  pub workload_requests-ingest :
      (resolve : OwnerResolver) (s : Store Float) (r : Report Float) (now : ℤ)
      (ps : List (PodUsage Float)) (p : PodUsage Float) (milli bytes : ℕ)
      → Reachable resolve s
      → r.degraded ≡ false
      → r.pods ≡ ps ++ p ∷ []
      → p.request_cpu_milli ≡ pos milli
      → milli ≤ max_exact
      → p.request_memory_bytes ≡ pos bytes
      → bytes ≤ max_exact
      → workload_requests (ingest resolve r now s).0 (workload_key resolve p).0
        ≡ some (pos milli, pos bytes)
  unfolding ingest
  workload_requests-ingest resolve s r now ps p milli bytes reach d e cpu cpu_fits mem mem_fits =
      let at = or_else r.timestamp now in
      let seen = record s { node_seen = put_key r.node now s.node_seen } in
      let before = (ingest_pods resolve at now ps seen).0 in
      let room : 0 < before.max_per_key =
        omega (arith, ingest_pods-max resolve at now ps seen, (Reachable-IsWf reach).max) in
      let key = (workload_key resolve p).0 in
      let taken : (ingest resolve r now s).0 ≡ ingest_pod resolve at now p before =
        simp (d, e) (ingest_pods-append resolve at now ps p seen) in
      let read = requests-ingest_pod resolve at now p before room in
      let cpu_exact : to_int (of_int p.request_cpu_milli) ≡ pos milli =
        ap (λ x. to_int (of_int x)) cpu ∙ f.to_int_of_int milli cpu_fits in
      let mem_exact : to_int (of_int p.request_memory_bytes) ≡ pos bytes =
        ap (λ x. to_int (of_int x)) mem ∙ f.to_int_of_int bytes mem_fits in
      ap (λ t. workload_requests t key) taken ∙ read ∙ requests_eq cpu_exact mem_exact
