-- ===== src/CpuPool/Applying/Repeated.antt =====
-- A pass that follows another over the same pods tries no write.
use kqos.Prelude.{
  Bool, ℕ, ◌≡◌, ◌∙◌, refl, sym, ap, true, false, not, List, [], ◌∷◌, Option, none, some, String,
  str_eq, eq_iff, select, map, mem_text, AllOf, AllOf-map, select-AllOf, Bool-cases, inl, inr,
  not_both, arith,
}
use mathlib.Core.Path.{subst}
use kqos.Strings.{Text}
use kqos.Kubernetes.{QuantityApi, Pod, lookup, delete_key}
use kqos.Kubernetes.Maps.{lookup-delete_key, str_eq_self}
use kqos.Qos.{level_of}
use kqos.CpuPool.{weight_for}
use kqos.CpuPool.Applying.{
  Manager, Write, Cgroups, Applied, needs_weight, needs_cpus, apply_weight, apply_at, apply_pod,
  apply_pods, forget, delete_all, wanted_cpus, apply_layout,
}
use kqos.CpuPool.Applying.Steady.{
  IsQuiet, apply_at_quiet, weight-IsQuiet, cpus-IsQuiet, weights-apply_cpus, lookup-apply_weight,
  lookup-apply_cpus,
}
use kqos.CpuPool.Layout.{Pool, Config, compute_pools}

-- Of a pod that has a cgroup nothing is left to write.
abbrev IsQuietAt :
    Option String → String → ℕ → Option Text → List (String × ℕ) → List (String × Text) → Type 0
IsQuietAt none uid weight want weights cpu_sets = Unit
IsQuietAt (some path) uid weight want weights cpu_sets = IsQuiet uid weight want weights cpu_sets

IsQuietAt-same :
    (path : Option String) (uid : String) (weight : ℕ) (want : Option Text)
    (weights weights' : List (String × ℕ)) (cpu_sets cpu_sets' : List (String × Text))
    → lookup uid weights' ≡ lookup uid weights
    → lookup uid cpu_sets' ≡ lookup uid cpu_sets
    → IsQuietAt path uid weight want weights cpu_sets
    → IsQuietAt path uid weight want weights' cpu_sets'
IsQuietAt-same none uid weight want weights weights' cpu_sets cpu_sets' h g q = tt
IsQuietAt-same (some path) uid weight want weights weights' cpu_sets cpu_sets' h g q =
    (ap (λ o. needs_weight o weight) h ∙ q.0, ap (λ o. needs_cpus o want) g ∙ q.1)

apply_at-IsQuietAt :
    (fs : Cgroups) (uid : String) (weight : ℕ) (want : Option Text) (path : Option String)
    (a : Applied)
    → ((w : Write) → fs.succeeds w ≡ true)
    → IsQuietAt path uid weight want
        (apply_at fs uid weight want path a).weights
        (apply_at fs uid weight want path a).cpu_sets
apply_at-IsQuietAt fs uid weight want none a s = tt
apply_at-IsQuietAt fs uid weight want (some path) a s =
    let first = apply_weight fs uid path weight a in
    (
      ap (λ m. needs_weight (lookup uid m) weight) (weights-apply_cpus fs uid path want first)
          ∙ weight-IsQuiet fs uid path weight a s,
      cpus-IsQuiet fs uid path want first s,
    )

apply_at_settled :
    (fs : Cgroups) (uid : String) (weight : ℕ) (want : Option Text) (path : Option String)
    (a : Applied)
    → IsQuietAt path uid weight want a.weights a.cpu_sets
    → apply_at fs uid weight want path a ≡ a
apply_at_settled fs uid weight want none a q = refl
apply_at_settled fs uid weight want (some path) a q =
    apply_at_quiet fs uid weight want (some path) a q

-- The step for another pod.
lookup-apply_at :
    (fs : Cgroups) (uid : String) (weight : ℕ) (want : Option Text) (path : Option String)
    (a : Applied) (k : String)
    → str_eq uid k ≡ false
    → (lookup k (apply_at fs uid weight want path a).weights ≡ lookup k a.weights)
      × (lookup k (apply_at fs uid weight want path a).cpu_sets ≡ lookup k a.cpu_sets)
lookup-apply_at fs uid weight want none a k d = (refl, refl)
lookup-apply_at fs uid weight want (some path) a k d =
    let first = apply_weight fs uid path weight a in
    let kept = lookup-apply_weight fs uid path weight a k d in
    (
      ap (λ m. lookup k m) (weights-apply_cpus fs uid path want first) ∙ kept.0,
      lookup-apply_cpus fs uid path want first k d ∙ ap (λ m. lookup k m) kept.1,
    )

lookup-delete_all :
    {V : Type 0} (k : String) (gone : List String) (m : List (String × V))
    → AllOf (λ g. str_eq g k ≡ false) gone
    → lookup k (delete_all gone m) ≡ lookup k m
lookup-delete_all k [] m h = refl
lookup-delete_all k (g ∷ gone) m h =
    lookup-delete_all k gone (delete_key g m) h.1 ∙ lookup-delete_key k g m ∙ rw (h.0) refl

AllOf-keys :
    {V : Type 0} (P : String → Type 0) (m : List (String × V))
    → AllOf (λ e. P e.0) m
    → AllOf P (map (λ e. e.0) m)
AllOf-keys P [] h = tt
AllOf-keys P (e ∷ m) h = (h.0, AllOf-keys P m h.1)

-- A key that is not among the living is none of them.
apart_from_living :
    (g k : String) (alive : List String)
    → mem_text k alive ≡ true
    → not (mem_text g alive) ≡ true
    → str_eq g k ≡ false
apart_from_living g k alive h d = elim (Bool-cases (str_eq g k)) [
  | inr e ↦ e
  | inl e ↦
      let there : mem_text g alive ≡ true =
        subst (λ x. mem_text x alive ≡ true) (sym ((eq_iff g k).0 e)) h in
      not_both (not (mem_text g alive)) d (rw there refl)
]

lookup-forget :
    (k : String) (alive : List String) (a : Applied)
    → mem_text k alive ≡ true
    → (lookup k (forget alive a).weights ≡ lookup k a.weights)
      × (lookup k (forget alive a).cpu_sets ≡ lookup k a.cpu_sets)
unfolding forget
lookup-forget k alive a h =
    let dead = select (λ e. not (mem_text e.0 alive)) a.weights in
    let apart =
      AllOf-keys (λ g. str_eq g k ≡ false) dead
        (AllOf-map (λ e. not (mem_text e.0 alive) ≡ true) (λ e. str_eq e.0 k ≡ false) dead
          (λ e. apart_from_living e.0 k alive h)
          (select-AllOf (λ e. not (mem_text e.0 alive)) a.weights)) in
    (lookup-delete_all k _ a.weights apart, lookup-delete_all k _ a.cpu_sets apart)

module _ {Quantity : Type 0} ⦃api : QuantityApi Quantity⦄ where
  -- No two pods have one uid.
  abbrev pub HaveOwnUids : List (Pod Quantity) → Type 0
  HaveOwnUids [] = Unit
  HaveOwnUids (pod ∷ pods) = AllOf (λ q. str_eq q.uid pod.uid ≡ false) pods × HaveOwnUids pods

  abbrev IsSettled : Cgroups → Config → List Pool → Applied → Pod Quantity → Type 0
  IsSettled fs cfg pools a pod =
      IsQuietAt (fs.pod_path pod.uid) pod.uid (weight_for (level_of pod))
        (wanted_cpus cfg pools pod) a.weights a.cpu_sets

  IsSettled-same :
      (fs : Cgroups) (cfg : Config) (pools : List Pool) (pod : Pod Quantity) (a b : Applied)
      → lookup pod.uid b.weights ≡ lookup pod.uid a.weights
      → lookup pod.uid b.cpu_sets ≡ lookup pod.uid a.cpu_sets
      → IsSettled fs cfg pools a pod
      → IsSettled fs cfg pools b pod
  IsSettled-same fs cfg pools pod a b h g q =
      IsQuietAt-same (fs.pod_path pod.uid) pod.uid (weight_for (level_of pod))
        (wanted_cpus cfg pools pod) a.weights b.weights a.cpu_sets b.cpu_sets h g q

  lookup-apply_pods :
      (fs : Cgroups) (cfg : Config) (pools : List Pool) (pods : List (Pod Quantity)) (a : Applied)
      (k : String)
      → AllOf (λ q. str_eq q.uid k ≡ false) pods
      → (lookup k (apply_pods fs cfg pools pods a).weights ≡ lookup k a.weights)
        × (lookup k (apply_pods fs cfg pools pods a).cpu_sets ≡ lookup k a.cpu_sets)
  unfolding apply_pods apply_pod
  lookup-apply_pods fs cfg pools [] a k d = (refl, refl)
  lookup-apply_pods fs cfg pools (pod ∷ pods) a k d =
      let step =
        lookup-apply_at fs pod.uid (weight_for (level_of pod)) (wanted_cpus cfg pools pod)
          (fs.pod_path pod.uid) a k d.0 in
      let rest = lookup-apply_pods fs cfg pools pods (apply_pod fs cfg pools pod a) k d.1 in
      (rest.0 ∙ step.0, rest.1 ∙ step.1)

  apply_pods-IsSettled :
      (fs : Cgroups) (cfg : Config) (pools : List Pool) (pods : List (Pod Quantity)) (a : Applied)
      → ((w : Write) → fs.succeeds w ≡ true)
      → HaveOwnUids pods
      → AllOf (IsSettled fs cfg pools (apply_pods fs cfg pools pods a)) pods
  unfolding apply_pods apply_pod
  apply_pods-IsSettled fs cfg pools [] a s d = tt
  apply_pods-IsSettled fs cfg pools (pod ∷ pods) a s d =
      let step = apply_pod fs cfg pools pod a in
      let kept = lookup-apply_pods fs cfg pools pods step pod.uid d.0 in
      (
        IsSettled-same fs cfg pools pod step (apply_pods fs cfg pools pods step) kept.0 kept.1 (
            apply_at-IsQuietAt fs pod.uid (weight_for (level_of pod)) (wanted_cpus cfg pools pod)
              (fs.pod_path pod.uid) a s),
        apply_pods-IsSettled fs cfg pools pods step s d.1,
      )

  -- The pass over settled pods changes nothing.
  apply_pods_idle :
      (fs : Cgroups) (cfg : Config) (pools : List Pool) (pods : List (Pod Quantity)) (a : Applied)
      → AllOf (IsSettled fs cfg pools a) pods
      → apply_pods fs cfg pools pods a ≡ a
  unfolding apply_pods apply_pod
  apply_pods_idle fs cfg pools [] a h = refl
  apply_pods_idle fs cfg pools (pod ∷ pods) a h =
      let step : apply_pod fs cfg pools pod a ≡ a =
        apply_at_settled fs pod.uid (weight_for (level_of pod)) (wanted_cpus cfg pools pod)
          (fs.pod_path pod.uid) a h.0 in
      ap (apply_pods fs cfg pools pods) step ∙ apply_pods_idle fs cfg pools pods a h.1

  IsSettled-forget :
      (fs : Cgroups) (cfg : Config) (pools : List Pool) (alive : List String)
      (pods : List (Pod Quantity)) (a b : Applied)
      → ((k : String)
          → mem_text k alive ≡ true
          → (lookup k b.weights ≡ lookup k a.weights) × (lookup k b.cpu_sets ≡ lookup k a.cpu_sets))
      → AllOf (λ pod. mem_text pod.uid alive ≡ true) pods
      → AllOf (IsSettled fs cfg pools a) pods
      → AllOf (IsSettled fs cfg pools b) pods
  IsSettled-forget fs cfg pools alive [] a b same m h = tt
  IsSettled-forget fs cfg pools alive (pod ∷ pods) a b same m h =
      let kept = same pod.uid m.0 in
      (
        IsSettled-same fs cfg pools pod a b kept.0 kept.1 h.0,
        IsSettled-forget fs cfg pools alive pods a b same m.1 h.1,
      )

  living :
      (pods : List (Pod Quantity))
      → AllOf (λ pod. mem_text pod.uid (map (λ p. p.uid) pods) ≡ true) pods
  living [] = tt
  living (pod ∷ pods) = (
    ground (arith, str_eq_self pod.uid),
    AllOf-map (λ q. mem_text q.uid (map (λ p. p.uid) pods) ≡ true)
        (λ q. mem_text q.uid (pod.uid ∷ map (λ p. p.uid) pods) ≡ true) pods (λ q h. ground arith)
        (living pods),
  )

  -- Where the pods have uids of their own and all writes of a pass succeed, the pass that follows it
  -- over the same pods, with the same configuration and the same cgroup paths, tries no write,
  -- whichever writes would then succeed.
  pub apply_layout_twice :
      (fs : Cgroups) (later : Write → Bool) (pods : List (Pod Quantity)) (m : Manager)
      → ((w : Write) → fs.succeeds w ≡ true)
      → HaveOwnUids pods
      → (apply_layout (record fs { succeeds = later }) pods (apply_layout fs pods m).0).1 ≡ []
  unfolding apply_layout forget
  apply_layout_twice fs later pods m s d =
      let pools = compute_pools m.topology m.cfg pods in
      let alive = map (λ pod. pod.uid) pods in
      let start : Applied = record {
        weights = m.applied_weight;
        cpu_sets = m.applied_cpu_set;
        writes = [];
      } in
      let first = apply_pods fs m.cfg pools pods start in
      let again : Applied = record (forget alive first) { writes = [] } in
      let settled =
        IsSettled-forget fs m.cfg pools alive pods first again (λ k. lookup-forget k alive first)
          (living pods) (apply_pods-IsSettled fs m.cfg pools pods start s d) in
      ap (λ a. (forget alive a).writes)
        (apply_pods_idle (record fs { succeeds = later }) m.cfg pools pods again settled)
