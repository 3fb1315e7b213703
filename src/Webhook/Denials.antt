-- ===== src/Webhook/Denials.antt =====
-- For what `Handle` denies a pod.
use kqos.Prelude.{
  ◌≡◌, ◌∙◌, refl, sym, ap, Bool, true, false, not, ◌&&◌, List, [], ◌∷◌, Option, none, some, String,
  if◌then◌else◌, Bool-cases, inl, inr, AnyOf, arith,
}
use mathlib.Core.Path.{subst}
use kqos.Prelude.Int.{ℤ, pos, ltb_ℤ, ◌<ℤ◌, eqb_ℤ, ◌%ℤ◌}
use kqos.Api.{
  QosLevel, reclaimed_cores, dedicated_cores, is_valid, level_eq, annotation_numa_binding,
}
use kqos.Kubernetes.{QuantityApi, Container, Pod, lookup, resource_cpu, resource_memory}
use kqos.Qos.{annotation_is}
use kqos.Webhook.{
  WebhookConfig, Response, allowed, denied, patched, config, is_exempt, chosen_level, answer_of,
  handle,
}
use kqos.Webhook.Admission.{chosen_level-valid}
use kqos.Webhook.Rewriting.{asks}
use kqos.Webhook.Validation.{
  ValidationError, not_a_level, no_cpu_request, fractional_cpu, zero_memory_limit,
  positive_priority, numa_without_dedicated, first_error, check_cores, check_dedicated, check_limit,
  check_reclaimed, check_priority, dedicated_fault, reclaimed_fault, numa_fault, validate,
}

-- A property of the fault, if there is one.
abbrev pub FaultHas : (ValidationError → Type 0) → Option ValidationError → Type 0
FaultHas P none = Unit
FaultHas P (some e) = P e

abbrev pub DenialHas : {Quantity : Type 0} → (ValidationError → Type 0) → Response Quantity → Type 0
DenialHas P (allowed why) = Unit
DenialHas P (denied e) = P e
DenialHas P (patched pod) = Unit

first_error_has :
    (P : ValidationError → Type 0) (a b : Option ValidationError)
    → FaultHas P a
    → FaultHas P b
    → FaultHas P (first_error a b)
first_error_has P none b h g = g
first_error_has P (some e) b h g = h

-- A fault that is looked for under a condition only.
fault_under :
    (P : ValidationError → Type 0) (b : Bool) (fault : Option ValidationError)
    → (b ≡ true → FaultHas P fault)
    → FaultHas P (if b then fault else none)
fault_under P true fault h = h refl
fault_under P false fault h = tt

not_right : (a b : Bool) → (a && not b) ≡ true → b ≡ false
not_right a b h = ground arith

first_holds : (a b : Bool) → (a && b) ≡ true → a ≡ true
first_holds a b h = ground arith

denial_under :
    {Quantity : Type 0} (P : ValidationError → Type 0) (b : Bool) (why : String)
    (r : Response Quantity)
    → DenialHas P r
    → DenialHas P (if b then allowed why else r)
denial_under P true why r h = tt
denial_under P false why r h = h

denial_of_fault :
    {Quantity : Type 0} ⦃api : QuantityApi Quantity⦄ (P : ValidationError → Type 0)
    (fault : Option ValidationError) (marshals : Bool) (pod : Pod Quantity)
    → FaultHas P fault
    → DenialHas P (answer_of fault marshals pod)
denial_of_fault P (some e) marshals pod h = h
denial_of_fault P none true pod h = tt
denial_of_fault P none false pod h = tt

module _ {Quantity : Type 0} ⦃api : QuantityApi Quantity⦄ where
  open api use {milli_value, is_zero}

  -- The request is there, is above 0 and is not of whole cores.
  abbrev pub IsFractional : Option Quantity → Type 0
  IsFractional none = ⊥
  IsFractional (some q) = (is_zero q ≡ false) × (eqb_ℤ (milli_value q %ℤ pos 1000) (pos 0) ≡ false)

  abbrev pub IsZeroLimit : Option Quantity → Type 0
  IsZeroLimit none = ⊥
  IsZeroLimit (some q) = is_zero q ≡ true

  -- A fault of the containers is that of one of them, at a level where it is one.
  abbrev pub Blames : QosLevel → List (Container Quantity) → ValidationError → Type 0
  Blames level cs (no_cpu_request name) =
      (level_eq level dedicated_cores ≡ true)
      × AnyOf (λ c. (c.name ≡ name) × (asks (lookup resource_cpu c.requests) ≡ false)) cs
  Blames level cs (fractional_cpu name) =
      (level_eq level dedicated_cores ≡ true)
      × AnyOf (λ c. (c.name ≡ name) × IsFractional (lookup resource_cpu c.requests)) cs
  Blames level cs (zero_memory_limit name) =
      (level_eq level reclaimed_cores ≡ true)
      × AnyOf (λ c. (c.name ≡ name) × IsZeroLimit (lookup resource_memory c.limits)) cs
  Blames level cs (not_a_level q) = ⊥
  Blames level cs (positive_priority p) = ⊥
  Blames level cs (numa_without_dedicated q) = ⊥

  -- What a denial says is so of the pod at its level.
  abbrev pub Explains : Pod Quantity → QosLevel → ValidationError → Type 0
  Explains pod level (positive_priority p) =
      (level_eq level reclaimed_cores ≡ true) × (pod.priority ≡ some p) × (pos 0 <ℤ p)
  Explains pod level (numa_without_dedicated q) =
      (q ≡ level)
      × (level_eq level dedicated_cores ≡ false)
      × (annotation_is annotation_numa_binding "true" pod ≡ true)
  Explains pod level (not_a_level q) = ⊥
  Explains pod level (no_cpu_request name) = Blames level pod.containers (no_cpu_request name)
  Explains pod level (fractional_cpu name) = Blames level pod.containers (fractional_cpu name)
  Explains pod level (zero_memory_limit name) = Blames level pod.containers (zero_memory_limit name)

  Blames-cons :
      (level : QosLevel) (c : Container Quantity) (cs : List (Container Quantity))
      (o : Option ValidationError)
      → FaultHas (Blames level cs) o
      → FaultHas (Blames level (c ∷ cs)) o
  Blames-cons level c cs none h = tt
  Blames-cons level c cs (some (not_a_level q)) h = h
  Blames-cons level c cs (some (no_cpu_request name)) h = (h.0, inr h.1)
  Blames-cons level c cs (some (fractional_cpu name)) h = (h.0, inr h.1)
  Blames-cons level c cs (some (zero_memory_limit name)) h = (h.0, inr h.1)
  Blames-cons level c cs (some (positive_priority p)) h = h
  Blames-cons level c cs (some (numa_without_dedicated q)) h = h

  check_cores-Blames :
      (level : QosLevel) (c : Container Quantity) (cs : List (Container Quantity))
      (o : Option Quantity)
      → level_eq level dedicated_cores ≡ true
      → lookup resource_cpu c.requests ≡ o
      → FaultHas (Blames level (c ∷ cs)) (check_cores c.name o)
  check_cores-Blames level c cs none d h = (d, inl (refl, ap asks h))
  check_cores-Blames level c cs (some q) d h = elim (Bool-cases (is_zero q)) [
    | inl z ↦ simp z (d, inl (refl, ap asks h ∙ simp z refl))
    | inr z ↦ elim (Bool-cases (eqb_ℤ (milli_value q %ℤ pos 1000) (pos 0))) [
      | inl w ↦ simp (z, w) tt
      | inr w ↦ simp (z, w) (d, inl (refl, subst IsFractional (sym h) (z, w)))
    ]
  ]

  check_limit-Blames :
      (level : QosLevel) (c : Container Quantity) (cs : List (Container Quantity))
      (o : Option Quantity)
      → level_eq level reclaimed_cores ≡ true
      → lookup resource_memory c.limits ≡ o
      → FaultHas (Blames level (c ∷ cs)) (check_limit c.name o)
  check_limit-Blames level c cs none d h = tt
  check_limit-Blames level c cs (some q) d h = elim (Bool-cases (is_zero q)) [
    | inl z ↦ simp z (d, inl (refl, subst IsZeroLimit (sym h) z))
    | inr z ↦ simp z tt
  ]

  check_dedicated-Blames :
      (level : QosLevel) (cs : List (Container Quantity))
      → level_eq level dedicated_cores ≡ true
      → FaultHas (Blames level cs) (check_dedicated cs)
  unfolding check_dedicated
  check_dedicated-Blames level [] d = tt
  check_dedicated-Blames level (c ∷ cs) d =
      first_error_has (Blames level (c ∷ cs)) (check_cores c.name (lookup resource_cpu c.requests))
        (check_dedicated cs) (check_cores-Blames level c cs (lookup resource_cpu c.requests) d refl)
        (Blames-cons level c cs (check_dedicated cs) (check_dedicated-Blames level cs d))

  check_reclaimed-Blames :
      (level : QosLevel) (cs : List (Container Quantity))
      → level_eq level reclaimed_cores ≡ true
      → FaultHas (Blames level cs) (check_reclaimed cs)
  unfolding check_reclaimed
  check_reclaimed-Blames level [] d = tt
  check_reclaimed-Blames level (c ∷ cs) d =
      first_error_has (Blames level (c ∷ cs)) (check_limit c.name (lookup resource_memory c.limits))
        (check_reclaimed cs)
        (check_limit-Blames level c cs (lookup resource_memory c.limits) d refl)
        (Blames-cons level c cs (check_reclaimed cs) (check_reclaimed-Blames level cs d))

  Blames-Explains :
      (pod : Pod Quantity) (level : QosLevel) (o : Option ValidationError)
      → FaultHas (Blames level pod.containers) o
      → FaultHas (Explains pod level) o
  Blames-Explains pod level none h = tt
  Blames-Explains pod level (some (not_a_level q)) h = h
  Blames-Explains pod level (some (no_cpu_request name)) h = h
  Blames-Explains pod level (some (fractional_cpu name)) h = h
  Blames-Explains pod level (some (zero_memory_limit name)) h = h
  Blames-Explains pod level (some (positive_priority p)) h = absurd h
  Blames-Explains pod level (some (numa_without_dedicated q)) h = absurd h

  check_priority-Explains :
      (pod : Pod Quantity) (level : QosLevel) (o : Option ℤ)
      → level_eq level reclaimed_cores ≡ true
      → pod.priority ≡ o
      → FaultHas (Explains pod level) (check_priority o)
  check_priority-Explains pod level none d h = tt
  check_priority-Explains pod level (some p) d h = elim (Bool-cases (ltb_ℤ (pos 0) p)) [
    | inl e ↦ rw e (d, h, ground arith)
    | inr e ↦ rw e tt
  ]

  validate-Explains :
      (pod : Pod Quantity) (level : QosLevel)
      → is_valid level ≡ true
      → FaultHas (Explains pod level) (validate pod level)
  unfolding validate
  validate-Explains pod level v =
      let explains = Explains pod level in
      let dedicated : FaultHas explains (dedicated_fault level pod.containers) =
        fault_under explains (level_eq level dedicated_cores) _
          (λ d. Blames-Explains pod level _ (check_dedicated-Blames level pod.containers d)) in
      let reclaimed : FaultHas explains (reclaimed_fault level pod.containers pod.priority) =
        fault_under explains (level_eq level reclaimed_cores) _ (λ d.
          first_error_has explains _ _
            (Blames-Explains pod level _ (check_reclaimed-Blames level pod.containers d))
            (check_priority-Explains pod level pod.priority d refl)) in
      let bound : FaultHas explains
          (numa_fault level (annotation_is annotation_numa_binding "true" pod)) =
        fault_under explains
          (annotation_is annotation_numa_binding "true" pod && not (level_eq level dedicated_cores))
          _ (λ d. (refl, not_right _ _ d, first_holds _ _ d)) in
      rw v (first_error_has explains _ _ dedicated (first_error_has explains _ _ reclaimed bound))

  -- A denial holds a reason that is so: of a dedicated pod a container without CPUs or with a
  -- fraction of one, of a reclaimed pod a memory limit of 0 or a positive priority, of another pod
  -- that is not dedicated the wish for a NUMA zone. It is never that the level is not known.
  pub handle-Explains :
      (marshal : List (String × Container Quantity) → Option String) (marshals : Bool)
      (policy : Option WebhookConfig) (namespace : String) (pod : Pod Quantity)
      → DenialHas
          (Explains pod (chosen_level (config policy) pod))
          (handle marshal marshals policy namespace (some pod))
  unfolding handle
  handle-Explains marshal marshals policy namespace pod =
      let q = chosen_level (config policy) pod in
      denial_under (Explains pod q) (is_exempt (config policy).exempt_namespaces namespace) _ _ (
        denial_of_fault (Explains pod q) (validate pod q) marshals _
          (validate-Explains pod q (chosen_level-valid (config policy) pod)))
