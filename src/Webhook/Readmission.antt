-- ===== src/Webhook/Readmission.antt =====
-- A pod that `Handle` has patched: what level it has, and that it is patched to itself.
use kqos.Prelude.{
  ◌≡◌, ◌∙◌, refl, sym, ap, Bool, true, false, ◌&&◌, List, [], Option, none, some, String, str_eq,
  if◌then◌else◌, Bool-cases, ◌⊎◌, inl, inr, arith,
}
use mathlib.Core.Path.{subst}
use kqos.Prelude.Int.{ℤ}
use kqos.Api.{
  QosLevel, reclaimed_cores, is_valid, level_eq, level_text, annotation_qos_level,
  annotation_numa_binding, annotation_original_resources,
}
use kqos.Api.Levels.{to_level-level_text, level_eq_same}
use kqos.Kubernetes.{QuantityApi, Container, Pod, lookup, put_key}
use kqos.Kubernetes.Maps.{lookup-put_key}
use kqos.Qos.{annotation_is}
use kqos.Webhook.{WebhookConfig, explicit_level, chosen_level, mutate}
use kqos.Webhook.Rewriting.{annotate, rewrite_reclaimed, rewrite_all, snapshot, any_rewritten}
use kqos.Webhook.Rewriting.Limits.{check_reclaimed-rewrite_all}
use kqos.Webhook.Validation.{
  first_error, first_error-none, first_error_both, check_reclaimed, check_priority, dedicated_fault,
  reclaimed_fault, numa_fault, validate,
}

lookup-annotate :
    (j k : String) (text : Option String) (m : List (String × String))
    → str_eq k j ≡ false
    → lookup j (annotate k text m) ≡ lookup j m
lookup-annotate j k none m h = refl
lookup-annotate j k (some v) m h = lookup-put_key j k v m ∙ rw h refl

left_holds : (a b : Bool) → (a && b) ≡ true → a ≡ true
left_holds a b h = ground arith

module _ {Quantity : Type 0} ⦃api : QuantityApi Quantity⦄ where
  -- A pod has no fault at a known level exactly where it has none of the three kinds.
  validate_parts :
      (pod : Pod Quantity) (q : QosLevel)
      → is_valid q ≡ true
      → validate pod q ≡ none
      → (dedicated_fault q pod.containers ≡ none)
        × (reclaimed_fault q pod.containers pod.priority ≡ none)
        × (numa_fault q (annotation_is annotation_numa_binding "true" pod) ≡ none)
  unfolding validate
  validate_parts pod q v h =
      let rest =
        first_error (reclaimed_fault q pod.containers pod.priority)
          (numa_fault q (annotation_is annotation_numa_binding "true" pod)) in
      let whole : validate pod q ≡ first_error (dedicated_fault q pod.containers) rest =
        rw v refl in
      let one = first_error-none (dedicated_fault q pod.containers) rest (sym whole ∙ h) in
      let two = first_error-none (reclaimed_fault q pod.containers pod.priority) _ one.1 in
      (one.0, two.0, two.1)

  validate_from_parts :
      (pod : Pod Quantity) (q : QosLevel)
      → is_valid q ≡ true
      → dedicated_fault q pod.containers ≡ none
      → reclaimed_fault q pod.containers pod.priority ≡ none
      → numa_fault q (annotation_is annotation_numa_binding "true" pod) ≡ none
      → validate pod q ≡ none
  unfolding validate
  validate_from_parts pod q v a b c = rw v (first_error_both _ _ a (first_error_both _ _ b c))

  -- Rewriting leaves a reclaimed pod without the faults of its kind.
  reclaimed_fault-rewrite_all :
      (cs : List (Container Quantity)) (p : Option ℤ)
      → reclaimed_fault reclaimed_cores cs p ≡ none
      → reclaimed_fault reclaimed_cores (rewrite_all cs) p ≡ none
  reclaimed_fault-rewrite_all cs p h =
      let parts = first_error-none (check_reclaimed cs) (check_priority p) h in
      first_error_both _ _ (check_reclaimed-rewrite_all cs parts.0) parts.1

  -- Of the annotations the mutation writes the level and the original resources.
  lookup-mutate :
      (marshal : List (String × Container Quantity) → Option String) (cfg : WebhookConfig)
      (pod : Pod Quantity) (q : QosLevel) (j : String)
      → str_eq annotation_original_resources j ≡ false
      → lookup j (mutate marshal cfg pod q).annotations
        ≡ (if str_eq annotation_qos_level j then some (level_text q) else lookup j pod.annotations)
  unfolding mutate rewrite_reclaimed
  lookup-mutate marshal cfg pod q j h =
      let written = lookup-put_key j annotation_qos_level (level_text q) pod.annotations in
      let text =
        if any_rewritten pod.containers then marshal (snapshot pod.containers []) else none in
      let noted =
        lookup-annotate j annotation_original_resources text
          (put_key annotation_qos_level (level_text q) pod.annotations) h in
      elim (Bool-cases (level_eq q reclaimed_cores && cfg.rewrite_reclaimed_resources)) [
        | inl e ↦ simp e (noted ∙ written)
        | inr e ↦ simp e written
      ]

  pub mutate_level :
      (marshal : List (String × Container Quantity) → Option String) (cfg : WebhookConfig)
      (pod : Pod Quantity) (q : QosLevel)
      → lookup annotation_qos_level (mutate marshal cfg pod q).annotations ≡ some (level_text q)
  mutate_level marshal cfg pod q = lookup-mutate marshal cfg pod q annotation_qos_level refl

  -- A pod that carries its level has it chosen, by whatever policy.
  pub chosen_again :
      (cfg : WebhookConfig) (pod : Pod Quantity) (q : QosLevel)
      → is_valid q ≡ true
      → lookup annotation_qos_level pod.annotations ≡ some (level_text q)
      → chosen_level cfg pod ≡ q
  unfolding chosen_level explicit_level
  chosen_again cfg pod q v h = simp (h, to_level-level_text q v, v) refl

  mutate_numa :
      (marshal : List (String × Container Quantity) → Option String) (cfg : WebhookConfig)
      (pod : Pod Quantity) (q : QosLevel)
      → annotation_is annotation_numa_binding "true" (mutate marshal cfg pod q)
        ≡ annotation_is annotation_numa_binding "true" pod
  mutate_numa marshal cfg pod q =
      ap (λ o. elim o [ none ↦ false | some w ↦ str_eq w "true" ])
        (lookup-mutate marshal cfg pod q annotation_numa_binding refl)

  mutate_priority :
      (marshal : List (String × Container Quantity) → Option String) (cfg : WebhookConfig)
      (pod : Pod Quantity) (q : QosLevel)
      → (mutate marshal cfg pod q).priority ≡ pod.priority
  unfolding mutate rewrite_reclaimed
  mutate_priority marshal cfg pod q =
      elim (Bool-cases (level_eq q reclaimed_cores && cfg.rewrite_reclaimed_resources)) [
        | inl e ↦ simp e refl
        | inr e ↦ simp e refl
      ]

  -- The containers stay, or the pod is reclaimed and they are rewritten.
  mutate_cases :
      (marshal : List (String × Container Quantity) → Option String) (cfg : WebhookConfig)
      (pod : Pod Quantity) (q : QosLevel)
      → ((mutate marshal cfg pod q).containers ≡ pod.containers)
        ⊎ ((level_eq q reclaimed_cores ≡ true)
            × ((mutate marshal cfg pod q).containers ≡ rewrite_all pod.containers))
  unfolding mutate rewrite_reclaimed
  mutate_cases marshal cfg pod q =
      elim (Bool-cases (level_eq q reclaimed_cores && cfg.rewrite_reclaimed_resources)) [
        | inl e ↦ inr (left_holds (level_eq q reclaimed_cores) _ e, simp e refl)
        | inr e ↦ inl (simp e refl)
      ]

  pub mutate_faultless :
      (marshal : List (String × Container Quantity) → Option String) (cfg : WebhookConfig)
      (pod : Pod Quantity) (q : QosLevel)
      → is_valid q ≡ true
      → validate pod q ≡ none
      → validate (mutate marshal cfg pod q) q ≡ none
  mutate_faultless marshal cfg pod q v h =
      let parts = validate_parts pod q v h in
      let numa : numa_fault q
            (annotation_is annotation_numa_binding "true" (mutate marshal cfg pod q))
          ≡ none =
        ap (numa_fault q) (mutate_numa marshal cfg pod q) ∙ parts.2 in
      let priority = mutate_priority marshal cfg pod q in
      elim (mutate_cases marshal cfg pod q) [
        | inl e ↦
            validate_from_parts (mutate marshal cfg pod q) q v (ap (dedicated_fault q) e ∙ parts.0)
              (rw (e, priority) parts.1) numa
        | inr e ↦
            let is = level_eq_same q reclaimed_cores e.0 in
            validate_from_parts (mutate marshal cfg pod q) q v (rw is refl)
              (rw (e.1, priority, is)
                (reclaimed_fault-rewrite_all pod.containers pod.priority
                  (subst (λ l. reclaimed_fault l pod.containers pod.priority ≡ none) is parts.1)))
              numa
      ]
