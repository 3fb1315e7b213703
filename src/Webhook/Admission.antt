-- ===== src/Webhook/Admission.antt =====
-- What `Handle` answers: which level an admitted pod has, and what is denied.
use kqos.Prelude.{
  ◌≡◌, ◌∙◌, refl, sym, Bool, true, false, not, Option, none, some, String, if◌then◌else◌,
  Option-cases, inl, inr, not_both,
}
use kqos.Api.{
  QosLevel, shared_cores, system_cores, is_valid, level_eq, to_level, annotation_qos_level,
}
use kqos.Kubernetes.{QuantityApi, Pod, QosClass, guaranteed, unset, burstable, best_effort, lookup}
use kqos.Qos.{level_of, annotated_or, inferred_level, level_of_class, native_qos, is_critical}
use kqos.Webhook.{WebhookConfig, explicit_level, chosen_level}

if_valid :
    (b : Bool) (p q : QosLevel)
    → (b ≡ true → is_valid p ≡ true)
    → is_valid q ≡ true
    → is_valid (if b then p else q) ≡ true
if_valid true p q h g = h refl
if_valid false p q h g = g

level_of_class-valid : (c : QosClass) → is_valid (level_of_class c) ≡ true
unfolding is_valid
level_of_class-valid unset = refl
level_of_class-valid guaranteed = refl
level_of_class-valid burstable = refl
level_of_class-valid best_effort = refl

annotated_or-valid :
    (o : Option String) (q : QosLevel) → is_valid q ≡ true → is_valid (annotated_or o q) ≡ true
annotated_or-valid none q h = h
annotated_or-valid (some v) q h = if_valid (is_valid (to_level v)) (to_level v) q (λ e. e) h

system-valid : is_valid system_cores ≡ true
unfolding is_valid
system-valid = refl

shared-valid : is_valid shared_cores ≡ true
unfolding is_valid
shared-valid = refl

module _ {Quantity : Type 0} ⦃api : QuantityApi Quantity⦄ where
  level_of-valid : (pod : Pod Quantity) → is_valid (level_of pod) ≡ true
  unfolding level_of inferred_level
  level_of-valid pod =
      annotated_or-valid (lookup annotation_qos_level pod.annotations) (inferred_level pod) (
        if_valid (is_critical pod) system_cores (level_of_class (native_qos pod))
          (λ e. system-valid) (level_of_class-valid (native_qos pod)))

  explicit-valid :
      (pod : Pod Quantity) → (explicit_level pod).1 ≡ true → is_valid (explicit_level pod).0 ≡ true
  unfolding explicit_level
  explicit-valid pod h = elim (Option-cases (lookup annotation_qos_level pod.annotations)) [
    | inl e ↦ not_both _ h (rw e refl)
    | inr e ↦ rw (e.1) (sym (rw (e.1) refl) ∙ h)
  ]

  pub chosen_level-valid :
      (cfg : WebhookConfig) (pod : Pod Quantity) → is_valid (chosen_level cfg pod) ≡ true
  unfolding chosen_level
  chosen_level-valid cfg pod =
      if_valid (explicit_level pod).1 (explicit_level pod).0 _ (explicit-valid pod) (
        if_valid (not (level_eq (level_of pod) shared_cores)) (level_of pod) _
          (λ e. level_of-valid pod)
          (if_valid (is_valid cfg.default_qos_level) cfg.default_qos_level shared_cores (λ e. e)
            shared-valid))
