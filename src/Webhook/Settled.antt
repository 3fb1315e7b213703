-- ===== src/Webhook/Settled.antt =====
-- What holds of every pod that `Handle` patches: its level, its requests, and that it is patched to
-- itself when it is admitted again, as Kubernetes may do.
use kqos.Prelude.{
  [], ◌≡◌, ◌∙◌, refl, sym, ap, Bool, true, false, ◌&&◌, List, Option, none, some, String,
  if◌then◌else◌, Bool-cases, inl, inr, AllOf,
}
use kqos.Api.{QosLevel, reclaimed_cores, level_eq, level_text, annotation_qos_level}
use kqos.Kubernetes.{QuantityApi, Container, Pod, lookup}
use kqos.Kubernetes.Maps.{put_key_there}
use kqos.Qos.{level_of}
use kqos.Qos.Classes.{annotated_level}
use kqos.Webhook.{
  WebhookConfig, Response, allowed, denied, patched, config, is_exempt, chosen_level, mutate,
  answer_of, handle,
}
use kqos.Webhook.Admission.{chosen_level-valid}
use kqos.Webhook.Readmission.{mutate_level, chosen_again, mutate_faultless}
use kqos.Webhook.Rewriting.{rewrite_reclaimed}
use kqos.Webhook.Rewriting.Requests.{IsStripped, rewrite_all-IsStripped, rewrite_all_idle}
use kqos.Webhook.Validation.{ValidationError, validate}

-- A property of the pod that a response puts in place, if it does.
abbrev pub PatchHas : {Quantity : Type 0} → (Pod Quantity → Type 0) → Response Quantity → Type 0
PatchHas P (patched pod) = P pod
PatchHas P (allowed why) = Unit
PatchHas P (denied e) = Unit

-- A pod is rewritten.
abbrev pub rewrites : WebhookConfig → QosLevel → Bool
rewrites cfg q = level_eq q reclaimed_cores && cfg.rewrite_reclaimed_resources

if_apart :
    {Quantity : Type 0} (P : Pod Quantity → Type 0) (b : Bool) (why : String)
    (r : Response Quantity)
    → (b ≡ false → PatchHas P r)
    → PatchHas P (if b then allowed why else r)
if_apart P true why r h = tt
if_apart P false why r h = h refl

answer_of_has :
    {Quantity : Type 0} ⦃api : QuantityApi Quantity⦄ (P : Pod Quantity → Type 0)
    (fault : Option ValidationError) (marshals : Bool) (pod : Pod Quantity)
    → (fault ≡ none → P pod)
    → PatchHas P (answer_of fault marshals pod)
answer_of_has P (some e) marshals pod h = tt
answer_of_has P none true pod h = h refl
answer_of_has P none false pod h = tt

module _ {Quantity : Type 0} ⦃api : QuantityApi Quantity⦄ where
  mutate-IsStripped :
      (marshal : List (String × Container Quantity) → Option String) (cfg : WebhookConfig)
      (pod : Pod Quantity) (q : QosLevel)
      → rewrites cfg q ≡ true
      → AllOf IsStripped (mutate marshal cfg pod q).containers
  unfolding mutate rewrite_reclaimed
  mutate-IsStripped marshal cfg pod q e = simp e (rewrite_all-IsStripped pod.containers)

  -- A pod that carries the level, and is stripped if it is to be, stays.
  mutate_idle :
      (marshal : List (String × Container Quantity) → Option String) (cfg : WebhookConfig)
      (pod : Pod Quantity) (q : QosLevel)
      → lookup annotation_qos_level pod.annotations ≡ some (level_text q)
      → (rewrites cfg q ≡ true → AllOf IsStripped pod.containers)
      → mutate marshal cfg pod q ≡ pod
  unfolding mutate rewrite_reclaimed
  mutate_idle marshal cfg pod q h strip =
      let same = put_key_there annotation_qos_level (level_text q) pod.annotations h in
      elim (Bool-cases (rewrites cfg q)) [
        | inl e ↦
            let idle = rewrite_all_idle pod.containers (strip e) in
            simp (e, idle.0, idle.1, same) refl
        | inr e ↦ simp (e, same) refl
      ]

  -- What a response puts in place is the mutated pod, and was found to have no fault.
  handle_has :
      (P : Pod Quantity → Type 0) (marshal : List (String × Container Quantity) → Option String)
      (marshals : Bool) (policy : Option WebhookConfig) (namespace : String) (pod : Pod Quantity)
      → (is_exempt (config policy).exempt_namespaces namespace ≡ false
          → validate pod (chosen_level (config policy) pod) ≡ none
          → P (mutate marshal (config policy) pod (chosen_level (config policy) pod)))
      → PatchHas P (handle marshal marshals policy namespace (some pod))
  unfolding handle
  handle_has P marshal marshals policy namespace pod h =
      if_apart P (is_exempt (config policy).exempt_namespaces namespace) _ _ (λ apart.
        answer_of_has P (validate pod (chosen_level (config policy) pod)) marshals _ (h apart))

  AllOf-if :
      (b : Bool) (cs : List (Container Quantity))
      → (b ≡ true → AllOf IsStripped cs)
      → AllOf IsStripped (if b then cs else [])
  AllOf-if true cs h = h refl
  AllOf-if false cs h = tt

  -- What holds of a pod that is put in place for another, under a policy.
  pub record IsSettled (cfg : WebhookConfig) (pod : Pod Quantity) (patch : Pod Quantity)
      : Type 0 where
    pub level : level_of patch ≡ chosen_level cfg pod
    pub faultless : validate patch (level_of patch) ≡ none
    pub stripped : AllOf IsStripped (if rewrites cfg (level_of patch) then patch.containers else [])

  -- A pod that is patched is then classified as the level that was chosen for it and has no fault at
  -- that level; if it is reclaimed and the policy says so, no container of it asks for CPU or memory.
  pub handle-IsSettled :
      (marshal : List (String × Container Quantity) → Option String) (marshals : Bool)
      (policy : Option WebhookConfig) (namespace : String) (pod : Pod Quantity)
      → PatchHas
          (IsSettled (config policy) pod)
          (handle marshal marshals policy namespace (some pod))
  handle-IsSettled marshal marshals policy namespace pod =
      let cfg = config policy in
      let q = chosen_level cfg pod in
      let v = chosen_level-valid cfg pod in
      let patch = mutate marshal cfg pod q in
      let level : level_of patch ≡ q = annotated_level patch q v (mutate_level marshal cfg pod q) in
      handle_has (IsSettled cfg pod) marshal marshals policy namespace pod (λ apart h. record {
        level = level;
        faultless = ap (validate patch) level ∙ mutate_faultless marshal cfg pod q v h;
        stripped =
            AllOf-if (rewrites cfg (level_of patch)) patch.containers
              (λ e. mutate-IsStripped marshal cfg pod q (ap (rewrites cfg) (sym level) ∙ e));
      })

  -- A pod that is patched, and is admitted again under the same policy, is patched to itself.
  pub handle_twice :
      (marshal : List (String × Container Quantity) → Option String) (policy : Option WebhookConfig)
      (namespace : String) (pod : Pod Quantity)
      → PatchHas
          (λ patch. handle marshal true policy namespace (some patch) ≡ patched patch)
          (handle marshal true policy namespace (some pod))
  unfolding handle
  handle_twice marshal policy namespace pod =
      let cfg = config policy in
      let q = chosen_level cfg pod in
      let v = chosen_level-valid cfg pod in
      let patch = mutate marshal cfg pod q in
      let again : chosen_level cfg patch ≡ q =
        chosen_again cfg patch q v (mutate_level marshal cfg pod q) in
      let idle : mutate marshal cfg patch q ≡ patch =
        mutate_idle marshal cfg patch q (mutate_level marshal cfg pod q)
          (mutate-IsStripped marshal cfg pod q) in
      handle_has (λ p. handle marshal true policy namespace (some p) ≡ patched p) marshal true
        policy namespace pod
        (λ apart h. simp (apart, again, mutate_faultless marshal cfg pod q v h, idle) refl)
