-- ===== src/Webhook.antt =====
-- pkg/webhook/pod.go: admission of pods. Decoding a request, reading the policy and marshalling are
-- the API machinery's: their results are arguments.
pub mod Validation
pub mod Rewriting
pub mod Admission
pub mod Readmission
pub mod Settled
pub mod Denials
mod Tests
use kqos.Prelude.{
  ℕ, ◌≡◌, Bool, true, false, not, ◌&&◌, ◌||◌, List, [], ◌∷◌, Option, none, some, String, str_eq,
  if◌then◌else◌,
}
use kqos.Prelude.Int.{ℤ, pos, ltb_ℤ, eqb_ℤ, ◌/ℤ◌, ◌%ℤ◌}
use kqos.Api.{
  QosLevel, dedicated_cores, shared_cores, reclaimed_cores, other_level, to_level, level_text,
  is_valid, level_eq, annotation_qos_level, annotation_numa_binding, annotation_original_resources,
  resource_reclaimed_cpu, resource_reclaimed_memory,
}
use kqos.Kubernetes.{
  QuantityApi, ResourceList, Container, Pod, lookup, put_key, delete_key, resource_cpu,
  resource_memory,
}
use kqos.Qos.{level_of}
use kqos.Webhook.Validation.{ValidationError, validate}
use kqos.Webhook.Rewriting.{rewrite_reclaimed}

pub record WebhookConfig : Type 0 where
  pub default_qos_level : QosLevel
  pub rewrite_reclaimed_resources : Bool
  pub exempt_namespaces : List String

-- `admission.Allowed` leaves the pod as it is; a patched response replaces it.
pub data Response (Quantity : Type 0) : Type 0 where
  allowed : String → Response Quantity
  denied : ValidationError → Response Quantity
  patched : Pod Quantity → Response Quantity

abbrev pub default_config : WebhookConfig
default_config = record {
  default_qos_level = shared_cores;
  rewrite_reclaimed_resources = true;
  exempt_namespaces = [];
}

-- `config`: the policy's part for the webhook, `none` where the policy cannot be read.
unfoldable pub config : Option WebhookConfig → WebhookConfig
config none = default_config
config (some cfg) =
    if is_valid cfg.default_qos_level
    then cfg
    else record cfg { default_qos_level = default_config.default_qos_level }

abbrev pub is_exempt : List String → String → Bool
is_exempt [] namespace = false
is_exempt (ns ∷ rest) namespace = str_eq namespace ns || is_exempt rest namespace

abbrev pub level_in : Option String → QosLevel × Bool
level_in none = (other_level "", false)
level_in (some v) = (to_level v, is_valid (to_level v))

module _ {Quantity : Type 0} where
  unfoldable pub explicit_level : Pod Quantity → QosLevel × Bool
  explicit_level pod = level_in (lookup annotation_qos_level pod.annotations)

module _ {Quantity : Type 0} ⦃api : QuantityApi Quantity⦄ where
  -- The level that a pod is given.
  unfoldable pub chosen_level : WebhookConfig → Pod Quantity → QosLevel
  chosen_level cfg pod =
      let explicit = explicit_level pod in
      let fallback =
        if is_valid cfg.default_qos_level then cfg.default_qos_level else shared_cores in
      let inferred = level_of pod in
      if explicit.1
      then explicit.0
      else if not (level_eq inferred shared_cores)
      then inferred
      else fallback

  -- The pod with its level and, if it is reclaimed, with its requests rewritten.
  unfoldable pub mutate :
      (List (String × Container Quantity) → Option String)
      → WebhookConfig
      → Pod Quantity
      → QosLevel
      → Pod Quantity
  mutate marshal cfg pod level =
      let annotated = record pod {
        annotations = put_key annotation_qos_level (level_text level) pod.annotations;
      } in
      if level_eq level reclaimed_cores && cfg.rewrite_reclaimed_resources
      then (rewrite_reclaimed marshal annotated).0
      else annotated

  abbrev pub answer_of : Option ValidationError → Bool → Pod Quantity → Response Quantity
  answer_of (some e) marshals pod = denied e
  answer_of none true pod = patched pod
  answer_of none false pod = allowed "kqos could not serialise its mutation"

  -- `decoded` is the request's pod, if it decodes, and `marshals` tells whether the mutated pod can
  -- be marshalled.
  unfoldable pub handle :
      (List (String × Container Quantity) → Option String)
      → Bool
      → Option WebhookConfig
      → String
      → Option (Pod Quantity)
      → Response Quantity
  handle marshal marshals policy namespace none = allowed "kqos could not decode the pod"
  handle marshal marshals policy namespace (some pod) =
      let cfg = config policy in
      let level = chosen_level cfg pod in
      if is_exempt cfg.exempt_namespaces namespace
      then allowed "namespace is exempt from kqos"
      else answer_of (validate pod level) marshals (mutate marshal cfg pod level)
