-- ===== src/Webhook/Tests.antt =====
-- The theorems on admission at concrete pods.
use kqos.Prelude.{◌≡◌, refl, true, [], ◌∷◌, Option, none, some, String, List}
use kqos.Prelude.Int.{pos, ◌*ℤ◌, ◌/ℤ◌, ◌%ℤ◌}
use kqos.Api.{
  annotation_qos_level, resource_reclaimed_cpu, resource_reclaimed_memory, dedicated_cores,
  is_valid, to_level,
}
use kqos.Kubernetes.{Container, Pod, guaranteed, resource_cpu, resource_memory, put_key, delete_key}
use kqos.Samples.{Amount, thousandths, whole, amounts, pod_of, container_of}
use kqos.Webhook.{patched, handle, config, mutate, default_config, chosen_level, explicit_level}
use kqos.Webhook.Denials.{Explains, handle-Explains}
use kqos.Webhook.Settled.{IsSettled, handle-IsSettled, handle_twice}
use kqos.Qos.{level_of, inferred_level, native_qos, scan_containers, scan_name}
use kqos.Webhook.Validation.{fractional_cpu, validate, check_dedicated, check_reclaimed}
use kqos.Webhook.Rewriting.{
  rewrite_reclaimed, rewrite_all, rewrite_container, rewrite_cpu, rewrite_memory, set_extended,
  any_rewritten, is_rewritten, snapshot,
}

abbrev no_text : List (String × Container Amount) → Option String
no_text m = none

-- A pod for the reclaimed tier, with a request of two cores and 64 bytes.
abbrev sold_pod : Pod Amount
sold_pod = record (pod_of "a" 2) { annotations = (annotation_qos_level, "reclaimed_cores") ∷ [] }

-- The same with its requests rewritten.
abbrev rewritten_pod : Pod Amount
rewritten_pod = record sold_pod {
  containers =
      record {
        name = "app";
        requests =
            (resource_reclaimed_cpu, whole (pos 2000))
            ∷ (resource_reclaimed_memory, whole (pos 1))
            ∷ [];
        limits =
            (resource_memory, whole (pos 64))
            ∷ (resource_reclaimed_cpu, whole (pos 2000))
            ∷ (resource_reclaimed_memory, whole (pos 1))
            ∷ [];
      }
      ∷ [];
}

rewritten : handle no_text true none "default" (some sold_pod) ≡ patched rewritten_pod
unfolding handle config is_valid to_level explicit_level chosen_level level_of inferred_level
    native_qos scan_containers scan_name validate check_dedicated check_reclaimed mutate
    rewrite_reclaimed rewrite_all rewrite_container rewrite_cpu rewrite_memory set_extended
    any_rewritten is_rewritten snapshot put_key delete_key ◌*ℤ◌ ◌/ℤ◌ ◌%ℤ◌
rewritten = refl

handle-IsSettled_example : IsSettled default_config sold_pod rewritten_pod
unfolding handle config is_valid to_level explicit_level chosen_level level_of inferred_level
    native_qos scan_containers scan_name validate check_dedicated check_reclaimed mutate
    rewrite_reclaimed rewrite_all rewrite_container rewrite_cpu rewrite_memory set_extended
    any_rewritten is_rewritten snapshot put_key delete_key ◌*ℤ◌ ◌/ℤ◌ ◌%ℤ◌
handle-IsSettled_example = handle-IsSettled no_text true none "default" sold_pod

handle_twice_example :
    handle no_text true none "default" (some rewritten_pod) ≡ patched rewritten_pod
unfolding handle config is_valid to_level explicit_level chosen_level level_of inferred_level
    native_qos scan_containers scan_name validate check_dedicated check_reclaimed mutate
    rewrite_reclaimed rewrite_all rewrite_container rewrite_cpu rewrite_memory set_extended
    any_rewritten is_rewritten snapshot put_key delete_key ◌*ℤ◌ ◌/ℤ◌ ◌%ℤ◌
handle_twice_example = handle_twice no_text none "default" sold_pod

-- A Guaranteed pod that asks for a core and a half.
abbrev half_pod : Pod Amount
half_pod = record (pod_of "a" 2) {
  qos_class = guaranteed;
  containers =
      record (container_of 2 64) { requests = (resource_cpu, thousandths (pos 1500)) ∷ [] } ∷ [];
}

handle-Explains_example : Explains half_pod dedicated_cores (fractional_cpu "app")
unfolding handle config is_valid to_level explicit_level chosen_level level_of inferred_level
    native_qos scan_containers scan_name validate check_dedicated check_reclaimed mutate
    rewrite_reclaimed rewrite_all rewrite_container rewrite_cpu rewrite_memory set_extended
    any_rewritten is_rewritten snapshot put_key delete_key ◌*ℤ◌ ◌/ℤ◌ ◌%ℤ◌
handle-Explains_example = handle-Explains no_text true none "default" half_pod
