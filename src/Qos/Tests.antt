-- ===== src/Qos/Tests.antt =====
-- The theorems on levels at concrete pods.
use kqos.Prelude.{◌≡◌, true, [], ◌∷◌}
use kqos.Api.{evictable, annotation_qos_level}
use kqos.Kubernetes.{Pod}
use kqos.Qos.{level_of}
use kqos.Qos.Classes.{evictable-level_of}
use kqos.Samples.{Amount, amounts, pod_of}

abbrev sold_pod : Pod Amount
sold_pod = record (pod_of "a" 2) {
  priority_class_name = "system-node-critical";
  annotations = (annotation_qos_level, "reclaimed_cores") ∷ [];
}

evictable-level_of_example : evictable (level_of sold_pod) ≡ true
evictable-level_of_example = evictable-level_of sold_pod
