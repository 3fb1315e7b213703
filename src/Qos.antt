-- ===== src/Qos.antt =====
-- pkg/qos/qos.go: how a pod is classified, and what it asks for.
pub mod Classes
mod Tests
use kqos.Prelude.{
  ℕ, ◌≡◌, Bool, true, false, not, ◌&&◌, ◌||◌, List, [], ◌∷◌, ◌++◌, Option, none, some, String,
  str_eq, if◌then◌else◌,
}
use mathlib.Core.Option
use kqos.Prelude.Int.{ℤ, pos, ltb_ℤ, ◌+ℤ◌, ◌*ℤ◌, int64}
use kqos.Api.{
  QosLevel, dedicated_cores, shared_cores, reclaimed_cores, system_cores, to_level, is_valid,
  level_eq, annotation_qos_level, annotation_numa_binding, annotation_cpu_set_pool,
  resource_reclaimed_cpu, resource_reclaimed_memory,
}
use kqos.Kubernetes.{
  QuantityApi, ResourceList, Container, Pod, QosClass, unset, guaranteed, burstable, best_effort,
  Phase, pending, running, succeeded, failed, unknown, lookup, put_key, resource_cpu,
  resource_memory, mirror_pod_annotation,
}

-- The variables of the loop of `nativeQoS`.
pub record Scan (Quantity : Type 0) : Type 0 where
  pub requests : ResourceList Quantity
  pub limits : ResourceList Quantity
  pub is_guaranteed : Bool
  pub any_request : Bool

-- The level that an annotation gives, or else `q`.
abbrev pub annotated_or : Option String → QosLevel → QosLevel
annotated_or none q = q
annotated_or (some v) q = if is_valid (to_level v) then to_level v else q

abbrev pub level_of_class : QosClass → QosLevel
level_of_class guaranteed = dedicated_cores
level_of_class best_effort = reclaimed_cores
level_of_class unset = shared_cores
level_of_class burstable = shared_cores

module _ {Quantity : Type 0} ⦃api : QuantityApi Quantity⦄ where
  open api use {milli_value, value, is_zero, is_greater, differs, new_milli_quantity, new_quantity}

  -- `add`: a key that is there grows, another is set.
  unfoldable pub add : ResourceList Quantity → String → Quantity → ResourceList Quantity
  add rl name q = elim (lookup name rl) [
    | some cur ↦ put_key name (api.add cur q) rl
    | none ↦ put_key name q rl
  ]

  abbrev pub nonzero : Option Quantity → Bool
  nonzero none = false
  nonzero (some q) = not (is_zero q)

  -- `!hasLim || lim.IsZero()`, and else `hasReq && req.Cmp(lim) != 0`
  abbrev pub breaks_guarantee : Option Quantity → Option Quantity → Bool
  breaks_guarantee req none = true
  breaks_guarantee none (some lim) = is_zero lim
  breaks_guarantee (some req) (some lim) = is_zero lim || differs req lim

  abbrev pub add_some : ResourceList Quantity → String → Option Quantity → ResourceList Quantity
  add_some rl name none = rl
  add_some rl name (some q) = if is_zero q then rl else add rl name q

  unfoldable pub scan_name : Container Quantity → String → Scan Quantity → Scan Quantity
  scan_name c name s =
      let req = lookup name c.requests in
      let lim = lookup name c.limits in
      record {
        requests = add_some s.requests name req;
        limits = add_some s.limits name lim;
        is_guaranteed = s.is_guaranteed && not (breaks_guarantee req lim);
        any_request = s.any_request || nonzero req;
      }

  unfoldable pub scan_containers : List (Container Quantity) → Scan Quantity → Scan Quantity
  unfolding scan_name
  scan_containers [] s = s
  scan_containers (c ∷ cs) s =
      scan_containers cs (scan_name c resource_memory (scan_name c resource_cpu s))

  abbrev pub is_empty_list : ResourceList Quantity → Bool
  is_empty_list [] = true
  is_empty_list (e ∷ es) = false

  abbrev pub class_of_scan : Scan Quantity → QosClass
  class_of_scan s =
      if not s.any_request && is_empty_list s.limits
      then best_effort
      else if s.is_guaranteed
      then guaranteed
      else burstable

  unfoldable pub native_qos : Pod Quantity → QosClass
  unfolding scan_containers
  native_qos pod = elim pod.qos_class [
    | unset ↦ class_of_scan (
        scan_containers (pod.init_containers ++ pod.containers)
          (record { requests = []; limits = []; is_guaranteed = true; any_request = false }))
    | known ↦ known
  ]

  abbrev pub is_critical : Pod Quantity → Bool
  is_critical pod =
      str_eq pod.priority_class_name "system-node-critical"
      || str_eq pod.priority_class_name "system-cluster-critical"

  -- The level where no annotation decides.
  unfoldable pub inferred_level : Pod Quantity → QosLevel
  inferred_level pod = if is_critical pod then system_cores else level_of_class (native_qos pod)

  -- `LevelOf`, of a pod that is not nil (no caller has another)
  unfoldable pub level_of : Pod Quantity → QosLevel
  level_of pod = annotated_or (lookup annotation_qos_level pod.annotations) (inferred_level pod)

  unfoldable pub is_reclaimed : Pod Quantity → Bool
  is_reclaimed pod = level_eq (level_of pod) reclaimed_cores

  -- `annotations[key] == v`, for a `v` that is not empty
  abbrev pub annotation_is : String → String → Pod Quantity → Bool
  annotation_is key v pod = elim (lookup key pod.annotations) [ none ↦ false | some w ↦ str_eq w v ]

  unfoldable pub wants_numa_binding : Pod Quantity → Bool
  wants_numa_binding pod =
      annotation_is annotation_numa_binding "true" pod && level_eq (level_of pod) dedicated_cores

  unfoldable pub cpu_set_pool_of : Pod Quantity → String
  cpu_set_pool_of pod = elim (lookup annotation_cpu_set_pool pod.annotations) [
    | none ↦ "shared"
    | some v ↦ if str_eq v "" then "shared" else v
  ]

  -- `for name, q := range rl { add(out, name, q) }`
  unfoldable pub add_all : ResourceList Quantity → ResourceList Quantity → ResourceList Quantity
  add_all [] out = out
  add_all ((name, q) ∷ rl) out = add_all rl (add out name q)

  -- `if cur, ok := out[name]; !ok || q.Cmp(cur) > 0 { out[name] = q }`
  abbrev pub raise_to : ResourceList Quantity → String → Quantity → ResourceList Quantity
  raise_to out name q = elim (lookup name out) [
    | none ↦ put_key name q out
    | some cur ↦ if is_greater q cur then put_key name q out else out
  ]

  unfoldable pub raise_all : ResourceList Quantity → ResourceList Quantity → ResourceList Quantity
  raise_all [] out = out
  raise_all ((name, q) ∷ rl) out = raise_all rl (raise_to out name q)

  -- The two loops of `sumPod` over the app containers and over the init containers.
  unfoldable pub sum_apps :
      (Container Quantity → ResourceList Quantity)
      → List (Container Quantity)
      → ResourceList Quantity
      → ResourceList Quantity
  unfolding add_all add
  sum_apps pick [] out = out
  sum_apps pick (c ∷ cs) out = sum_apps pick cs (add_all (pick c) out)

  unfoldable pub raise_inits :
      (Container Quantity → ResourceList Quantity)
      → List (Container Quantity)
      → ResourceList Quantity
      → ResourceList Quantity
  unfolding raise_all
  raise_inits pick [] out = out
  raise_inits pick (c ∷ cs) out = raise_inits pick cs (raise_all (pick c) out)

  unfoldable pub sum_pod :
      (Container Quantity → ResourceList Quantity) → Pod Quantity → ResourceList Quantity
  sum_pod pick pod = raise_inits pick pod.init_containers (sum_apps pick pod.containers [])

  unfoldable pub pod_requests : Pod Quantity → ResourceList Quantity
  pod_requests pod = sum_pod (λ c. c.requests) pod

  unfoldable pub pod_limits : Pod Quantity → ResourceList Quantity
  pod_limits pod = sum_pod (λ c. c.limits) pod

  -- `total += q.Value()`, in 64 bits
  unfoldable pub extended_sum : String → List (Container Quantity) → ℤ → ℤ
  extended_sum name [] total = total
  extended_sum name (c ∷ cs) total =
      extended_sum name cs
        (elim (lookup name c.requests) [ none ↦ total | some q ↦ int64 (total +ℤ value q) ])

  unfoldable pub extended_total : Pod Quantity → String → ℤ
  extended_total pod name = extended_sum name pod.containers (pos 0)

  -- What is filled in under `name` if it is missing and the extended total is positive.
  abbrev pub fill_in : String → ℤ → (ℤ → Quantity) → ResourceList Quantity → ResourceList Quantity
  fill_in name total make out = elim (lookup name out) [
    | some q ↦ out
    | none ↦ if ltb_ℤ (pos 0) total then put_key name (make total) out else out
  ]

  unfoldable pub effective_requests : Pod Quantity → ResourceList Quantity
  unfolding pod_requests
  effective_requests pod =
      fill_in resource_memory (extended_total pod resource_reclaimed_memory)
        (λ mib. new_quantity (int64 (int64 (mib *ℤ pos 1024) *ℤ pos 1024)))
        (fill_in resource_cpu (extended_total pod resource_reclaimed_cpu) new_milli_quantity
          (pod_requests pod))

  unfoldable pub is_terminal : Pod Quantity → Bool
  is_terminal pod = elim pod.phase [ succeeded ↦ true | failed ↦ true | _ ↦ false ]

  unfoldable pub is_mirror_pod : Pod Quantity → Bool
  is_mirror_pod pod = elim (lookup mirror_pod_annotation pod.annotations) [
    | none ↦ false
    | some v ↦ true
  ]
