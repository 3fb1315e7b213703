-- ===== src/Webhook/Validation.antt =====
-- pkg/webhook/pod.go: `validate`.
use kqos.Prelude.{
  ◌≡◌, refl, Bool, not, ◌&&◌, List, [], ◌∷◌, Option, none, some, String, if◌then◌else◌,
}
use kqos.Prelude.Int.{ℤ, pos, ltb_ℤ, eqb_ℤ, ◌%ℤ◌}
use kqos.Api.{
  QosLevel, dedicated_cores, reclaimed_cores, is_valid, level_eq, annotation_numa_binding,
}
use kqos.Kubernetes.{QuantityApi, Container, Pod, lookup, resource_cpu, resource_memory}
use kqos.Qos.{annotation_is}

-- What `validate` finds fault with.
pub data ValidationError : Type 0 where
  not_a_level : QosLevel → ValidationError
  no_cpu_request fractional_cpu zero_memory_limit : String → ValidationError
  positive_priority : ℤ → ValidationError
  numa_without_dedicated : QosLevel → ValidationError

-- The first error of a list of checks.
abbrev pub first_error : Option ValidationError → Option ValidationError → Option ValidationError
first_error (some e) rest = some e
first_error none rest = rest

pub first_error-none :
    (a b : Option ValidationError) → first_error a b ≡ none → (a ≡ none) × (b ≡ none)
first_error-none none b h = (refl, h)
first_error-none (some e) b h = cc

pub first_error_both : (a b : Option ValidationError) → a ≡ none → b ≡ none → first_error a b ≡ none
first_error_both a b h g = rw (h, g) refl

abbrev pub check_priority : Option ℤ → Option ValidationError
check_priority none = none
check_priority (some p) = if ltb_ℤ (pos 0) p then some (positive_priority p) else none

-- `wants` tells whether the pod asks to be bound to a NUMA zone.
abbrev pub numa_fault : QosLevel → Bool → Option ValidationError
numa_fault level wants =
    if wants && not (level_eq level dedicated_cores)
    then some (numa_without_dedicated level)
    else none

module _ {Quantity : Type 0} ⦃api : QuantityApi Quantity⦄ where
  open api use {milli_value, is_zero}

  -- A container's request must be there, be positive and be whole.
  abbrev pub check_cores : String → Option Quantity → Option ValidationError
  check_cores name none = some (no_cpu_request name)
  check_cores name (some q) =
      if is_zero q
      then some (no_cpu_request name)
      else if not (eqb_ℤ (milli_value q %ℤ pos 1000) (pos 0))
      then some (fractional_cpu name)
      else none

  unfoldable pub check_dedicated : List (Container Quantity) → Option ValidationError
  check_dedicated [] = none
  check_dedicated (c ∷ cs) =
      first_error (check_cores c.name (lookup resource_cpu c.requests)) (check_dedicated cs)

  abbrev pub check_limit : String → Option Quantity → Option ValidationError
  check_limit name none = none
  check_limit name (some q) = if is_zero q then some (zero_memory_limit name) else none

  unfoldable pub check_reclaimed : List (Container Quantity) → Option ValidationError
  check_reclaimed [] = none
  check_reclaimed (c ∷ cs) =
      first_error (check_limit c.name (lookup resource_memory c.limits)) (check_reclaimed cs)

  abbrev pub dedicated_fault : QosLevel → List (Container Quantity) → Option ValidationError
  dedicated_fault level cs = if level_eq level dedicated_cores then check_dedicated cs else none

  abbrev pub reclaimed_fault :
      QosLevel → List (Container Quantity) → Option ℤ → Option ValidationError
  reclaimed_fault level cs priority =
      if level_eq level reclaimed_cores
      then first_error (check_reclaimed cs) (check_priority priority)
      else none

  -- What is wrong with a pod at a level, if anything.
  unfoldable pub validate : Pod Quantity → QosLevel → Option ValidationError
  validate pod level =
      if not (is_valid level)
      then some (not_a_level level)
      else first_error (dedicated_fault level pod.containers) (
          first_error (reclaimed_fault level pod.containers pod.priority)
            (numa_fault level (annotation_is annotation_numa_binding "true" pod)))
