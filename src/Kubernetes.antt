-- ===== src/Kubernetes.antt =====
-- The parts of the Kubernetes API types that the program reads and writes, and the operations of
-- `resource.Quantity`, which is a third party's: a parameter, with the documented behaviour of its
-- constructors as laws.
pub mod Maps
use kqos.Prelude.{◌≡◌, Bool, List, [], ◌∷◌, Option, none, some, String, str_eq, if◌then◌else◌}
use kqos.Prelude.Int.{ℤ, pos, eqb_ℤ}

pub record QuantityApi (Quantity : Type 0) : Type 0 where
  -- `MilliValue`, `Value`, `IsZero`, `Add`, `NewMilliQuantity` and `NewQuantity`
  pub milli_value : Quantity → ℤ
  pub value : Quantity → ℤ
  pub is_zero : Quantity → Bool
  pub add : Quantity → Quantity → Quantity
  pub new_milli_quantity : ℤ → Quantity
  pub new_quantity : ℤ → Quantity
  -- `q.Cmp(r) > 0`, and `q.Cmp(r) != 0`
  pub is_greater : Quantity → Quantity → Bool
  pub differs : Quantity → Quantity → Bool
  pub milli_value-new : (m : ℤ) → milli_value (new_milli_quantity m) ≡ m
  pub value-new : (v : ℤ) → value (new_quantity v) ≡ v
  pub is_zero-new : (v : ℤ) → is_zero (new_quantity v) ≡ eqb_ℤ v (pos 0)

-- A Go map with texts for keys, as an association list. A key stands once: `put_key` replaces it.
module _ {ℓ} {V : Type ℓ} where
  abbrev pub lookup : String → List (String × V) → Option V
  lookup k [] = none
  lookup k ((j, v) ∷ m) = if str_eq j k then some v else lookup k m

  unfoldable pub put_key : String → V → List (String × V) → List (String × V)
  put_key k v [] = (k, v) ∷ []
  put_key k v ((j, w) ∷ m) = if str_eq j k then (k, v) ∷ m else (j, w) ∷ put_key k v m

  unfoldable pub delete_key : String → List (String × V) → List (String × V)
  delete_key k [] = []
  delete_key k ((j, w) ∷ m) = if str_eq j k then delete_key k m else (j, w) ∷ delete_key k m

abbrev pub ResourceList : Type 0 → Type 0
ResourceList Quantity = List (String × Quantity)

-- `corev1.ResourceCPU` and `corev1.ResourceMemory`
abbrev pub resource_cpu : String
resource_cpu = "cpu"

abbrev pub resource_memory : String
resource_memory = "memory"

pub record Container (Quantity : Type 0) : Type 0 where
  pub name : String
  pub requests : ResourceList Quantity
  pub limits : ResourceList Quantity

-- `status.qosClass`
pub data QosClass : Type 0 where
  unset guaranteed burstable best_effort : QosClass

pub data Phase : Type 0 where
  pending running succeeded failed unknown : Phase

pub record Pod (Quantity : Type 0) : Type 0 where
  pub namespace : String
  pub name : String
  pub uid : String
  pub annotations : List (String × String)
  pub priority_class_name : String
  pub priority : Option ℤ
  pub init_containers : List (Container Quantity)
  pub containers : List (Container Quantity)
  pub qos_class : QosClass
  pub phase : Phase
  -- `DeletionTimestamp != nil`
  pub deleting : Bool

-- `corev1.MirrorPodAnnotationKey`
abbrev pub mirror_pod_annotation : String
mirror_pod_annotation = "kubernetes.io/config.mirror"
