-- ===== src/WorkloadProfile.antt =====
-- pkg/apis/kqos/v1alpha1/workloadprofile_types.go, and pkg/controller/profile/controller.go, which
-- makes a recommendation of what the usage store holds. The texts of messages are left out, and what
-- the API server answers is an argument.
pub mod Advice
mod Tests
use kqos.Prelude.{
  ℕ, ◌≡◌, Bool, true, false, not, ◌&&◌, List, [], ◌∷◌, Option, none, some, String, str_eq,
  if◌then◌else◌, ltb,
}
use kqos.Prelude.Int.{ℤ, pos, ltb_ℤ, leb_ℤ, int32}
use kqos.Api.{QosLevel}
use kqos.Floats.{FloatApi}
use kqos.Kubernetes.{QuantityApi, ResourceList, resource_cpu, resource_memory}
use kqos.Overcommit.{Fetched, found, not_found, failed, Outcome, done, retry, requeue_after}
use kqos.Profile.{Condition}
use kqos.Profile.Conditions.{set_condition}
use kqos.Usage.{WorkloadKey, Stats}
use kqos.Usage.Store.{Store, workload_stats, workload_requests}

pub record TargetReference : Type 0 where
  pub api_version : String
  pub kind : String
  pub name : String

pub record WorkloadProfileSpec : Type 0 where
  pub target_ref : TargetReference
  pub qos_level : QosLevel
  pub safety_margin_percent : ℤ

pub record UsageStatistics (Quantity : Type 0) : Type 0 where
  pub p50 : Quantity
  pub p90 : Quantity
  pub p95 : Quantity
  pub p99 : Quantity
  pub max : Quantity

pub record WorkloadProfileStatus (Quantity : Type 0) : Type 0 where
  pub samples : ℤ
  pub pod_count : ℤ
  pub cpu : UsageStatistics Quantity
  pub memory : UsageStatistics Quantity
  pub current_requests : ResourceList Quantity
  pub recommendation : ResourceList Quantity
  pub waste_percent : ℤ
  pub confidence : String
  pub last_updated : Option ℤ
  pub conditions : List Condition

pub record WorkloadProfile (Quantity : Type 0) : Type 0 where
  pub namespace : String
  pub name : String
  pub spec : WorkloadProfileSpec
  pub status : WorkloadProfileStatus Quantity

abbrev pub profile_ready : String → String → Condition
profile_ready status reason = record {
  kind = "ProfileReady";
  status = status;
  reason = reason;
  message = "";
  last_transition_time = pos 0;
}

abbrev pub at_least : ℤ → ℤ → ℤ
at_least floor v = if ltb_ℤ v floor then floor else v

abbrev pub confidence_of : ℤ → ℕ → String
confidence_of samples pods =
    if leb_ℤ (pos 120) samples && ltb 1 pods
    then "High"
    else if leb_ℤ (pos 30) samples
    then "Medium"
    else "Low"

abbrev pub target_key : {Quantity : Type 0} → WorkloadProfile Quantity → WorkloadKey
target_key wp = record {
  namespace = wp.namespace;
  kind = wp.spec.target_ref.kind;
  name = wp.spec.target_ref.name;
}

-- 30 seconds
abbrev pub again_soon : Outcome
again_soon = requeue_after (pos 30_000_000_000)

abbrev pub requests_or_zero : Option (ℤ × ℤ) → ℤ × ℤ
requests_or_zero none = (pos 0, pos 0)
requests_or_zero (some r) = r

module _ {Float : Type 0} ⦃f : FloatApi Float⦄ where
  open f use {of_int, to_int, add, sub, mul, div, less}

  -- 1 + margin/100, with a margin of 20 where none is given.
  unfoldable pub factor_of : ℤ → Float
  factor_of margin =
      let m = if less (of_int (pos 0)) (of_int margin) then of_int margin else of_int (pos 20) in
      add (of_int (pos 1)) (div m (of_int (pos 100)))

  -- CPU by its 95th percentile, memory by its maximum, each with a floor.
  unfoldable pub recommended_cpu : ℤ → Stats Float → ℤ
  recommended_cpu margin stats = at_least (pos 10) (to_int (mul stats.p95 (factor_of margin)))

  unfoldable pub recommended_memory : ℤ → Stats Float → ℤ
  recommended_memory margin stats =
      at_least (pos 16_777_216) (to_int (mul stats.max (factor_of margin)))

  -- How much of a request is not used, in per cent.
  unfoldable pub waste_of : ℤ → Float → ℤ
  waste_of requested p95 =
      let unused = sub (of_int requested) p95 in
      if ltb_ℤ (pos 0) requested
      then (if less (of_int (pos 0)) unused
          then int32 (to_int (mul (div unused (of_int requested)) (of_int (pos 100))))
          else pos 0)
      else pos 0

module _ {Float Quantity : Type 0} ⦃f : FloatApi Float⦄ ⦃api : QuantityApi Quantity⦄ where
  open f use {to_int}
  open api use {new_milli_quantity, new_quantity}

  abbrev pub milli_quantity : Float → Quantity
  milli_quantity v = new_milli_quantity (to_int v)

  abbrev pub byte_quantity : Float → Quantity
  byte_quantity v = new_quantity (to_int v)

  unfoldable pub to_usage_stats : Stats Float → (Float → Quantity) → UsageStatistics Quantity
  to_usage_stats s conv = record {
    p50 = conv s.p50;
    p90 = conv s.p90;
    p95 = conv s.p95;
    p99 = conv s.p99;
    max = conv s.max;
  }

  -- The status where there are samples, with the requests that were reported last.
  unfoldable pub sampled_status :
      ℤ
      → WorkloadProfile Quantity
      → Stats Float × Stats Float × ℕ
      → ℤ × ℤ
      → WorkloadProfileStatus Quantity
  sampled_status now wp stats requests = record {
    samples = stats.0.samples;
    pod_count = int32 (pos stats.2);
    cpu = to_usage_stats stats.0 milli_quantity;
    memory = to_usage_stats stats.1 byte_quantity;
    current_requests =
        (resource_cpu, new_milli_quantity requests.0)
        ∷ (resource_memory, new_quantity requests.1)
        ∷ [];
    recommendation =
        (resource_cpu, new_milli_quantity (recommended_cpu wp.spec.safety_margin_percent stats.0))
        ∷ (resource_memory, new_quantity (recommended_memory wp.spec.safety_margin_percent stats.1))
        ∷ [];
    waste_percent = waste_of requests.0 stats.0.p95;
    confidence = confidence_of stats.0.samples stats.2;
    last_updated = some now;
    conditions = set_condition now (profile_ready "True" "Sampled") wp.status.conditions;
  }

  -- The status after a pass; without samples the figures stay.
  abbrev pub status_of :
      ℤ
      → WorkloadProfile Quantity
      → Option (Stats Float × Stats Float × ℕ)
      → ℤ × ℤ
      → WorkloadProfileStatus Quantity
  status_of now wp none requests = record wp.status {
    confidence = "Low";
    conditions = set_condition now (profile_ready "False" "NoSamples") wp.status.conditions;
    last_updated = some now;
  }
  status_of now wp (some stats) requests = sampled_status now wp stats requests

  -- `takes` tells whether the API server takes the patch of the status.
  unfoldable pub reconcile_workload :
      Store Float
      → Bool
      → ℤ
      → Fetched (WorkloadProfile Quantity)
      → Outcome × Fetched (WorkloadProfile Quantity)
  reconcile_workload store takes now not_found = (done, not_found)
  reconcile_workload store takes now failed = (retry, failed)
  reconcile_workload store takes now (found wp) =
      let key = target_key wp in
      if takes
      then (
        again_soon,
        found (record wp {
          status =
              status_of now wp (workload_stats store key now)
                (requests_or_zero (workload_requests store key));
        }),
      )
      else (retry, found wp)

-- What `NewOwnerResolver` makes of a pod's controller; `owner_of` reads the controller of a
-- ReplicaSet, as a kind and a name, if it can be read and has one.
abbrev pub deployment_of : String → String → Option (String × String) → WorkloadKey
deployment_of namespace name none = record {
  namespace = namespace;
  kind = "ReplicaSet";
  name = name;
}
deployment_of namespace name (some owner) =
    if str_eq owner.0 "Deployment"
    then record { namespace = namespace; kind = "Deployment"; name = owner.1 }
    else record { namespace = namespace; kind = "ReplicaSet"; name = name }

unfoldable pub owner_resolver :
    (String → String → Option (String × String)) → String → String → String → Option WorkloadKey
owner_resolver owner_of namespace kind name =
    if not (str_eq kind "ReplicaSet")
    then some (record { namespace = namespace; kind = kind; name = name })
    else some (deployment_of namespace name (owner_of namespace name))
