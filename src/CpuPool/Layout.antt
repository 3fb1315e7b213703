-- ===== src/CpuPool/Layout.antt =====
-- pkg/agent/cpupool/pool.go: `computePools`.
pub mod Ownership
pub mod Partition
pub mod Exclusive
mod Tests
use kqos.Prelude.{
  ℕ, ◌+◌, Bool, true, false, not, List, [], ◌∷◌, ◌++◌, Option, none, some, String, str_eq,
  if◌then◌else◌, ◌==◌, select, map,
}
use kqos.Prelude.Int.{ℤ, pos, ltb_ℤ, ◌-ℤ◌}
use kqos.Strings.{Text, is_nil}
use kqos.Api.{QosLevel, dedicated_cores, shared_cores, reclaimed_cores, system_cores, level_eq}
use kqos.Kubernetes.{QuantityApi, Pod}
use kqos.Qos.{level_of, wants_numa_binding}
use kqos.CpuSet.{CpuSet, none_set, size, is_empty, intersection, difference, take_ids, take_from}
use kqos.CpuSet.Format.{Result, ok, err, endless, parse}
use kqos.CpuPool.{whole_cores_for, sort_pods_by_cpu_desc}
use kqos.CpuPool.Topology.{Topology, Zone, zone_for}

pub record Pool : Type 0 where
  pub name : String
  pub level : QosLevel
  pub cpus : CpuSet
  pub pod_uids : List String

pub record Config : Type 0 where
  pub cpu_set_enabled : Bool
  pub reserved_system_cpus : Text
  pub shared_pool_min_cpus : ℤ
  pub reclaimed_pool_min_cpus : ℤ

-- The variables `free` and `pools`.
pub record Layout : Type 0 where
  pub free : CpuSet
  pub pools : List Pool

abbrev pub at_least_one : ℤ → ℤ
at_least_one n = if ltb_ℤ n (pos 1) then pos 1 else n

abbrev pub reserved_of : Result CpuSet → CpuSet → CpuSet
reserved_of (ok parsed) free = intersection parsed free
reserved_of (err e) free = none_set
reserved_of endless free = none_set

-- The CPUs that the policy reserves: none if it names none, or if its text does not parse. Where
-- `Parse` does not end, neither does the code; the model then goes on as with an error.
unfoldable pub reserved_cpus : Config → CpuSet → CpuSet
reserved_cpus cfg online =
    if is_nil cfg.reserved_system_cpus
    then none_set
    else reserved_of (parse cfg.reserved_system_cpus) online

abbrev pub remaining_of : Result CpuSet → CpuSet → CpuSet
remaining_of (ok parsed) free = difference free (intersection parsed free)
remaining_of (err e) free = free
remaining_of endless free = free

unfoldable pub unreserved_cpus : Config → CpuSet → CpuSet
unreserved_cpus cfg online =
    if is_nil cfg.reserved_system_cpus
    then online
    else remaining_of (parse cfg.reserved_system_cpus) online

unfoldable pub start_layout : Config → CpuSet → Layout
start_layout cfg online =
    let reserved = reserved_cpus cfg online in
    record {
      free = unreserved_cpus cfg online;
      pools =
          if is_empty reserved
          then []
          else (record { name = "reserved"; level = system_cores; cpus = reserved; pod_uids = [] })
            ∷ [];
    }

-- What a dedicated pod is given, and what stays free.
abbrev pub take_zone : CpuSet → ℤ → Option Zone → CpuSet × CpuSet
take_zone free want none = take_ids free want
take_zone free want (some zone) = take_from free want zone.cpus

abbrev pub dedicated_pool : String → CpuSet → Pool
dedicated_pool uid taken = record {
  name = uid;
  level = dedicated_cores;
  cpus = taken;
  pod_uids = uid ∷ [];
}

-- All that is not reserved, where a pool would be too small.
abbrev pub widened : Topology → Config → ℤ → CpuSet → CpuSet
widened topology cfg least cpus =
    if ltb_ℤ (pos (size cpus)) least
    then difference topology.online (reserved_cpus cfg topology.online)
    else cpus

module _ {Quantity : Type 0} ⦃api : QuantityApi Quantity⦄ where
  unfoldable pub pick : Topology → Pod Quantity → CpuSet → ℤ → CpuSet × CpuSet
  pick topology pod free want =
      if wants_numa_binding pod
      then take_zone free want (zone_for topology free want)
      else take_ids free want

  -- The body of the loop over the dedicated pods.
  unfoldable pub assign : Topology → ℤ → Pod Quantity → Layout → Layout
  assign topology min_shared pod l =
      let want = whole_cores_for pod in
      let picked = pick topology pod l.free want in
      if ltb_ℤ want (pos 1)
      then l
      else if ltb_ℤ (pos (size l.free) -ℤ want) min_shared
      then l
      else if size picked.0 == 0
      then record l { free = picked.1 }
      else record { free = picked.1; pools = l.pools ++ dedicated_pool pod.uid picked.0 ∷ [] }

  unfoldable pub assign_all : Topology → ℤ → List (Pod Quantity) → Layout → Layout
  assign_all topology min_shared [] l = l
  assign_all topology min_shared (pod ∷ pods) l =
      assign_all topology min_shared pods (assign topology min_shared pod l)

  unfoldable pub dedicated_pods : List (Pod Quantity) → List (Pod Quantity)
  unfolding select
  dedicated_pods pods = select (λ pod. level_eq (level_of pod) dedicated_cores) pods

  -- Who sits in a pool that is not a dedicated pod's own.
  abbrev pub with_members : List (Pod Quantity) → Pool → Pool
  with_members pods pool = if level_eq pool.level dedicated_cores then pool else record pool {
    pod_uids =
        pool.pod_uids
        ++ map (λ pod. pod.uid) (select (λ pod. level_eq (level_of pod) pool.level) pods);
  }

  -- The layout before the shared pools are added.
  unfoldable pub dedicated_layout : Topology → Config → List (Pod Quantity) → Layout
  dedicated_layout topology cfg pods =
      assign_all topology (at_least_one cfg.shared_pool_min_cpus)
        (sort_pods_by_cpu_desc (dedicated_pods pods)) (start_layout cfg topology.online)

  unfoldable pub shared_cpus : Topology → Config → List (Pod Quantity) → CpuSet
  shared_cpus topology cfg pods =
      widened topology cfg (at_least_one cfg.shared_pool_min_cpus)
        (dedicated_layout topology cfg pods).free

  unfoldable pub reclaimed_cpus : Topology → Config → List (Pod Quantity) → CpuSet
  reclaimed_cpus topology cfg pods =
      widened topology cfg (at_least_one cfg.reclaimed_pool_min_cpus)
        (shared_cpus topology cfg pods)

  unfoldable pub compute_pools : Topology → Config → List (Pod Quantity) → List Pool
  compute_pools topology cfg pods = map (with_members pods) (
      (dedicated_layout topology cfg pods).pools
      ++ (record {
        name = "shared";
        level = shared_cores;
        cpus = shared_cpus topology cfg pods;
        pod_uids = [];
      })
        ∷ (record {
          name = "reclaimed";
          level = reclaimed_cores;
          cpus = reclaimed_cpus topology cfg pods;
          pod_uids = [];
        })
        ∷ [])
