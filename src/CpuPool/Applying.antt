-- ===== src/CpuPool/Applying.antt =====
-- pkg/agent/cpupool/pool.go: `Reconcile`, which writes the layout to the pods' cgroups, and what the
-- status shows of it. Writing a file is cgroup.go's: whether it succeeds is an argument, and the
-- writes that are tried are listed.
pub mod Steady
pub mod Repeated
mod Tests
use kqos.Prelude.{
  ℕ, ◌+◌, ◌≡◌, Bool, true, false, not, ◌&&◌, ◌||◌, List, [], ◌∷◌, ◌++◌, Option, none, some, String,
  str_eq, if◌then◌else◌, ◌==◌, ltb, select, map, mem_text,
}
use kqos.Prelude.Int.{ℤ, pos, int32}
use kqos.Strings.{Text, is_nil, text_eq}
use kqos.Api.{QosLevel, dedicated_cores, shared_cores, reclaimed_cores, system_cores, level_eq}
use kqos.Kubernetes.{QuantityApi, Pod, lookup, put_key, delete_key}
use kqos.Qos.{level_of}
use kqos.CpuSet.{CpuSet, none_set, size, union, difference}
use kqos.CpuSet.Format.{to_string}
use kqos.CpuPool.{weight_for}
use kqos.CpuPool.Layout.{Pool, Config, compute_pools}
use kqos.CpuPool.Topology.{Topology, Zone}
use kqos.Profile.{CpuSetPool, TopologyZone}

-- `Manager`, without the resolver and the file system.
pub record Manager : Type 0 where
  pub topology : Topology
  pub cfg : Config
  pub applied_weight : List (String × ℕ)
  pub applied_cpu_set : List (String × Text)
  pub last_pools : List Pool

-- A write to a pod's cgroup, below its path.
pub data Write : Type 0 where
  cpu_weight : String → ℕ → Write
  cpuset_cpus : String → Text → Write

-- What the pass does not change: the pods' paths, by uid, and which writes succeed.
pub record Cgroups : Type 0 where
  pub pod_path : String → Option String
  pub succeeds : Write → Bool

-- The maps that a pass changes, and the writes that it tried, in order.
pub record Applied : Type 0 where
  pub weights : List (String × ℕ)
  pub cpu_sets : List (String × Text)
  pub writes : List Write

-- `SetCPUWeight` and `SetCPUSetCPUs`
abbrev pub set_cpu_weight : String → ℕ → Write
set_cpu_weight path weight =
    cpu_weight path (if ltb weight 1 then 1 else if ltb 10000 weight then 10000 else weight)

abbrev pub set_cpu_set_cpus : String → Text → Write
set_cpu_set_cpus path cpus = cpuset_cpus path cpus

-- `m.appliedWeight[uid] != weight`
abbrev pub needs_weight : Option ℕ → ℕ → Bool
needs_weight none weight = not (0 == weight)
needs_weight (some w) weight = not (w == weight)

abbrev pub applied_text : Option Text → Text
applied_text none = []
applied_text (some t) = t

-- Whether there is a set to write, that is not written already.
abbrev pub needs_cpus : Option Text → Option Text → Bool
needs_cpus applied none = false
needs_cpus applied (some want) = not (is_nil want) && not (text_eq (applied_text applied) want)

abbrev pub pool_named : String → List Pool → Option CpuSet
pool_named name [] = none
pool_named name (p ∷ ps) =
    let rest = pool_named name ps in if str_eq p.name name then some p.cpus else rest

abbrev pub pool_name_for : QosLevel → String
pool_name_for reclaimed_cores = "reclaimed"
pool_name_for system_cores = "reserved"
pool_name_for _ = "shared"

abbrev pub or_pool : Option CpuSet → Option CpuSet → Option CpuSet
or_pool none o = o
or_pool (some cpus) o = some cpus

unfoldable pub cpus_for_pod : List Pool → String → QosLevel → Option CpuSet
cpus_for_pod pools uid level =
    or_pool (if level_eq level dedicated_cores then pool_named uid pools else none)
      (pool_named (pool_name_for level) pools)

abbrev pub text_of : Option CpuSet → Option Text
text_of none = none
text_of (some cpus) = some (to_string cpus)

-- The weight of one pod, and then its CPUs.
unfoldable pub apply_weight : Cgroups → String → String → ℕ → Applied → Applied
apply_weight fs uid path weight a =
    let w = set_cpu_weight path weight in
    let tried = record a { writes = a.writes ++ w ∷ [] } in
    if needs_weight (lookup uid a.weights) weight
    then (if fs.succeeds w then record tried { weights = put_key uid weight a.weights } else tried)
    else a

abbrev pub text_or_nil : Option Text → Text
text_or_nil none = []
text_or_nil (some t) = t

unfoldable pub apply_cpus : Cgroups → String → String → Option Text → Applied → Applied
apply_cpus fs uid path want a =
    let w = set_cpu_set_cpus path (text_or_nil want) in
    let tried = record a { writes = a.writes ++ w ∷ [] } in
    if needs_cpus (lookup uid a.cpu_sets) want
    then (if fs.succeeds w
        then record tried { cpu_sets = put_key uid (text_or_nil want) a.cpu_sets }
        else tried)
    else a

abbrev pub apply_at : Cgroups → String → ℕ → Option Text → Option String → Applied → Applied
apply_at fs uid weight want none a = a
apply_at fs uid weight want (some path) a =
    apply_cpus fs uid path want (apply_weight fs uid path weight a)

-- The maps' entries for pods that are gone are dropped, those that have a weight.
abbrev pub delete_all : {V : Type 0} → List String → List (String × V) → List (String × V)
delete_all [] m = m
delete_all (k ∷ ks) m = delete_all ks (delete_key k m)

unfoldable pub forget : List String → Applied → Applied
forget alive a =
    let gone = map (λ e. e.0) (select (λ e. not (mem_text e.0 alive)) a.weights) in
    record a { weights = delete_all gone a.weights; cpu_sets = delete_all gone a.cpu_sets }

module _ {Quantity : Type 0} ⦃api : QuantityApi Quantity⦄ where
  -- The text of the CPUs that a pod is to be confined to, if it is.
  abbrev pub wanted_cpus : Config → List Pool → Pod Quantity → Option Text
  wanted_cpus cfg pools pod =
      if cfg.cpu_set_enabled then text_of (cpus_for_pod pools pod.uid (level_of pod)) else none

  unfoldable pub apply_pod : Cgroups → Config → List Pool → Pod Quantity → Applied → Applied
  apply_pod fs cfg pools pod a =
      apply_at fs pod.uid (weight_for (level_of pod)) (wanted_cpus cfg pools pod)
        (fs.pod_path pod.uid) a

  unfoldable pub apply_pods : Cgroups → Config → List Pool → List (Pod Quantity) → Applied → Applied
  apply_pods fs cfg pools [] a = a
  apply_pods fs cfg pools (pod ∷ pods) a =
      apply_pods fs cfg pools pods (apply_pod fs cfg pools pod a)

  -- The pass where the cgroups are there, and the writes that it tries.
  unfoldable pub apply_layout : Cgroups → List (Pod Quantity) → Manager → Manager × List Write
  apply_layout fs pods m =
      let pools = compute_pools m.topology m.cfg pods in
      let start : Applied = record {
        weights = m.applied_weight;
        cpu_sets = m.applied_cpu_set;
        writes = [];
      } in
      let end = forget (map (λ pod. pod.uid) pods) (apply_pods fs m.cfg pools pods start) in
      (
        record m {
          applied_weight = end.weights;
          applied_cpu_set = end.cpu_sets;
          last_pools = pools;
        },
        end.writes,
      )

  -- `Reconcile`: `none` is the error that the cgroups are not there.
  unfoldable pub reconcile_pools :
      Bool → Cgroups → List (Pod Quantity) → Manager → Option (Manager × List Write)
  reconcile_pools available fs pods m = if available then some (apply_layout fs pods m) else none

-- `StatusPools` and `StatusZones`
unfoldable pub status_pools : Manager → List CpuSetPool
status_pools m =
    map
      (λ p. record {
        name = p.name;
        qos_level = p.level;
        cpus = to_string p.cpus;
        size = int32 (pos (size p.cpus));
      })
      m.last_pools

unfoldable pub dedicated_union : List Pool → CpuSet → CpuSet
dedicated_union [] out = out
dedicated_union (p ∷ ps) out = dedicated_union ps (
    if level_eq p.level dedicated_cores && not (str_eq p.name "reserved")
    then union out p.cpus
    else out)

unfoldable pub status_zones : Manager → List TopologyZone
status_zones m =
    let dedicated = dedicated_union m.last_pools none_set in
    map
      (λ z. record {
        id = int32 (pos z.id);
        cpus = to_string z.cpus;
        allocatable_cpus = int32 (pos (size (difference z.cpus dedicated)));
      })
      m.topology.zones
