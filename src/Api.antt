-- ===== src/Api.antt =====
-- pkg/apis/kqos/v1alpha1/qos.go: the service levels, and the names by which objects refer to them.
pub mod Levels
use kqos.Prelude.{ℕ, Bool, true, false, not, List, [], ◌∷◌, String, str_eq, if◌then◌else◌}

-- `type QoSLevel string`: the four constants, and any other text.
pub data QosLevel : Type 0 where
  dedicated_cores shared_cores reclaimed_cores system_cores : QosLevel
  other_level : String → QosLevel

-- The conversion `QoSLevel(v)` of a text.
unfoldable pub to_level : String → QosLevel
to_level v =
    if str_eq v "dedicated_cores"
    then dedicated_cores
    else if str_eq v "shared_cores"
    then shared_cores
    else if str_eq v "reclaimed_cores"
    then reclaimed_cores
    else if str_eq v "system_cores"
    then system_cores
    else other_level v

-- The conversion `string(level)`.
abbrev pub level_text : QosLevel → String
level_text dedicated_cores = "dedicated_cores"
level_text shared_cores = "shared_cores"
level_text reclaimed_cores = "reclaimed_cores"
level_text system_cores = "system_cores"
level_text (other_level v) = v

-- `k == q` on levels
abbrev pub level_eq : QosLevel → QosLevel → Bool
level_eq dedicated_cores dedicated_cores = true
level_eq shared_cores shared_cores = true
level_eq reclaimed_cores reclaimed_cores = true
level_eq system_cores system_cores = true
level_eq (other_level v) (other_level w) = str_eq v w
level_eq _ _ = false

abbrev pub known_levels : List QosLevel
known_levels = system_cores ∷ dedicated_cores ∷ shared_cores ∷ reclaimed_cores ∷ []

abbrev pub is_one_of : QosLevel → List QosLevel → Bool
is_one_of q [] = false
is_one_of q (k ∷ ks) = if level_eq k q then true else is_one_of q ks

unfoldable pub is_valid : QosLevel → Bool
is_valid q = is_one_of q known_levels

unfoldable pub eviction_rank : QosLevel → ℕ
eviction_rank reclaimed_cores = 3
eviction_rank shared_cores = 2
eviction_rank dedicated_cores = 1
eviction_rank system_cores = 0
eviction_rank (other_level v) = 2

unfoldable pub evictable : QosLevel → Bool
evictable q = not (level_eq q system_cores)

abbrev pub annotation_qos_level : String
annotation_qos_level = "kqos.io/qos-level"

abbrev pub annotation_numa_binding : String
annotation_numa_binding = "kqos.io/numa-binding"

abbrev pub annotation_cpu_set_pool : String
annotation_cpu_set_pool = "kqos.io/cpuset-pool"

abbrev pub annotation_original_resources : String
annotation_original_resources = "kqos.io/original-resources"

abbrev pub resource_reclaimed_cpu : String
resource_reclaimed_cpu = "kqos.io/reclaimed-cpu"

abbrev pub resource_reclaimed_memory : String
resource_reclaimed_memory = "kqos.io/reclaimed-memory"
