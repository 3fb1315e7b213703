-- ===== src/CpuPool/Topology.antt =====
-- pkg/agent/cpupool/topology.go: the NUMA zones, and the choice of one. A zone's id is read from a
-- CPU list, so that it is no negative number.
use kqos.Prelude.{ℕ, Bool, true, ◌&&◌, List, [], ◌∷◌, Option, none, some, ltb, if◌then◌else◌}
use kqos.Prelude.Int.{ℤ, pos, negsuc, leb_ℤ}
use kqos.CpuSet.{CpuSet, size, contains, intersection}

pub record Zone : Type 0 where
  pub id : ℕ
  pub cpus : CpuSet

pub record Topology : Type 0 where
  pub zones : List Zone
  pub online : CpuSet

unfoldable pub total_cpus : Topology → ℕ
total_cpus t = size t.online

abbrev pub zone_of_list : List Zone → ℕ → ℤ
zone_of_list [] cpu = negsuc 0
zone_of_list (z ∷ zs) cpu = if contains z.cpus cpu then pos z.id else zone_of_list zs cpu

unfoldable pub zone_of : Topology → ℕ → ℤ
zone_of t cpu = zone_of_list t.zones cpu

-- `z.CPUs.Intersection(free).Size()`
abbrev pub free_in : CpuSet → Zone → ℕ
free_in free z = size (intersection z.cpus free)

-- `bestFree < 0 || n < bestFree`; no zone yet is the source's -1.
abbrev pub is_tighter : CpuSet → Zone → Option Zone → Bool
is_tighter free z none = true
is_tighter free z (some best) = ltb (free_in free z) (free_in free best)

abbrev pub better : CpuSet → ℤ → Zone → Option Zone → Option Zone
better free want z best =
    if leb_ℤ want (pos (free_in free z)) && is_tighter free z best then some z else best

unfoldable pub best_zone : CpuSet → ℤ → List Zone → Option Zone → Option Zone
best_zone free want [] best = best
best_zone free want (z ∷ zs) best = best_zone free want zs (better free want z best)

unfoldable pub zone_for : Topology → CpuSet → ℤ → Option Zone
unfolding best_zone
zone_for t free want = best_zone free want t.zones none
