-- ===== src/Eviction/Plugins.antt =====
-- pkg/agent/eviction/plugins.go: the three plugins. `sort.SliceStable` is the stable insertion sort,
-- which its documentation determines; `sort.Slice`, which leaves the order of equal elements open,
-- is a parameter.
pub mod Tiers
use kqos.Prelude.{
  ℕ, ◌+◌, ◌≡◌, Bool, true, false, not, ◌&&◌, ◌||◌, List, [], ◌∷◌, Option, none, some, String, ◌==◌,
  ltb, if◌then◌else◌,
}
use kqos.Prelude.Int.{ℤ, pos, ◌-ℤ◌, ◌+ℤ◌, ◌*ℤ◌, ◌/ℤ◌, ltb_ℤ, leb_ℤ, int64}
use kqos.Api.{QosLevel, eviction_rank, level_eq, reclaimed_cores}
use kqos.Collector.{PodSample}
use kqos.Eviction.Signals.{Plugin, Signal, Verdict}
use kqos.Floats.{FloatApi}
use kqos.Kubernetes.{QuantityApi, Pod, lookup, resource_cpu, resource_memory}
use kqos.Qos.{effective_requests, level_of}
use kqos.SysAdvisor.Advisor.{no_pressure, pressure_eq}
use kqos.SysAdvisor.Recommend.{bytes_of, milli_of}

pub record PodUsage (Float Quantity : Type 0) : Type 0 where
  pub pod : Pod Quantity
  pub level : QosLevel
  pub cpu_milli : Float
  pub memory_bytes : ℕ

module _ {A : Type 0} (before : A → A → Bool) where
  unfoldable pub insert_stable : A → List A → List A
  insert_stable v [] = v ∷ []
  insert_stable v (x ∷ xs) = if before x v then x ∷ insert_stable v xs else v ∷ x ∷ xs

  -- `sort.SliceStable`
  unfoldable pub sort_stable : List A → List A
  unfolding insert_stable
  sort_stable [] = []
  sort_stable (v ∷ vs) = insert_stable v (sort_stable vs)

module _ {Float Quantity : Type 0} ⦃f : FloatApi Float⦄ ⦃api : QuantityApi Quantity⦄ where
  open f use {of_int, to_int, less, div}

  abbrev pub measured : Option (PodSample Float Quantity) → Float × ℕ
  measured none = (of_int (pos 0), 0)
  measured (some s) = (s.cpu_milli, s.memory_bytes)

  abbrev pub usage_of : Signal Float Quantity → Pod Quantity → PodUsage Float Quantity
  usage_of sig pod =
      let m = measured (lookup pod.uid sig.sample_by_uid) in
      record { pod = pod; level = level_of pod; cpu_milli = m.0; memory_bytes = m.1 }

  unfoldable pub usages_for :
      Signal Float Quantity → List (Pod Quantity) → List (PodUsage Float Quantity)
  usages_for sig [] = []
  usages_for sig (pod ∷ pods) = usage_of sig pod ∷ usages_for sig pods

  -- The comparison of `rankByTierThenUsage`.
  unfoldable pub tier_before :
      (PodUsage Float Quantity → Float) → PodUsage Float Quantity → PodUsage Float Quantity → Bool
  tier_before weight a b =
      let ra = eviction_rank a.level in
      let rb = eviction_rank b.level in if ra == rb then less (weight b) (weight a) else ltb rb ra

  unfoldable pub rank_by_tier_then_usage :
      Signal Float Quantity → (PodUsage Float Quantity → Float) → List (PodUsage Float Quantity)
  rank_by_tier_then_usage sig weight = sort_stable (tier_before weight) (usages_for sig sig.pods)

  abbrev pub memory_of : PodUsage Float Quantity → Float
  memory_of u = of_int (pos u.memory_bytes)

  abbrev pub memory_verdict : PodUsage Float Quantity → Verdict Float Quantity
  memory_verdict c = record {
    pod = c.pod;
    plugin = "memory-pressure";
    reason = "NodeMemoryPressure";
    score = memory_of c;
    releases_cpu_milli = pos 0;
    releases_memory_bytes = int64 (pos c.memory_bytes);
  }

  -- The loop over the candidates.
  unfoldable pub free_until : ℤ → List (PodUsage Float Quantity) → ℤ → List (Verdict Float Quantity)
  free_until must_free [] freed = []
  free_until must_free (c ∷ cs) freed =
      let rest = free_until must_free cs (int64 (freed +ℤ int64 (pos c.memory_bytes))) in
      if leb_ℤ must_free freed then [] else memory_verdict c ∷ rest

  unfoldable pub memory_pressure : Signal Float Quantity → Option (List (Verdict Float Quantity))
  memory_pressure sig =
      let mem_alloc = bytes_of sig.allocatable resource_memory in
      let threshold = sig.config.memory_pressure_threshold_percent in
      let used = int64 (pos sig.sample.memory_bytes) in
      let util_percent = int64 (used *ℤ pos 100) /ℤ mem_alloc in
      let target = int64 (mem_alloc *ℤ (threshold -ℤ pos 5)) /ℤ pos 100 in
      let must_free = int64 (used -ℤ target) in
      if leb_ℤ mem_alloc (pos 0)
      then some []
      else if ltb_ℤ util_percent threshold
      then some []
      else if leb_ℤ must_free (pos 0)
      then some []
      else some (free_until must_free (rank_by_tier_then_usage sig memory_of) (pos 0))

  unfoldable pub reclaimed_only : List (PodUsage Float Quantity) → List (PodUsage Float Quantity)
  reclaimed_only [] = []
  reclaimed_only (u ∷ us) =
      if level_eq u.level reclaimed_cores then u ∷ reclaimed_only us else reclaimed_only us

  abbrev pub first_only : List (PodUsage Float Quantity) → List (Verdict Float Quantity)
  first_only [] = []
  first_only (top ∷ us) =
      record {
        pod = top.pod;
        plugin = "cpu-suppression";
        reason = "NodeCPUSuppression";
        score = top.cpu_milli;
        releases_cpu_milli = to_int top.cpu_milli;
        releases_memory_bytes = pos 0;
      }
      ∷ []

  -- The verdict on a pod that uses three times its request or more.
  abbrev pub overrun_verdict : PodUsage Float Quantity → Float → Verdict Float Quantity
  overrun_verdict u ratio = record {
    pod = u.pod;
    plugin = "reclaimed-overrun";
    reason = "ReclaimedOverrun";
    score = ratio;
    releases_cpu_milli = to_int u.cpu_milli;
    releases_memory_bytes = pos 0;
  }

  unfoldable pub overruns : List (PodUsage Float Quantity) → List (Verdict Float Quantity)
  overruns [] = []
  overruns (u ∷ us) =
      let req_milli = milli_of (effective_requests u.pod) resource_cpu in
      let ratio = div u.cpu_milli (of_int req_milli) in
      let rest = overruns us in
      if not (level_eq u.level reclaimed_cores)
      then rest
      else if leb_ℤ req_milli (pos 0)
      then rest
      else if less ratio (of_int (pos 3))
      then rest
      else overrun_verdict u ratio ∷ rest

  -- `sort` is `sort.Slice`
  unfoldable pub cpu_suppression :
      ((PodUsage Float Quantity → PodUsage Float Quantity → Bool)
        → List (PodUsage Float Quantity)
        → List (PodUsage Float Quantity))
      → Signal Float Quantity
      → Option (List (Verdict Float Quantity))
  cpu_suppression sort sig =
      let p = sig.recommendation.pressure in
      if ltb_ℤ p.cpu_some_stalled_percent sig.config.cpu_some_stalled_threshold_percent
        && ltb_ℤ p.cpu_utilization_percent sig.config.cpu_pressure_threshold_percent
      then some []
      else some (
          first_only
            (sort (λ a b. less b.cpu_milli a.cpu_milli) (reclaimed_only (usages_for sig sig.pods))))

  unfoldable pub reclaimed_overrun :
      ((Verdict Float Quantity → Verdict Float Quantity → Bool)
        → List (Verdict Float Quantity)
        → List (Verdict Float Quantity))
      → Signal Float Quantity
      → Option (List (Verdict Float Quantity))
  reclaimed_overrun sort sig =
      if pressure_eq sig.recommendation.pressure.level no_pressure
      then some []
      else some (sort (λ a b. less b.score a.score) (overruns (usages_for sig sig.pods)))
