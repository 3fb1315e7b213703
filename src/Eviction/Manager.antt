-- ===== src/Eviction/Manager.antt =====
-- pkg/agent/eviction/manager.go: one pass of the eviction manager. The eviction API is a parameter,
-- its answer to each verdict; log lines, metrics and events are left out.
use Prim.Native.String.{◌++◌ as str_append}
use kqos.Prelude.{
  ℕ, ◌+◌, Bool, true, false, not, ◌&&◌, List, [], ◌∷◌, ◌++◌, Option, none, some, String, length,
  mem_text, if◌then◌else◌,
}
use kqos.Prelude.Int.{ℤ, pos, ◌-ℤ◌, ◌*ℤ◌, ltb_ℤ, leb_ℤ}
use kqos.Api.{evictable}
use kqos.Eviction.Bucket.{TokenBucket, new_token_bucket, configure, take}
use kqos.Eviction.Signals.{EvictionConfig, Plugin, Signal, Verdict}
use kqos.Floats.{FloatApi}
use kqos.Kubernetes.{QuantityApi, lookup, put_key}
use kqos.Qos.{level_of, is_mirror_pod, is_terminal}
use kqos.SysAdvisor.Advisor.{no_pressure, pressure_eq}

abbrev pub minute : ℤ
minute = pos 60_000_000_000

-- What `EvictV1` answers: 429 where a disruption budget forbids the eviction.
pub data ApiAnswer : Type 0 where
  accepted too_many_requests failed : ApiAnswer

pub record Manager (Float Quantity : Type 0) : Type 0 where
  pub plugins : List (Plugin Float Quantity)
  pub budget : TokenBucket Float
  pub breached_since : Option ℤ
  pub recently_evicted : List (String × ℤ)

pub record Result (Float Quantity : Type 0) : Type 0 where
  pub proposed : ℕ
  pub evicted : List (Verdict Float Quantity)
  pub suppressed : List (String × ℕ)

-- The variables of the loop over the verdicts.
pub record Pass (Float Quantity : Type 0) : Type 0 where
  pub manager : Manager Float Quantity
  pub result : Result Float Quantity
  pub seen : List String

abbrev pub is_empty : {A : Type 0} → List A → Bool
is_empty [] = true
is_empty (x ∷ xs) = false

abbrev pub one_more : Option ℕ → ℕ
one_more none = 1
one_more (some n) = n + 1

-- `for k, at := range recentlyEvicted { if now.Sub(at) > 10*time.Minute { delete(...) } }`
unfoldable pub recent_only : ℤ → List (String × ℤ) → List (String × ℤ)
recent_only now [] = []
recent_only now ((k, at) ∷ m) =
    if ltb_ℤ (pos 600_000_000_000) (now -ℤ at)
    then recent_only now m
    else (k, at) ∷ recent_only now m

abbrev pub is_system_priority : Option ℤ → Bool
is_system_priority none = false
is_system_priority (some p) = leb_ℤ (pos 2_000_000_000) p

abbrev pub is_recent : Option ℤ → ℤ → Bool
is_recent none now = false
is_recent (some at) now = ltb_ℤ (now -ℤ at) (pos 120_000_000_000)

-- Whether the stabilisation period is not over.
abbrev pub not_over : Option ℤ → ℤ → ℤ → Bool
not_over none now wait = true
not_over (some t) now wait = ltb_ℤ (now -ℤ t) wait

module _ {Float Quantity : Type 0} where
  -- `res.Suppressed[cause]++`
  unfoldable pub suppress : Result Float Quantity → String → Result Float Quantity
  suppress r cause = record r {
    suppressed = put_key cause (one_more (lookup cause r.suppressed)) r.suppressed;
  }

  abbrev pub no_result : Result Float Quantity
  no_result = record { proposed = 0; evicted = []; suppressed = [] }

  unfoldable pub key_of : Verdict Float Quantity → String
  key_of v = str_append v.pod.namespace (str_append "/" v.pod.name)

  unfoldable pub track_breach :
      Manager Float Quantity → Signal Float Quantity → ℤ → Manager Float Quantity
  track_breach m sig now =
      if pressure_eq sig.recommendation.pressure.level no_pressure
      then record m { breached_since = none }
      else elim m.breached_since [ none ↦ record m { breached_since = some now } | some t ↦ m ]

  -- The verdicts of all plugins, in the order of the plugins; one that fails adds none.
  unfoldable pub propose :
      List (Plugin Float Quantity) → Signal Float Quantity → List (Verdict Float Quantity)
  propose [] sig = []
  propose (p ∷ ps) sig = elim (p.evaluate sig) [
    | none ↦ propose ps sig
    | some vs ↦ vs ++ propose ps sig
  ]

  unfoldable pub is_stabilising : Manager Float Quantity → EvictionConfig → ℤ → Bool
  is_stabilising m config now =
      let wait = config.stabilisation_seconds *ℤ pos 1_000_000_000 in
      ltb_ℤ (pos 0) wait && not_over m.breached_since now wait

  unfoldable pub gc_recent : Manager Float Quantity → ℤ → Manager Float Quantity
  unfolding recent_only
  gc_recent m now = record m { recently_evicted = recent_only now m.recently_evicted }

module _ {Float Quantity : Type 0} ⦃f : FloatApi Float⦄ ⦃api : QuantityApi Quantity⦄ where
  unfoldable pub new_manager : List (Plugin Float Quantity) → Manager Float Quantity
  new_manager plugins = record {
    plugins = plugins;
    budget = new_token_bucket (pos 3) minute;
    breached_since = none;
    recently_evicted = [];
  }

  -- The rule that forbids the eviction, if any.
  unfoldable pub veto : Manager Float Quantity → Verdict Float Quantity → ℤ → Option String
  unfolding key_of
  veto m v now =
      if not (evictable (level_of v.pod))
      then some "system-tier"
      else if is_mirror_pod v.pod
      then some "mirror-pod"
      else if v.pod.deleting
      then some "already-terminating"
      else if is_terminal v.pod
      then some "already-terminal"
      else if is_system_priority v.pod.priority
      then some "system-critical-priority"
      else if is_recent (lookup (key_of v) m.recently_evicted) now
      then some "recently-evicted"
      else none

  -- What follows the API's answer.
  unfoldable pub settle :
      Pass Float Quantity → Verdict Float Quantity → ℤ → ApiAnswer → Pass Float Quantity
  unfolding key_of
  settle s v now accepted =
      let m = record s.manager {
        recently_evicted = put_key (key_of v) now s.manager.recently_evicted;
      } in
      record s { manager = m; result = record s.result { evicted = s.result.evicted ++ v ∷ [] } }
  settle s v now too_many_requests = record s { result = suppress s.result "disruption-budget" }
  settle s v now failed = record s { result = suppress s.result "api-error" }

  -- The loop's body, and whether it goes on.
  unfoldable pub consider :
      (Verdict Float Quantity → ApiAnswer)
      → Bool
      → ℤ
      → Verdict Float Quantity
      → Pass Float Quantity
      → Bool × Pass Float Quantity
  unfolding key_of
  consider answer dry_run now v s =
      let noted = record s { seen = key_of v ∷ s.seen } in
      let taken = take s.manager.budget now in
      let paid = record noted { manager = record s.manager { budget = taken.1 } } in
      if mem_text (key_of v) s.seen then (true, s) else elim (veto s.manager v now) [
        | some cause ↦ (true, record noted { result = suppress s.result cause })
        | none ↦
            if not taken.0
            then (false, record paid { result = suppress s.result "rate-limited" })
            else if dry_run
            then (true, record paid { result = suppress s.result "dry-run" })
            else (true, settle paid v now (answer v))
      ]

  unfoldable pub consider_all :
      (Verdict Float Quantity → ApiAnswer)
      → Bool
      → ℤ
      → List (Verdict Float Quantity)
      → Pass Float Quantity
      → Pass Float Quantity
  consider_all answer dry_run now [] s = s
  consider_all answer dry_run now (v ∷ vs) s =
      let next = consider answer dry_run now v s in
      let rest = consider_all answer dry_run now vs next.1 in if next.0 then rest else next.1

  -- The state in which the loop starts.
  abbrev pub start_of :
      EvictionConfig → List (Verdict Float Quantity) → Manager Float Quantity → Pass Float Quantity
  start_of config verdicts m = record {
    manager = record m { budget = configure m.budget config.max_evictions_per_minute minute };
    result = record { proposed = length verdicts; evicted = []; suppressed = [] };
    seen = [];
  }

  -- `Run` from the call of `configure` on.
  unfoldable pub carry_out :
      (Verdict Float Quantity → ApiAnswer)
      → EvictionConfig
      → ℤ
      → List (Verdict Float Quantity)
      → Manager Float Quantity
      → Result Float Quantity × Manager Float Quantity
  carry_out answer config now verdicts m =
      let pass = consider_all answer config.dry_run now verdicts (start_of config verdicts m) in
      (pass.result, gc_recent pass.manager now)

  unfoldable pub run :
      (Verdict Float Quantity → ApiAnswer)
      → Manager Float Quantity
      → Signal Float Quantity
      → ℤ
      → Result Float Quantity × Manager Float Quantity
  run answer m sig now =
      let tracked = track_breach m sig now in
      let verdicts = propose tracked.plugins sig in
      if not sig.config.enabled
      then (no_result, m)
      else if sig.sample.degraded
      then (suppress no_result "degraded-sample", m)
      else if is_empty verdicts
      then (no_result, tracked)
      else if is_stabilising tracked sig.config now
      then (
        record {
          proposed = length verdicts;
          evicted = [];
          suppressed = ("stabilising", length verdicts) ∷ [];
        },
        tracked,
      )
      else carry_out answer sig.config now verdicts tracked
