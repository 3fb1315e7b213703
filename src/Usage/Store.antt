-- ===== src/Usage/Store.antt =====
-- pkg/usage/store.go: the store of usage reports. The lock makes each operation one step, and the
-- clock is an argument.
pub mod Reachable
pub mod Latest
pub mod Expiry
pub mod Summary
mod Tests
use kqos.Prelude.{
  ℕ, zero, suc, ◌+◌, ◌-◌, ◌≡◌, Bool, true, false, not, ◌&&◌, List, [], ◌∷◌, ◌++◌, Option, none,
  some, String, str_eq, if◌then◌else◌, length, drop, get_or, select, ltb, ◌==◌, mem_text, map,
}
use kqos.Prelude.Int.{ℤ, pos, ltb_ℤ, leb_ℤ, ◌-ℤ◌, ◌*ℤ◌}
use kqos.Floats.{FloatApi}
use kqos.Kubernetes.{lookup, put_key}
use kqos.SysAdvisor.Window.{clamp_rank, rank_of, sort_floats, sum_from, float_zero}
use kqos.Usage.{PodUsage, Report, WorkloadKey, Stats, key_text}

-- `OwnerResolver`, of a namespace, a kind and a name. It is `none` in a store that has no resolver.
abbrev pub OwnerResolver : Type 0
OwnerResolver = Option (String → String → String → Option WorkloadKey)

pub record Sample (Float : Type 0) : Type 0 where
  pub at : ℤ
  pub cpu_milli : Float
  pub memory_bytes : Float
  pub request_cpu : Float
  pub request_mem : Float
  pub pod_uid : String

pub record Series (Float : Type 0) : Type 0 where
  pub key : WorkloadKey
  pub samples : List (Sample Float)
  pub pods : List (String × ℤ)
  pub last : ℤ

pub record Store (Float : Type 0) : Type 0 where
  pub retention : ℤ
  pub max_per_key : ℕ
  pub series : List (String × Series Float)
  pub node_seen : List (String × ℤ)

unfoldable pub new_store : {Float : Type 0} → ℤ → Store Float
new_store retention = record {
  retention = if ltb_ℤ (pos 0) retention then retention else pos 600_000_000_000;
  max_per_key = 4096;
  series = [];
  node_seen = [];
}

-- `s.resolve(p.Namespace, p.OwnerKind, p.OwnerName)`, where there is a resolver
abbrev pub resolved : OwnerResolver → String → String → String → Option WorkloadKey
resolved none namespace kind name = none
resolved (some resolve) namespace kind name = resolve namespace kind name

abbrev pub or_else : {A : Type 0} → Option A → A → A
or_else none a = a
or_else (some b) a = b

-- The last `max` elements.
abbrev pub newest : {A : Type 0} → ℕ → List A → List A
newest max xs = if ltb max (length xs) then drop (length xs - max) xs else xs

-- The last element.
abbrev pub last_of : {A : Type 0} → List A → Option A
last_of [] = none
last_of (x ∷ []) = some x
last_of (x ∷ y ∷ ys) = last_of (y ∷ ys)

-- The different texts of a list.
abbrev pub distinct : List String → List String
distinct [] = []
distinct (k ∷ ks) = let rest = distinct ks in if mem_text k ks then rest else k ∷ rest

module _ {Float : Type 0} ⦃f : FloatApi Float⦄ where
  open f use {of_int, to_int, div}

  -- The workload of a pod, and whether there is one.
  unfoldable pub workload_key : OwnerResolver → PodUsage Float → WorkloadKey × Bool
  workload_key resolve p =
      if not (str_eq p.owner_kind "")
      then (
        or_else (resolved resolve p.namespace p.owner_kind p.owner_name)
            (record { namespace = p.namespace; kind = p.owner_kind; name = p.owner_name }),
        true,
      )
      else (record { namespace = p.namespace; kind = "Pod"; name = p.name }, true)

  abbrev pub sample_of : ℤ → PodUsage Float → Sample Float
  sample_of at p = record {
    at = at;
    cpu_milli = p.cpu_milli;
    memory_bytes = of_int (pos p.memory_bytes);
    request_cpu = of_int p.request_cpu_milli;
    request_mem = of_int p.request_memory_bytes;
    pod_uid = p.uid;
  }

  -- The series that is there or a new one; its `last` is written before it is read.
  abbrev pub series_or_new : WorkloadKey → ℤ → Option (Series Float) → Series Float
  series_or_new key now none = record { key = key; samples = []; pods = []; last = now }
  series_or_new key now (some ser) = ser

  -- The body of the loop of `Ingest`, on the series of the pod.
  unfoldable pub append_sample : ℕ → ℤ → ℤ → PodUsage Float → Series Float → Series Float
  append_sample max at now p ser = record ser {
    samples = newest max (ser.samples ++ sample_of at p ∷ []);
    pods = put_key p.uid at ser.pods;
    last = now;
  }

  unfoldable pub ingest_pod : OwnerResolver → ℤ → ℤ → PodUsage Float → Store Float → Store Float
  ingest_pod resolve at now p s =
      let found = workload_key resolve p in
      let text = key_text found.0 in
      if found.1
      then record s {
        series =
            put_key text
              (append_sample s.max_per_key at now p
                (series_or_new found.0 now (lookup text s.series)))
              s.series;
      }
      else s

  -- The loop of `Ingest`, with the number of pods that are accepted.
  unfoldable pub ingest_pods :
      OwnerResolver → ℤ → ℤ → List (PodUsage Float) → Store Float → Store Float × ℕ
  ingest_pods resolve at now [] s = (s, 0)
  ingest_pods resolve at now (p ∷ ps) s =
      let rest = ingest_pods resolve at now ps (ingest_pod resolve at now p s) in
      (rest.0, if (workload_key resolve p).1 then suc rest.1 else rest.1)

  unfoldable pub ingest : OwnerResolver → Report Float → ℤ → Store Float → Store Float × ℕ
  ingest resolve r now s =
      if r.degraded
      then (s, 0)
      else ingest_pods resolve (or_else r.timestamp now) now r.pods
          (record s { node_seen = put_key r.node now s.node_seen })

  -- `summarise`, with its nearest rank
  unfoldable pub nearest_rank : List Float → Float → Float
  nearest_rank sorted p =
      let n = length sorted in get_or sorted (clamp_rank (rank_of p n) n - 1) float_zero

  unfoldable pub summarise : List Float → Stats Float
  unfolding nearest_rank
  summarise [] = record {
    samples = pos 0;
    p50 = float_zero;
    p90 = float_zero;
    p95 = float_zero;
    p99 = float_zero;
    max = float_zero;
    mean = float_zero;
  }
  summarise (v ∷ vs) =
      let sorted = sort_floats (v ∷ vs) in
      record {
        samples = pos (length sorted);
        p50 = nearest_rank sorted (of_int (pos 50));
        p90 = nearest_rank sorted (of_int (pos 90));
        p95 = nearest_rank sorted (of_int (pos 95));
        p99 = nearest_rank sorted (of_int (pos 99));
        max = get_or sorted (length sorted - 1) float_zero;
        mean = div (sum_from float_zero sorted) (of_int (pos (length sorted)));
      }

  -- `!sm.at.Before(cutoff)`
  abbrev pub is_live : ℤ → Sample Float → Bool
  is_live cutoff sm = not (ltb_ℤ sm.at cutoff)

  -- What `WorkloadStats` answers: the distributions and the number of pods, if there is a sample.
  abbrev pub stats_of_live : List (Sample Float) → Option (Stats Float × Stats Float × ℕ)
  stats_of_live [] = none
  stats_of_live (sm ∷ sms) = some (
    summarise (map (λ x. x.cpu_milli) (sm ∷ sms)),
    summarise (map (λ x. x.memory_bytes) (sm ∷ sms)),
    length (distinct (map (λ x. x.pod_uid) (sm ∷ sms))),
  )

  abbrev pub stats_since : ℤ → Option (Series Float) → Option (Stats Float × Stats Float × ℕ)
  stats_since cutoff none = none
  stats_since cutoff (some ser) = stats_of_live (select (is_live cutoff) ser.samples)

  unfoldable pub workload_stats :
      Store Float → WorkloadKey → ℤ → Option (Stats Float × Stats Float × ℕ)
  workload_stats s key now = stats_since (now -ℤ s.retention) (lookup (key_text key) s.series)

  abbrev pub requests_of : Option (Sample Float) → Option (ℤ × ℤ)
  requests_of none = none
  requests_of (some sm) = some (to_int sm.request_cpu, to_int sm.request_mem)

  abbrev pub last_sample : Option (Series Float) → Option (Sample Float)
  last_sample none = none
  last_sample (some ser) = last_of ser.samples

  unfoldable pub workload_requests : Store Float → WorkloadKey → Option (ℤ × ℤ)
  workload_requests s key = requests_of (last_sample (lookup (key_text key) s.series))

  -- `sort` is `sort.Slice` by the keys' texts.
  unfoldable pub keys : (List WorkloadKey → List WorkloadKey) → Store Float → List WorkloadKey
  keys sort s = sort (map (λ e. e.1.key) s.series)

  -- The copy that `Nodes` answers.
  abbrev pub nodes : Store Float → List (String × ℤ)
  nodes s = s.node_seen

  -- `len(ser.samples) == 0 && now.Sub(ser.last) > 2*s.retention`
  abbrev pub is_gone : ℤ → ℤ → Series Float → Bool
  is_gone now retention ser =
      length ser.samples == 0 && ltb_ℤ (pos 2 *ℤ retention) (now -ℤ ser.last)

  abbrev pub without_expired : ℤ → Series Float → Series Float
  without_expired cutoff ser = record ser { samples = select (is_live cutoff) ser.samples }

  unfoldable pub gc_series : ℤ → ℤ → List (String × Series Float) → List (String × Series Float)
  gc_series now retention [] = []
  gc_series now retention ((k, ser) ∷ m) =
      let rest = gc_series now retention m in
      let kept = without_expired (now -ℤ retention) ser in
      if is_gone now retention kept then rest else (k, kept) ∷ rest

  unfoldable pub gc : ℤ → Store Float → Store Float
  gc now s = record s {
    series = gc_series now s.retention s.series;
    node_seen = select (λ e. not (ltb_ℤ (pos 2 *ℤ s.retention) (now -ℤ e.1))) s.node_seen;
  }
