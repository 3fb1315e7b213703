-- ===== src/Collector/Sampling.antt =====
-- pkg/agent/collector/collector.go: the loop of Collect over the pods, and what it reads by
-- pkg/agent/cgroup/cgroup.go. What the cgroup files, the resolver of paths and the clock answer is an
-- argument; a read that fails is `none`. The resolver's cache is left out. A uint64 is a natural number below 2^64.
use kqos.Prelude.{
  ℕ, ◌+◌, ◌-◌, ◌%◌, Bool, true, false, ◌&&◌, List, [], ◌∷◌, ◌++◌, Option, none, some, String,
  if◌then◌else◌, select, ltb, ◌==◌, mem_text,
}
use kqos.Prelude.Int.{ℤ, pos, leb_ℤ, ◌-ℤ◌, ◌/ℤ◌}
use kqos.Floats.{FloatApi}
use kqos.Kubernetes.{QuantityApi, Pod, lookup, put_key}
use kqos.Qos.{level_of, pod_requests, pod_limits}
use kqos.Collector.{PodSample, Psi}
use kqos.SysAdvisor.Window.{float_zero}

abbrev pub two_64 : ℕ
two_64 = 18_446_744_073_709_551_616

-- The part of CPUStat that is read here.
pub record CpuStat : Type 0 where
  pub usage_usec : ℕ
  pub nr_periods : ℕ
  pub nr_throttled : ℕ

-- The part of MemoryStat that `Workload` reads.
pub record MemoryStat : Type 0 where
  pub current : ℕ
  pub anon : ℕ
  pub file : ℕ
  pub inactive_file : ℕ
  pub slab : ℕ

-- `MemoryStat.Workload`
unfoldable pub workload : MemoryStat → ℕ
workload m =
    let active = if ltb m.file m.inactive_file then 0 else m.file - m.inactive_file in
    if m.anon == 0 && m.slab == 0 then m.current else (m.anon + m.slab + active) % two_64

pub record Cgroups (Float : Type 0) : Type 0 where
  pub available : Bool
  -- `KubepodsPath` and `PodPath`
  pub kubepods : String
  pub pod_path : String → Option String
  pub cpu_stat : String → Option CpuStat
  pub memory_stat : String → Option MemoryStat
  -- `Pressure` of the root
  pub pressure : String → Option (Psi Float)

pub record CpuCounter : Type 0 where
  pub usage_usec : ℕ
  pub nr_periods : ℕ
  pub nr_throttled : ℕ
  pub at : Option ℤ

pub record Collector : Type 0 where
  pub prev_pods : List (String × CpuCounter)
  pub prev_node : CpuCounter
  pub estimate_when_degraded : Bool

abbrev pub no_counter : CpuCounter
no_counter = record { usage_usec = 0; nr_periods = 0; nr_throttled = 0; at = none }

unfoldable pub new_collector : Bool → Collector
new_collector estimate = record {
  prev_pods = [];
  prev_node = no_counter;
  estimate_when_degraded = estimate;
}

abbrev pub counter_at : ℤ → CpuStat → CpuCounter
counter_at now st = record {
  usage_usec = st.usage_usec;
  nr_periods = st.nr_periods;
  nr_throttled = st.nr_throttled;
  at = some now;
}

-- What is kept of the node's counter: `cpuCounter{usageUsec: st.UsageUsec, at: now}`.
abbrev pub node_counter_at : ℤ → CpuStat → CpuCounter
node_counter_at now st = record no_counter { usage_usec = st.usage_usec; at = some now }

-- `a - b` in 64 bits.
abbrev sub_64 : ℕ → ℕ → ℕ
sub_64 a b = (a + two_64 - b) % two_64

-- `st.Workload()`, or what is there already if the read failed.
abbrev pub workload_or : ℕ → Option MemoryStat → ℕ
workload_or d none = d
workload_or d (some m) = workload m

-- The time since the counter was read.
abbrev pub since : ℤ → Option ℤ → ℤ
since now none = pos 0
since now (some at) = now -ℤ at

-- The counters of pods that are still there.
abbrev pub kept : List String → List (String × CpuCounter) → List (String × CpuCounter)
kept uids counters = select (λ e. mem_text e.0 uids) counters

module _ {Float : Type 0} ⦃f : FloatApi Float⦄ where
  open f use {of_int, mul, div}

  abbrev rate_since : Option ℤ → ℕ → ℕ → ℤ → Option Float
  rate_since none before usage now = none
  rate_since (some at) before usage now =
      let elapsed = now -ℤ at in
      if ltb usage before
      then none
      else if leb_ℤ elapsed (pos 0)
      then none
      else some (
          mul (div (of_int (pos (usage - before))) (of_int (elapsed /ℤ pos 1000)))
            (of_int (pos 1000)))

  unfoldable pub delta_milli_cores : CpuCounter → CpuStat → ℤ → Option Float
  delta_milli_cores prev cur now = rate_since prev.at prev.usage_usec cur.usage_usec now

  unfoldable pub throttled : CpuCounter → CpuStat → Float
  throttled prev cur =
      let d = sub_64 cur.nr_periods prev.nr_periods in
      if ltb 0 d
      then div (of_int (pos (sub_64 cur.nr_throttled prev.nr_throttled))) (of_int (pos d))
      else float_zero

  -- A reading of the pressure, or none.
  abbrev pub psi_or_zero : Option (Psi Float) → Psi Float
  psi_or_zero (some psi) = psi
  psi_or_zero none = record {
    some_avg10 = float_zero;
    some_avg60 = float_zero;
    some_avg300 = float_zero;
    full_avg10 = float_zero;
    full_avg60 = float_zero;
    full_avg300 = float_zero;
  }

-- The variables of the loop over the pods.
pub record Pass (Float Quantity : Type 0) : Type 0 where
  pub counters : List (String × CpuCounter)
  pub samples : List (PodSample Float Quantity)
  pub cpu_sum : Float
  pub mem_sum : ℕ

module _ {Float Quantity : Type 0} ⦃f : FloatApi Float⦄ ⦃api : QuantityApi Quantity⦄ where
  open f use {of_int, to_int, add, mul, fraction}
  open api use {milli_value, value}

  -- A pod's sample before anything is read.
  abbrev pub blank_sample : Pod Quantity → PodSample Float Quantity
  blank_sample pod = record {
    uid = pod.uid;
    namespace = pod.namespace;
    name = pod.name;
    qos_level = level_of pod;
    cpu_milli = float_zero;
    memory_bytes = 0;
    throttled_ratio = float_zero;
    requests = pod_requests pod;
    limits = pod_limits pod;
    valid = false;
  }

  abbrev pub with_figure :
      PodSample Float Quantity → CpuCounter → CpuStat → Option Float → PodSample Float Quantity
  with_figure ps prev cur none = ps
  with_figure ps prev cur (some milli) = record ps {
    cpu_milli = milli;
    valid = true;
    throttled_ratio = throttled prev cur;
  }

  -- A pod that was not read before has no rate.
  unfoldable pub with_rate :
      PodSample Float Quantity → Option CpuCounter → CpuStat → ℤ → PodSample Float Quantity
  with_rate ps none cur now = ps
  with_rate ps (some prev) cur now = with_figure ps prev cur (delta_milli_cores prev cur now)

  -- A pod whose counters were read, or could not be.
  abbrev pub sample_read :
      Cgroups Float
      → ℤ
      → Pod Quantity
      → String
      → Option CpuStat
      → Pass Float Quantity
      → Pass Float Quantity
  sample_read fs now pod path none pass = record pass {
    samples = pass.samples ++ blank_sample pod ∷ [];
  }
  sample_read fs now pod path (some cur) pass =
      let rated = with_rate (blank_sample pod) (lookup pod.uid pass.counters) cur now in
      let ps = record rated { memory_bytes = workload_or 0 (fs.memory_stat path) } in
      record {
        counters = put_key pod.uid (counter_at now cur) pass.counters;
        samples = pass.samples ++ ps ∷ [];
        cpu_sum = add pass.cpu_sum ps.cpu_milli;
        mem_sum = (pass.mem_sum + ps.memory_bytes) % two_64;
      }

  abbrev pub sample_at_path :
      Cgroups Float → ℤ → Pod Quantity → Option String → Pass Float Quantity → Pass Float Quantity
  sample_at_path fs now pod none pass = record pass {
    samples = pass.samples ++ blank_sample pod ∷ [];
  }
  sample_at_path fs now pod (some path) pass = sample_read fs now pod path (fs.cpu_stat path) pass

  unfoldable pub sample_pod :
      Cgroups Float → ℤ → Pod Quantity → Pass Float Quantity → Pass Float Quantity
  sample_pod fs now pod pass = sample_at_path fs now pod (fs.pod_path pod.uid) pass

  unfoldable pub sample_pods :
      Cgroups Float → ℤ → List (Pod Quantity) → Pass Float Quantity → Pass Float Quantity
  sample_pods fs now [] pass = pass
  sample_pods fs now (pod ∷ pods) pass = sample_pods fs now pods (sample_pod fs now pod pass)
