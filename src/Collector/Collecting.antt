-- ===== src/Collector/Collecting.antt =====
-- pkg/agent/collector/collector.go: Collect around the loop over the pods, and estimate. The error
-- of Collect is `none`.
pub mod First
mod Tests
use kqos.Prelude.{
  ℕ, ◌+◌, ◌%◌, Bool, true, false, List, [], ◌∷◌, ◌++◌, Option, none, some, String, str_eq,
  if◌then◌else◌, length, ltb, map,
}
use kqos.Prelude.Int.{ℤ, pos, pos_part}
use kqos.Floats.{FloatApi}
use kqos.Kubernetes.{QuantityApi, Pod, ResourceList, resource_cpu, resource_memory, lookup}
use kqos.Qos.{level_of, pod_requests, pod_limits}
use kqos.Collector.{PodSample, NodeSample}
use kqos.Collector.Sampling.{
  Cgroups, Collector, CpuCounter, CpuStat, Pass, two_64, node_counter_at, workload_or, since, kept,
  psi_or_zero, delta_milli_cores, sample_pods,
}
use kqos.SysAdvisor.Recommend.{milli_of, bytes_of}
use kqos.SysAdvisor.Window.{float_zero}

abbrev pub next_counter : ℤ → CpuCounter → Option CpuStat → CpuCounter
next_counter now prev none = prev
next_counter now prev (some st) = node_counter_at now st

module _ {Float Quantity : Type 0} ⦃f : FloatApi Float⦄ ⦃api : QuantityApi Quantity⦄ where
  open f use {of_int, to_int, add, mul, fraction}

  abbrev pub empty_sample : ℤ → ℤ → NodeSample Float Quantity
  empty_sample now online = record {
    timestamp = now;
    interval = pos 0;
    cpu_milli = float_zero;
    memory_bytes = 0;
    cpu_pressure = psi_or_zero none;
    memory_pressure = psi_or_zero none;
    online_cpus = online;
    pods = [];
    degraded = false;
    valid = false;
  }

  -- The node's rate, if there is one.
  abbrev pub with_node_rate :
      ℤ → Option ℤ → NodeSample Float Quantity → Option Float → NodeSample Float Quantity
  with_node_rate now before sample none = sample
  with_node_rate now before sample (some milli) = record sample {
    cpu_milli = milli;
    valid = true;
    interval = since now before;
  }

  abbrev pub with_node_stat :
      ℤ → CpuCounter → NodeSample Float Quantity → Option CpuStat → NodeSample Float Quantity
  with_node_stat now prev sample none = sample
  with_node_stat now prev sample (some st) =
      with_node_rate now prev.at sample (delta_milli_cores prev st now)

  -- The part of Collect that reads the rollup of all pods, if its path is known.
  unfoldable pub read_rollup :
      Cgroups Float
      → ℤ
      → CpuCounter
      → NodeSample Float Quantity
      → NodeSample Float Quantity × CpuCounter
  read_rollup fs now prev sample =
      let st = fs.cpu_stat fs.kubepods in
      let rated = with_node_stat now prev sample st in
      if str_eq fs.kubepods "" then (sample, prev) else (
        record rated { memory_bytes = workload_or 0 (fs.memory_stat fs.kubepods) },
        next_counter now prev st,
      )

  -- The pressure of the node.
  abbrev pub with_pressure : Cgroups Float → NodeSample Float Quantity → NodeSample Float Quantity
  with_pressure fs sample = record sample {
    cpu_pressure = psi_or_zero (fs.pressure "cpu");
    memory_pressure = psi_or_zero (fs.pressure "memory");
  }

  -- The part of Collect after the loop: without a rollup the pods are summed up.
  unfoldable pub finish_sample :
      Cgroups Float → NodeSample Float Quantity → Pass Float Quantity → NodeSample Float Quantity
  finish_sample fs sample pass =
      if str_eq fs.kubepods ""
      then record sample {
        cpu_milli = pass.cpu_sum;
        memory_bytes = pass.mem_sum;
        valid = ltb 0 (length pass.samples);
        pods = pass.samples;
      }
      else record sample { pods = pass.samples }

  -- The body of the loop of `estimate`. A request is not negative, so that its part fits a uint64.
  abbrev pub estimated_pod : Pod Quantity → PodSample Float Quantity
  estimated_pod pod = record {
    uid = pod.uid;
    namespace = pod.namespace;
    name = pod.name;
    qos_level = level_of pod;
    cpu_milli = mul (of_int (milli_of (pod_requests pod) resource_cpu)) (fraction 4 10);
    memory_bytes =
        pos_part
          (to_int (mul (of_int (bytes_of (pod_requests pod) resource_memory)) (fraction 4 10)));
    throttled_ratio = float_zero;
    requests = pod_requests pod;
    limits = pod_limits pod;
    valid = true;
  }

  unfoldable pub estimate_pods :
      List (Pod Quantity) → NodeSample Float Quantity → NodeSample Float Quantity
  estimate_pods [] sample = sample
  estimate_pods (pod ∷ pods) sample =
      let ps = estimated_pod pod in
      estimate_pods pods (record sample {
        cpu_milli = add sample.cpu_milli ps.cpu_milli;
        memory_bytes = (sample.memory_bytes + ps.memory_bytes) % two_64;
        pods = sample.pods ++ ps ∷ [];
      })

  -- `estimate`; it does not set the number of CPUs.
  unfoldable pub estimate : List (Pod Quantity) → ℤ → NodeSample Float Quantity
  estimate pods now =
      estimate_pods pods (record (empty_sample now (pos 0)) { degraded = true; valid = true })

  -- What stands for the pods before the loop.
  abbrev pub start_of : Collector → Pass Float Quantity
  start_of c = record { counters = c.prev_pods; samples = []; cpu_sum = float_zero; mem_sum = 0 }

  unfoldable pub collect :
      Cgroups Float
      → ℤ
      → List (Pod Quantity)
      → ℤ
      → Collector
      → Option (NodeSample Float Quantity) × Collector
  collect fs now pods online c =
      let node = read_rollup fs now c.prev_node (empty_sample now online) in
      let pass = sample_pods fs now pods (start_of c) in
      if fs.available
      then (
        some (finish_sample fs (with_pressure fs node.0) pass),
        record c { prev_node = node.1; prev_pods = kept (map (λ pod. pod.uid) pods) pass.counters },
      )
      else if c.estimate_when_degraded
      then (some (estimate pods now), c)
      else (none, c)
