-- ===== src/Collector/Collecting/Tests.antt =====
-- Two readings of two concrete pods.
use kqos.Prelude.{◌≡◌, refl, true, false, [], ◌∷◌, none, some}
use kqos.Prelude.Int.{ℤ, pos, ◌-ℤ◌, ◌*ℤ◌, ◌/ℤ◌}
use kqos.Collector.{NodeSample}
use kqos.Collector.Sampling.{Cgroups, CpuStat, new_collector, delta_milli_cores, workload}
use kqos.Collector.Collecting.{collect}
use kqos.Collector.Collecting.First.{IsFirst, collect-IsFirst}
use kqos.Samples.{Amount, amounts, whole_floats, pod_of}

-- The pods have used so much each, and 256 bytes.
abbrev used : CpuStat → Cgroups ℤ
used stat = record {
  available = true;
  kubepods = "kubepods";
  pod_path = λ uid. some uid;
  cpu_stat = λ path. some stat;
  memory_stat = λ path.
      some (record { current = 512; anon = 128; file = 256; inactive_file = 192; slab = 64 });
  pressure = λ resource. none;
}

abbrev early : CpuStat
early = record { usage_usec = 5000; nr_periods = 10; nr_throttled = 1 }

collect-IsFirst_example :
    (sample : NodeSample ℤ Amount) × ((collect
        (used early)
        (pos 1_000_000)
        (pod_of "a" 1 ∷ pod_of "b" 2 ∷ [])
        (pos 4)
        (new_collector false)).0
      ≡ some sample)
    × IsFirst (used early) (pod_of "a" 1 ∷ pod_of "b" 2 ∷ []) sample
collect-IsFirst_example =
    collect-IsFirst (used early) (pos 1_000_000) (pod_of "a" 1 ∷ pod_of "b" 2 ∷ []) (pos 4) false
      refl

-- Eight milliseconds of use in four are two cores.
delta_test :
    delta_milli_cores
      (record { usage_usec = 5000; nr_periods = 10; nr_throttled = 1; at = some (pos 1_000_000) })
      (record { usage_usec = 13_000; nr_periods = 14; nr_throttled = 5 })
      (pos 5_000_000)
    ≡ some (pos 2000)
unfolding delta_milli_cores ◌-ℤ◌ ◌*ℤ◌ ◌/ℤ◌
delta_test = refl

workload_test :
    workload (record { current = 512; anon = 128; file = 256; inactive_file = 192; slab = 64 })
    ≡ 256
unfolding workload
workload_test = refl
