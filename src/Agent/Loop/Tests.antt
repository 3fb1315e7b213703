-- ===== src/Agent/Loop/Tests.antt =====
-- Ticks of a concrete agent.
use kqos.Prelude.{refl, true, false, [], ◌∷◌, none, some, String}
use kqos.Prelude.Int.{ℤ, pos}
use kqos.Agent.Configuration.{Agent, Sorts}
use kqos.Agent.Loop.{World, Options, tick}
use kqos.Agent.Loop.Ticks.{DoneHas, IsHarmless, tick-IsHarmless}
use kqos.Collector.{NodeSample}
use kqos.Eviction.Manager.{accepted, new_manager}
use kqos.Eviction.Plugins.{sort_stable}
use kqos.Overcommit.{found, not_found}
use kqos.Samples.{Amount, amounts, whole_floats, node_sample, node_capacity, pod_of}
use kqos.SysAdvisor.Recommend.{default_config, new_advisor}

abbrev sorts : Sorts ℤ Amount
sorts = record { usages = sort_stable; verdicts = sort_stable }

abbrev agent : Agent ℤ Amount
agent = record {
  advisor = new_advisor default_config;
  pools = record {
    topology = record { zones = []; online = record { elems = 0 ∷ 1 ∷ 2 ∷ 3 ∷ [] } };
    cfg = record {
      cpu_set_enabled = true;
      reserved_system_cpus = [];
      shared_pool_min_cpus = pos 1;
      reclaimed_pool_min_cpus = pos 1;
    };
    applied_weight = [];
    applied_cpu_set = [];
    last_pools = [];
  };
  evictor = new_manager [];
  disabled_plugins = "";
}

-- A node of eight cores without a policy, and the sample that is collected on it.
abbrev world : NodeSample ℤ Amount → World ℤ Amount String
world sample = record {
  policy = not_found;
  node = found (record { name = "n1"; capacity = node_capacity; allocatable = node_capacity });
  pods = some (pod_of "a" 2 ∷ pod_of "b" 1 ∷ []);
  sample = some sample;
  profile = not_found;
  creates = true;
  created = found [];
  takes_status = true;
  cgroups_available = true;
  cgroups = record { pod_path = λ uid. some uid; succeeds = λ write. true };
  answer = λ v. accepted;
  clock = λ i. pos 20_000_000_000;
  scan = λ text. none;
  controller_of = λ pod. none;
}

abbrev options : Options
options = record { node_name = "n1"; publishes = true; enforce_cpu_weight = false }

abbrev measured : NodeSample ℤ Amount
measured = node_sample (pos 10_000_000_000) 900

abbrev estimated : NodeSample ℤ Amount
estimated = record measured { degraded = true }

tick-IsHarmless_example :
    DoneHas (IsHarmless (world estimated)) (tick sorts options (world estimated) agent).1
tick-IsHarmless_example = tick-IsHarmless sorts options (world estimated) agent estimated refl refl
