-- ===== src/SysAdvisor/Tests.antt =====
-- The theorems on the advisor at concrete windows, configurations and nodes.
use kqos.Prelude.{ℕ, ◌≡◌, ◌≤◌, ◌⊎◌, refl, arith, List, [], ◌∷◌}
use kqos.Prelude.Int.{ℤ, pos, ◌-ℤ◌, ◌<ℤ◌, ◌≤ℤ◌, ◌+ℤ◌, ◌*ℤ◌, ◌/ℤ◌, int64, int32}
use kqos.Samples.{node_sample, node_capacity, amounts, whole_floats}
use kqos.SysAdvisor.Advisor.{
  Recommendation, Advisor, Config, damp, critical, reclaimable, percent_of, pct,
}
use kqos.SysAdvisor.Advisor.Damping.{damp_reaches, damp_towards, damp_times}
use kqos.SysAdvisor.Advisor.Offer.{WithinShare}
use kqos.SysAdvisor.Recommend.{
  verdict, protected_usage, window_for, pressure, default_config, new_advisor, recommend, observe,
  milli_of, bytes_of,
}
use kqos.SysAdvisor.Recommend.Safety.{IsSane, recommend-WithinShare}
use kqos.SysAdvisor.Window.{
  Window, new_window, push, live, live_from, max, max_from, aggregate, percentile, percentile_of,
  sort_floats, insert_float, rank_of,
}
use kqos.SysAdvisor.Recommend.Alarm.{recommend_alarmed}
use kqos.SysAdvisor.Window.History.{Observation, push_all, live-newest}

-- Four observations, two seconds apart.
abbrev four : List (Observation ℤ)
four = (pos 5, pos 0) ∷ (pos 7, pos 2) ∷ (pos 6, pos 4) ∷ (pos 9, pos 6) ∷ []

abbrev small_window : Window ℤ
small_window = push_all (new_window (pos 3) (pos 3)) four

-- A ring of three slots has lost the first observation, and the horizon the second.
live-newest_example : live small_window (pos 7) ≡ pos 6 ∷ pos 9 ∷ []
unfolding ◌-ℤ◌
live-newest_example = live-newest (pos 3) (pos 3) (pos 7) four

-- Nothing live is larger than the largest.
abbrev quarter_steps : Config ℤ
quarter_steps = record default_config { min_reclaim_mem_bytes = pos 100 }

damp_reaches_example : damp_times quarter_steps 40 (pos 10) (pos 50) ≡ pos 50
damp_reaches_example = damp_reaches quarter_steps 40 10 50 (omega arith) (omega arith) (omega arith)

damp_towards_example :
    (let next = damp quarter_steps (pos 10) (pos 50) in
      (50 ≤ 10) × (next ≡ pos 50) ⊎ (pos 10 <ℤ next) × (next ≤ℤ pos 50))
damp_towards_example = damp_towards quarter_steps 10 50 (omega arith)

-- A node that was observed once, at time 5.
abbrev observed : ℕ → Advisor ℤ
observed bytes = observe (new_advisor quarter_steps) (node_sample (pos 5) bytes)

abbrev answer : ℕ → Recommendation
answer bytes = (recommend (observed bytes) node_capacity (pos 7)).0

-- The definitions that the facts below compute.
advisor_code : Unit {0}
unfolding live live_from new_window push max max_from aggregate percentile percentile_of sort_floats
    insert_float rank_of ◌-ℤ◌ ◌+ℤ◌ ◌*ℤ◌ ◌/ℤ◌ int64 int32 recommend verdict observe protected_usage
    new_advisor window_for milli_of bytes_of reclaimable damp percent_of pressure pct
advisor_code = tt

usage_300 :
    ((answer 300).protected_cpu_milli ≡ pos 1000) × ((answer 300).protected_memory_bytes ≡ pos 300)
unfolding advisor_code
usage_300 = (refl, refl)

offer_300 :
    ((answer 300).reclaimable_cpu_milli ≡ pos 1000)
    × ((answer 300).reclaimable_memory_bytes ≡ pos 62)
unfolding advisor_code
offer_300 = (refl, refl)

quarter_steps-IsSane : IsSane quarter_steps
quarter_steps-IsSane = record {
  cpu_target = (refl, omega arith);
  memory_target = (refl, omega arith);
  headroom = (refl, omega arith);
  max_reclaim = (refl, omega arith);
  cpu_floor = refl;
  memory_floor = refl;
}

recommend-WithinShare_example :
    WithinShare quarter_steps 8000 1000 75 (answer 300).reclaimable_cpu_milli
    × WithinShare quarter_steps 1000 300 65 (answer 300).reclaimable_memory_bytes
unfolding advisor_code
recommend-WithinShare_example =
    recommend-WithinShare (observed 300) node_capacity (pos 7) quarter_steps-IsSane
      (refl, omega arith) (refl, omega arith) (refl, omega arith) (refl, omega arith) refl refl

-- A node that had 900 of 1000 bytes in use at time 5, and 100 since.
abbrev recovered : Advisor ℤ
recovered = record (new_advisor quarter_steps) {
  node_memory = push_all (new_window (pos 3) (pos 10)) ((pos 900, pos 5) ∷ (pos 100, pos 6) ∷ []);
}

recommend_alarmed_example :
    (let r = (recommend recovered node_capacity (pos 7)).0 in
      (r.pressure.level ≡ critical)
      × (r.reclaimable_cpu_milli ≡ pos 0)
      × (r.reclaimable_memory_bytes ≡ pos 0))
unfolding advisor_code
recommend_alarmed_example =
    recommend_alarmed recovered node_capacity (pos 7) (pos 3) (pos 10) [] ((pos 100, pos 6) ∷ [])
      900 (pos 5) refl (omega arith) (omega arith) (omega arith) refl (omega arith)
