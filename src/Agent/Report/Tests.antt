-- ===== src/Agent/Report/Tests.antt =====
-- Reports of a concrete sample.
use kqos.Prelude.{◌≡◌, true, [], ◌∷◌, some, List}
use kqos.Prelude.Int.{pos}
use kqos.Agent.Report.{degraded_sampling, build_conditions}
use kqos.Agent.Report.Health.{degraded_restamped}
use kqos.Profile.{Condition}
use kqos.Profile.Conditions.{condition_of}
use kqos.Samples.{amounts, whole_floats}
use kqos.SysAdvisor.Advisor.{no_recommendation}

-- The node is degraded since second 5, and is so still at second 100.
abbrev degraded_long : List Condition
degraded_long = (record degraded_sampling { last_transition_time = pos 5 }) ∷ []

degraded_restamped_example :
    condition_of "AgentHealthy"
      (build_conditions (λ i. pos 100) true no_recommendation degraded_long)
    ≡ some (record degraded_sampling { last_transition_time = pos 100 })
degraded_restamped_example = degraded_restamped (λ i. pos 100) no_recommendation degraded_long
