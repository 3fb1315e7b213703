-- ===== src/Agent/Report/Health.antt =====
-- The condition AgentHealthy of a node's profile.
use kqos.Prelude.{◌≡◌, ◌∙◌, refl, ap, true, false, List, some, ℕ}
use kqos.Prelude.Int.{ℤ}
use kqos.Agent.Report.{healthy, degraded_sampling, ready, build_conditions}
use kqos.Profile.{Condition}
use kqos.Profile.Conditions.{
  stamped, stamped_status, set_condition, condition_of, condition_of-set_condition,
}
use kqos.SysAdvisor.Advisor.{Recommendation}

-- A node that is healthy, or is again, keeps the time of its last change.
pub healthy_kept :
    (clock : ℕ → ℤ) (rec : Recommendation) (existing : List Condition)
    → condition_of "AgentHealthy" (build_conditions clock false rec existing)
      ≡ some (stamped (clock 0) healthy (condition_of "AgentHealthy" existing))
unfolding build_conditions
healthy_kept clock rec existing =
    condition_of-set_condition (clock 2) (ready rec) (set_condition (clock 0) healthy existing)
      "AgentHealthy"
    ∙ condition_of-set_condition (clock 0) healthy existing "AgentHealthy"

-- Of a degraded node the profile says with each report that it has just ceased to be healthy,
-- whatever it said before.
pub degraded_restamped :
    (clock : ℕ → ℤ) (rec : Recommendation) (existing : List Condition)
    → condition_of "AgentHealthy" (build_conditions clock true rec existing)
      ≡ some (record degraded_sampling { last_transition_time = clock 1 })
unfolding build_conditions
degraded_restamped clock rec existing =
    let sampled = set_condition (clock 0) healthy existing in
    let found = condition_of-set_condition (clock 0) healthy existing "AgentHealthy" in
    condition_of-set_condition (clock 2) (ready rec)
      (set_condition (clock 1) degraded_sampling sampled) "AgentHealthy"
    ∙ condition_of-set_condition (clock 1) degraded_sampling sampled "AgentHealthy"
    ∙ ap (λ o. some (stamped (clock 1) degraded_sampling o)) found
    ∙ simp (stamped_status (clock 0) healthy (condition_of "AgentHealthy" existing)) refl
