-- ===== src/Eviction/Safety.antt =====
-- Which pods a pass evicts, and when it evicts none.
use kqos.Prelude.{
  AllOf, AllOf-snoc, ◌≡◌, ◌⊎◌, inl, inr, ◌∙◌, refl, Bool, true, false, [], none, Bool-cases,
  not_both, arith,
}
use kqos.Prelude.Int.{ℤ, pos, negsuc, ltb_ℤ, ◌<ℤ◌, ◌*ℤ◌, ◌-ℤ◌}
use kqos.Api.{evictable}
use kqos.Eviction.Manager.{
  ApiAnswer, Manager, Pass, is_system_priority, track_breach, propose, is_stabilising, veto,
  consider, run,
}
use kqos.Eviction.Signals.{Signal, Verdict}
use kqos.Floats.{FloatApi}
use kqos.Kubernetes.{QuantityApi, Pod}
use kqos.Qos.{level_of, is_mirror_pod, is_terminal}
use kqos.SysAdvisor.Advisor.{no_pressure, pressure_eq}
use kqos.Eviction.Rounds.{consider_cases, carry_out_keeps, run_cases}

-- A pod of a level that may be evicted, which runs, is no mirror pod and has no priority of the
-- system's range.
pub record MayGo {Quantity : Type 0} ⦃api : QuantityApi Quantity⦄ (pod : Pod Quantity)
    : Type 0 where
  pub level : evictable (level_of pod) ≡ true
  pub no_mirror : is_mirror_pod pod ≡ false
  pub staying : pod.deleting ≡ false
  pub alive : is_terminal pod ≡ false
  pub priority : is_system_priority pod.priority ≡ false

positive_seconds : (s : ℤ) → pos 0 <ℤ s → ltb_ℤ (pos 0) (s *ℤ pos 1_000_000_000) ≡ true
unfolding ◌*ℤ◌
positive_seconds (pos n) h = ground arith
positive_seconds (negsuc n) h = ground arith

pub no_time : (now : ℤ) → now -ℤ now ≡ pos 0
unfolding ◌-ℤ◌
no_time now = ground arith

module _ {Float Quantity : Type 0} ⦃f : FloatApi Float⦄ ⦃api : QuantityApi Quantity⦄ where
  abbrev VerdictMayGo : Verdict Float Quantity → Type 0
  VerdictMayGo v = MayGo v.pod

  veto-none :
      (m : Manager Float Quantity) (v : Verdict Float Quantity) (now : ℤ)
      → veto m v now ≡ none
      → MayGo v.pod
  unfolding veto
  veto-none m v now h = record {
    level = ground arith;
    no_mirror = ground arith;
    staying = ground arith;
    alive = ground arith;
    priority = ground arith;
  }

  consider-MayGo :
      (answer : Verdict Float Quantity → ApiAnswer) (dry_run : Bool) (now : ℤ)
      (v : Verdict Float Quantity) (s : Pass Float Quantity)
      → AllOf VerdictMayGo s.result.evicted
      → AllOf VerdictMayGo (consider answer dry_run now v s).1.result.evicted
  consider-MayGo answer dry_run now v s h = elim (consider_cases answer dry_run now v s) [
    | inl c ↦ rw (c.0) h
    | inr g ↦
        rw (g.appended)
          (AllOf-snoc VerdictMayGo s.result.evicted v h (veto-none s.manager v now g.allowed))
  ]

  -- Every pod that a pass evicts is of a level that may be evicted, is no mirror pod, is neither
  -- terminating nor terminal, and has no priority of the system's range.
  pub run-MayGo :
      (answer : Verdict Float Quantity → ApiAnswer) (m : Manager Float Quantity)
      (sig : Signal Float Quantity) (now : ℤ)
      → AllOf VerdictMayGo (run answer m sig now).0.evicted
  run-MayGo answer m sig now = elim (run_cases answer m sig now) [
    | inl e ↦ rw e tt
    | inr a ↦
        let kept =
          carry_out_keeps (λ s. AllOf VerdictMayGo s.result.evicted) answer sig.config now
            (propose (track_breach m sig now).plugins sig) (track_breach m sig now)
            (consider-MayGo answer sig.config.dry_run now) tt in
        rw (a.carried, kept.2) (kept.1)
  ]

  -- A pass evicts nothing where the manager is not enabled, where the sample is degraded, and where
  -- a dry run is configured.
  pub run_idle :
      (answer : Verdict Float Quantity → ApiAnswer) (m : Manager Float Quantity)
      (sig : Signal Float Quantity) (now : ℤ)
      → (sig.config.enabled ≡ false) ⊎ (sig.sample.degraded ≡ true) ⊎ (sig.config.dry_run ≡ true)
      → (run answer m sig now).0.evicted ≡ []
  run_idle answer m sig now h = elim (run_cases answer m sig now) [
    | inl e ↦ e
    | inr a ↦ elim h [
      | inl off ↦ not_both sig.config.enabled a.enabled off
      | inr h ↦ elim h [
        | inl bad ↦ not_both sig.sample.degraded bad a.measured
        | inr dry ↦
            let kept =
              carry_out_keeps (λ s. s.result.evicted ≡ []) answer sig.config now
                (propose (track_breach m sig now).plugins sig) (track_breach m sig now)
                (λ v s e. elim (consider_cases answer sig.config.dry_run now v s) [
                  | inl c ↦ c.0 ∙ e
                  | inr g ↦ not_both sig.config.dry_run dry g.real
                ])
                refl in
            rw (a.carried, kept.2) (kept.1)
      ]
    ]
  ]

  calm :
      (m : Manager Float Quantity) (sig : Signal Float Quantity) (now : ℤ)
      → pos 0 <ℤ sig.config.stabilisation_seconds
      → (pressure_eq sig.recommendation.pressure.level no_pressure ≡ true)
        ⊎ (m.breached_since ≡ none)
      → is_stabilising (track_breach m sig now) sig.config now ≡ true
  unfolding is_stabilising track_breach
  calm m sig now p h =
      let wait = positive_seconds sig.config.stabilisation_seconds p in
      elim (Bool-cases (pressure_eq sig.recommendation.pressure.level no_pressure)) [
        | inl e ↦ simp (e, wait) refl
        | inr e ↦ elim h [ inl g ↦ not_both _ g e | inr g ↦ simp (e, g, wait, no_time now) refl ]
      ]

  -- Where the stabilisation period is above 0, a pass evicts nothing while the recommendation shows
  -- no pressure, and nothing on the first pass that sees pressure.
  pub run_calm :
      (answer : Verdict Float Quantity → ApiAnswer) (m : Manager Float Quantity)
      (sig : Signal Float Quantity) (now : ℤ)
      → pos 0 <ℤ sig.config.stabilisation_seconds
      → (pressure_eq sig.recommendation.pressure.level no_pressure ≡ true)
        ⊎ (m.breached_since ≡ none)
      → (run answer m sig now).0.evicted ≡ []
  run_calm answer m sig now p h = elim (run_cases answer m sig now) [
    | inl e ↦ e
    | inr a ↦ not_both _ (calm m sig now p h) a.stable
  ]
