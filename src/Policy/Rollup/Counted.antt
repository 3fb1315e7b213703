-- ===== src/Policy/Rollup/Counted.antt =====
-- The numbers of nodes in the policy's status.
use kqos.Prelude.{
  ℕ, ◌+◌, ◌≤◌, ◌≡◌, ◌∙◌, refl, ap, Bool, true, false, not, ◌&&◌, List, [], ◌∷◌, Option, String,
  length, count, Bool-cases, inl, inr, arith, if◌then◌else◌,
}
use kqos.Prelude.Int.{ℤ, pos, int32, ◌+ℤ◌}
use kqos.Kubernetes.{QuantityApi}
use kqos.Policy.{QosPolicy}
use kqos.Policy.Rollup.{
  Rollup, no_nodes, is_live_at, one_if, is_selected, add_profile, add_profiles, rollup,
}
use kqos.Profile.{NodeResourceProfile}
use kqos.SysAdvisor.Advisor.{no_pressure, pressure_eq}

one_if_fits :
    (b : Bool) (a : ℤ) (n : ℕ)
    → a ≡ pos n
    → n + 1 ≤ 2_147_483_647
    → one_if b a ≡ pos (if b then n + 1 else n)
unfolding int32 ◌+ℤ◌
one_if_fits true a n h l = rw h (ground arith)
one_if_fits false a n h l = h

module _ {Quantity : Type 0} ⦃api : QuantityApi Quantity⦄ where
  -- The selected profiles that pass a test.
  abbrev pub selected_count :
      Option (String → Bool)
      → (NodeResourceProfile Quantity → Bool)
      → List (NodeResourceProfile Quantity)
      → ℕ
  selected_count selects test ps = count (λ p. is_selected selects p.node_name && test p) ps

  -- A counter that goes up by 1 with each profile that passes a test.
  add_profiles-count :
      (selects : Option (String → Bool)) (now : ℤ) (pick : Rollup → ℤ)
      (test : NodeResourceProfile Quantity → Bool)
      → ((p : NodeResourceProfile Quantity) (r : Rollup)
          → pick (add_profile now p r) ≡ one_if (test p) (pick r))
      → (ps : List (NodeResourceProfile Quantity)) (r : Rollup) (n : ℕ) → pick r ≡ pos n
      → n + length ps ≤ 2_147_483_647
      → pick (add_profiles selects now ps r) ≡ pos (n + selected_count selects test ps)
  unfolding add_profiles
  add_profiles-count selects now pick test step [] r n h l = h ∙ ap pos (omega arith)
  add_profiles-count selects now pick test step (p ∷ ps) r n h l =
      elim (Bool-cases (is_selected selects p.node_name)) [
        | inl e ↦ elim (Bool-cases (test p)) [
          | inl g ↦
              let more : pick (add_profile now p r) ≡ pos (n + 1) =
                step p r ∙ one_if_fits (test p) (pick r) n h (omega arith) ∙ rw g refl in
              simp (e, g)
                (add_profiles-count selects now pick test step ps (add_profile now p r) (n + 1) more
                    (omega arith)
                  ∙ ap pos (omega arith))
          | inr g ↦
              let kept : pick (add_profile now p r) ≡ pos n =
                step p r ∙ one_if_fits (test p) (pick r) n h (omega arith) ∙ rw g refl in
              simp (e, g)
                (add_profiles-count selects now pick test step ps (add_profile now p r) n kept
                    (omega arith)
                  ∙ ap pos (omega arith))
        ]
        | inr e ↦ simp e (
            add_profiles-count selects now pick test step ps r n h (omega arith)
            ∙ ap pos (omega arith))
      ]

  -- For at most 2^31 - 1 profiles, the status holds the number of those that are selected, of those
  -- among them that were refreshed within 90 seconds, and of those whose pressure is not "None".
  pub rollup-count :
      {Selector : Type 0} (selects : Option (String → Bool)) (now : ℤ)
      (ps : List (NodeResourceProfile Quantity)) (policy : QosPolicy Quantity Selector)
      → length ps ≤ 2_147_483_647
      → ((rollup selects now ps policy).observed_nodes
          ≡ pos (selected_count selects (λ p. true) ps))
        × ((rollup selects now ps policy).ready_nodes
            ≡ pos (selected_count selects (λ p. is_live_at now p.status.last_report_time) ps))
        × ((rollup selects now ps policy).nodes_under_pressure
            ≡ pos (
                selected_count selects
                  (λ p. not (pressure_eq p.status.pressure.level no_pressure))
                  ps))
  unfolding rollup add_profile
  rollup-count selects now ps policy h = (
    add_profiles-count selects now (λ r. r.observed) (λ p. true) (λ p r. refl) ps no_nodes 0 refl
          (omega arith)
        ∙ ap pos (omega arith),
    add_profiles-count selects now (λ r. r.ready) (λ p. is_live_at now p.status.last_report_time)
          (λ p r. refl) ps no_nodes 0 refl (omega arith)
        ∙ ap pos (omega arith),
    add_profiles-count selects now (λ r. r.under_pressure)
          (λ p. not (pressure_eq p.status.pressure.level no_pressure)) (λ p r. refl) ps no_nodes 0
          refl (omega arith)
        ∙ ap pos (omega arith),
  )
