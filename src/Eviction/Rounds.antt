-- ===== src/Eviction/Rounds.antt =====
-- What one round of the loop over the verdicts does, and what the loop and the pass make of it.
use kqos.Prelude.{
  mem_text, ◌≡◌, ◌⊎◌, inl, inr, refl, sym, Bool, true, false, List, [], ◌∷◌, ◌++◌, none, Bool-cases,
  Option-cases,
}
use mathlib.Core.Path.{subst}
use kqos.Prelude.Int.{ℤ}
use kqos.Eviction.Manager.{
  ApiAnswer, accepted, too_many_requests, failed, Manager, Pass, is_empty, suppress, key_of,
  track_breach, propose, is_stabilising, veto, settle, consider, consider_all, carry_out, run,
  start_of,
}
use kqos.Eviction.Bucket.{take}
use kqos.Eviction.Signals.{EvictionConfig, Signal, Verdict}
use kqos.Floats.{FloatApi}
use kqos.Kubernetes.{QuantityApi}

answers : (a : ApiAnswer) → (a ≡ accepted) ⊎ (a ≡ too_many_requests) ⊎ (a ≡ failed)
answers accepted = inl refl
answers too_many_requests = inr (inl refl)
answers failed = inr (inr refl)

module _ {Float Quantity : Type 0} ⦃f : FloatApi Float⦄ ⦃api : QuantityApi Quantity⦄ where
  -- What must hold for the loop's body to evict a pod, and what it does then.
  pub record Granted (answer : Verdict Float Quantity → ApiAnswer) (dry_run : Bool) (now : ℤ)
      (v : Verdict Float Quantity) (s next : Pass Float Quantity) : Type 0 where
    pub fresh : mem_text (key_of v) s.seen ≡ false
    pub allowed : veto s.manager v now ≡ none
    pub paid : (take s.manager.budget now).0 ≡ true
    pub real : dry_run ≡ false
    pub accepts : answer v ≡ accepted
    pub appended : next.result.evicted ≡ s.result.evicted ++ v ∷ []
    pub noted : next.seen ≡ key_of v ∷ s.seen
    pub spent : next.manager.budget ≡ (take s.manager.budget now).1

  pub consider_cases :
      (answer : Verdict Float Quantity → ApiAnswer) (dry_run : Bool) (now : ℤ)
      (v : Verdict Float Quantity) (s : Pass Float Quantity)
      → (let next = (consider answer dry_run now v s).1 in
          (next.result.evicted ≡ s.result.evicted)
            × (next.seen ≡ s.seen ⊎ next.seen ≡ key_of v ∷ s.seen)
            × (next.manager.budget ≡ s.manager.budget
                ⊎ next.manager.budget ≡ (take s.manager.budget now).1)
          ⊎ Granted answer dry_run now v s next)
  unfolding consider suppress settle
  consider_cases answer dry_run now v s = elim (Bool-cases (mem_text (key_of v) s.seen)) [
    | inl e ↦ rw e (inl (refl, inl refl, inl refl))
    | inr e ↦ elim (Option-cases (veto s.manager v now)) [
      | inr g ↦ rw (e, g.1) (inl (refl, inr refl, inl refl))
      | inl g ↦ elim (Bool-cases (take s.manager.budget now).0) [
        | inr p ↦ rw (e, g, p) (inl (refl, inr refl, inr refl))
        | inl p ↦ elim (Bool-cases dry_run) [
          | inl r ↦ rw (e, g, p, r) (inl (refl, inr refl, inr refl))
          | inr r ↦ elim (answers (answer v)) [
            | inl a ↦
                rw (e, g, p, r, a)
                  (inr record {
                    fresh = e;
                    allowed = g;
                    paid = p;
                    real = refl;
                    accepts = a;
                    appended = refl;
                    noted = refl;
                    spent = refl;
                  })
            | inr a ↦ elim a [
              | inl b ↦ rw (e, g, p, r, b) (inl (refl, inr refl, inr refl))
              | inr b ↦ rw (e, g, p, r, b) (inl (refl, inr refl, inr refl))
            ]
          ]
        ]
      ]
    ]
  ]

  pub consider_all_goes :
      (answer : Verdict Float Quantity → ApiAnswer) (dry_run : Bool) (now : ℤ)
      (v : Verdict Float Quantity) (vs : List (Verdict Float Quantity)) (s : Pass Float Quantity)
      → (consider answer dry_run now v s).0 ≡ true
      → consider_all answer dry_run now (v ∷ vs) s
        ≡ consider_all answer dry_run now vs (consider answer dry_run now v s).1
  unfolding consider_all
  consider_all_goes answer dry_run now v vs s e = rw (consider_all, e) refl

  pub consider_all_stops :
      (answer : Verdict Float Quantity → ApiAnswer) (dry_run : Bool) (now : ℤ)
      (v : Verdict Float Quantity) (vs : List (Verdict Float Quantity)) (s : Pass Float Quantity)
      → (consider answer dry_run now v s).0 ≡ false
      → consider_all answer dry_run now (v ∷ vs) s ≡ (consider answer dry_run now v s).1
  unfolding consider_all
  consider_all_stops answer dry_run now v vs s e = rw (consider_all, e) refl

  consider_all_none :
      (answer : Verdict Float Quantity → ApiAnswer) (dry_run : Bool) (now : ℤ)
      (s : Pass Float Quantity)
      → consider_all answer dry_run now [] s ≡ s
  unfolding consider_all
  consider_all_none answer dry_run now s = refl

  -- The loop keeps what each round of its body keeps.
  pub consider_all_keeps :
      (P : Pass Float Quantity → Type 0) (answer : Verdict Float Quantity → ApiAnswer)
      (dry_run : Bool) (now : ℤ)
      → ((v : Verdict Float Quantity) (s : Pass Float Quantity)
          → P s
          → P (consider answer dry_run now v s).1)
      → (vs : List (Verdict Float Quantity)) (s : Pass Float Quantity) → P s
      → P (consider_all answer dry_run now vs s)
  consider_all_keeps P answer dry_run now body [] s h =
      subst P (sym (consider_all_none answer dry_run now s)) h
  consider_all_keeps P answer dry_run now body (v ∷ vs) s h =
      let next = (consider answer dry_run now v s).1 in
      elim (Bool-cases (consider answer dry_run now v s).0) [
        | inl e ↦
            subst P (sym (consider_all_goes answer dry_run now v vs s e))
              (consider_all_keeps P answer dry_run now body vs next (body v s h))
        | inr e ↦ subst P (sym (consider_all_stops answer dry_run now v vs s e)) (body v s h)
      ]

  -- Where a property of the loop's state is kept and holds at its start, it holds of what is left.
  pub carry_out_keeps :
      (P : Pass Float Quantity → Type 0) (answer : Verdict Float Quantity → ApiAnswer)
      (config : EvictionConfig) (now : ℤ) (vs : List (Verdict Float Quantity))
      (m : Manager Float Quantity)
      → ((v : Verdict Float Quantity) (s : Pass Float Quantity)
          → P s
          → P (consider answer config.dry_run now v s).1)
      → P (start_of config vs m)
      → (s : Pass Float Quantity) × P s × ((carry_out answer config now vs m).0 ≡ s.result)
  unfolding carry_out
  carry_out_keeps P answer config now vs m body h = (
    consider_all answer config.dry_run now vs (start_of config vs m),
    consider_all_keeps P answer config.dry_run now body vs (start_of config vs m) h,
    refl,
  )

  -- When a pass gets to its verdicts.
  pub record Acts (answer : Verdict Float Quantity → ApiAnswer) (m : Manager Float Quantity)
      (sig : Signal Float Quantity) (now : ℤ) : Type 0 where
    pub enabled : sig.config.enabled ≡ true
    pub measured : sig.sample.degraded ≡ false
    pub stable : is_stabilising (track_breach m sig now) sig.config now ≡ false
    pub carried :
        (run answer m sig now).0.evicted
        ≡ (carry_out answer sig.config now
            (propose (track_breach m sig now).plugins sig)
            (track_breach m sig now)).0.evicted

  pub run_cases :
      (answer : Verdict Float Quantity → ApiAnswer) (m : Manager Float Quantity)
      (sig : Signal Float Quantity) (now : ℤ)
      → ((run answer m sig now).0.evicted ≡ []) ⊎ Acts answer m sig now
  unfolding run suppress
  run_cases answer m sig now = elim (Bool-cases sig.config.enabled) [
    | inr e ↦ simp e (inl refl)
    | inl e ↦ elim (Bool-cases sig.sample.degraded) [
      | inl d ↦ simp (e, d) (inl refl)
      | inr d ↦ elim (Bool-cases (is_empty (propose (track_breach m sig now).plugins sig))) [
        | inl z ↦ simp (e, d, z) (inl refl)
        | inr z ↦ elim (Bool-cases (is_stabilising (track_breach m sig now) sig.config now)) [
          | inl w ↦ simp (e, d, z, w) (inl refl)
          | inr w ↦
              inr record { enabled = e; measured = d; stable = w; carried = simp (e, d, z, w) refl }
        ]
      ]
    ]
  ]
