-- ===== src/Eviction/Budget.antt =====
-- A pass evicts no more pods than the bucket has room for.
use kqos.Prelude.{
  ℕ, sym, ◌+◌, ◌≤◌, ◌≡◌, ◌⊎◌, inl, inr, ◌∙◌, refl, Bool, true, false, [], ◌∷◌, some, Bool-cases,
  not_both, length-append, if◌then◌else◌, length, arith,
}
use mathlib.Core.Path.{subst}
use kqos.Prelude.Int.{ltb_ℤ, eqb_ℤ, pos_part, ◌≤ℤ◌, ℤ, pos, negsuc, ltb_ℤ, ◌-ℤ◌}
use kqos.Eviction.Manager.{ApiAnswer, Manager, Pass, track_breach, propose, minute, consider, run}
use kqos.Eviction.Bucket.{TokenBucket, take, refill, clamp_tokens, configure, time_or}
use kqos.Eviction.Signals.{Signal, Verdict}
use kqos.Floats.{FloatApi, max_exact}
use kqos.Kubernetes.{QuantityApi}
use kqos.Eviction.Safety.{no_time}
use kqos.Eviction.Rounds.{consider_cases, carry_out_keeps, run_cases}

below_pos : (a : ℤ) (n : ℕ) → a ≤ℤ pos n → pos_part a ≤ n
below_pos (pos m) n h = omega arith
below_pos (negsuc m) n h = omega arith

not_negative : (c : ℤ) → (if ltb_ℤ c (pos 0) then pos 0 else c) ≡ pos (pos_part c)
not_negative (pos n) = ground arith
not_negative (negsuc n) = ground arith

module _ {Float : Type 0} ⦃f : FloatApi Float⦄ where
  -- The number of whole tokens.
  abbrev pub whole_tokens : TokenBucket Float → ℕ
  whole_tokens b = pos_part (f.to_int b.tokens)

  -- `used` tokens and those that are left are within the capacity; and nothing is used yet, or no
  -- refill is due at `now`.
  abbrev Within : ℕ → ℕ → ℤ → TokenBucket Float → Type 0
  Within most used now b =
      (used + whole_tokens b ≤ most)
      × (f.less (f.of_int b.capacity) b.tokens ≡ false)
      × ((used ≡ 0) ⊎ (t : ℤ) × (b.last ≡ some t) × (ltb_ℤ (pos 0) (now -ℤ t) ≡ false))
      × (b.capacity ≡ pos most)

  clamp_least :
      (tokens : Float) (capacity : ℤ)
      → f.less (f.of_int capacity) (clamp_tokens tokens capacity) ≡ false
  unfolding clamp_tokens
  clamp_least tokens capacity = elim (Bool-cases (f.less (f.of_int capacity) tokens)) [
    | inl e ↦ rw e (elim (Bool-cases (f.less (f.of_int capacity) (f.of_int capacity))) [
      | inl g ↦ f.less_asym _ _ g
      | inr g ↦ g
    ])
    | inr e ↦ rw e e
  ]

  -- Tokens within the capacity are no more whole tokens than it.
  whole_at_most :
      (tokens : Float) (most : ℕ)
      → most ≤ max_exact
      → f.less (f.of_int (pos most)) tokens ≡ false
      → pos_part (f.to_int tokens) ≤ most
  whole_at_most tokens most x h =
      below_pos (f.to_int tokens) most (f.to_int_at_most tokens most x h)

  configure-Within :
      (b : TokenBucket Float) (capacity window now : ℤ)
      → pos_part capacity ≤ max_exact
      → Within (pos_part capacity) 0 now (configure b capacity window)
  unfolding configure
  configure-Within b capacity window now x =
      let most : (if ltb_ℤ capacity (pos 0) then pos 0 else capacity) ≡ pos (pos_part capacity) =
        not_negative capacity in
      let least = clamp_least b.tokens (pos (pos_part capacity)) in
      rw most (omega (arith, whole_at_most _ (pos_part capacity) x least), least, inl refl, refl)

  refill_capacity : (b : TokenBucket Float) (now : ℤ) → (refill b now).capacity ≡ b.capacity
  unfolding refill
  refill_capacity b now = elim (Bool-cases (ltb_ℤ (pos 0) (now -ℤ time_or b.last now))) [
    | inl e ↦ rw e refl
    | inr e ↦ rw e refl
  ]

  abbrev refilled : TokenBucket Float → ℤ → Float
  refilled b now = f.add b.tokens (
      f.mul (f.of_int b.capacity)
        (f.div (f.of_int (now -ℤ time_or b.last now)) (f.of_int b.window)))

  refill-Within :
      (b : TokenBucket Float) (most used : ℕ) (now : ℤ)
      → most ≤ max_exact
      → Within most used now b
      → (used + whole_tokens (refill b now) ≤ most)
        × (f.less (f.of_int b.capacity) (refill b now).tokens ≡ false)
        × ((t : ℤ) × ((refill b now).last ≡ some t) × (ltb_ℤ (pos 0) (now -ℤ t) ≡ false))
  unfolding refill
  refill-Within b most used now x w =
      elim (Bool-cases (ltb_ℤ (pos 0) (now -ℤ time_or b.last now))) [
        | inr e ↦ simp e (w.0, w.1, (time_or b.last now, refl, e))
        | inl e ↦ elim w.2 [
          | inr past ↦
              not_both _ (subst (λ o. ltb_ℤ (pos 0) (now -ℤ time_or o now) ≡ true) past.1 e) past.2
          | inl first ↦
              let least = clamp_least (refilled b now) b.capacity in
              let within : f.less (f.of_int (pos most)) (clamp_tokens (refilled b now) b.capacity)
                  ≡ false =
                subst (λ c. f.less (f.of_int c) (clamp_tokens (refilled b now) b.capacity) ≡ false)
                  w.3 least in
              simp (e, first)
                (
                  omega (arith, whole_at_most _ most x within),
                  least,
                  (now, refl, simp (no_time now) refl),
                )
        ]
      ]

  -- A token that is taken is one less to take.
  take-Within :
      (b : TokenBucket Float) (most used : ℕ) (now : ℤ)
      → most ≤ max_exact
      → Within most used now b
      → Within most used now (take b now).1
        × ((take b now).0 ≡ true → Within most (used + 1) now (take b now).1)
  unfolding take
  take-Within b most used now x w =
      let r = refill-Within b most used now x w in
      let same = refill_capacity b now in
      let least : f.less (f.of_int (refill b now).capacity) (refill b now).tokens ≡ false =
        subst (λ c. f.less (f.of_int c) (refill b now).tokens ≡ false) (sym same) r.1 in
      let filled : Within most used now (refill b now) = (r.0, least, inr r.2, same ∙ w.3) in
      elim (Bool-cases (eqb_ℤ b.capacity (pos 0))) [
        | inl e ↦ simp e (w, λ k. absurd (ground arith))
        | inr e ↦ elim (Bool-cases (f.less (refill b now).tokens (f.of_int (pos 1)))) [
          | inl g ↦ simp (e, g) (filled, λ k. absurd (ground arith))
          | inr g ↦
              let within : f.less (f.of_int (pos most)) (refill b now).tokens ≡ false =
                subst (λ c. f.less (f.of_int c) (refill b now).tokens ≡ false) w.3 r.1 in
              let one = f.to_int_sub_one (refill b now).tokens most x within g in
              let less = f.not_less_trans _ _ _ least (f.less_sub_one (refill b now).tokens) in
              simp (e, g)
                (
                  (omega (arith, one, r.0), less, inr r.2, filled.3),
                  λ k. (omega (arith, one, r.0), less, inr r.2, filled.3),
                )
        ]
      ]

module _ {Float Quantity : Type 0} ⦃f : FloatApi Float⦄ ⦃api : QuantityApi Quantity⦄ where
  -- What is evicted has been paid for.
  abbrev PaidFor : ℕ → ℤ → Pass Float Quantity → Type 0
  PaidFor most now s = Within most (length s.result.evicted) now s.manager.budget

  consider-PaidFor :
      (answer : Verdict Float Quantity → ApiAnswer) (dry_run : Bool) (most : ℕ) (now : ℤ)
      → most ≤ max_exact
      → (v : Verdict Float Quantity) (s : Pass Float Quantity) → PaidFor most now s
      → PaidFor most now (consider answer dry_run now v s).1
  consider-PaidFor answer dry_run most now x v s h =
      let next = take-Within s.manager.budget most (length s.result.evicted) now x h in
      elim (consider_cases answer dry_run now v s) [
        | inl c ↦ elim c.2 [ inl same ↦ rw (c.0, same) h | inr taken ↦ rw (c.0, taken) (next.0) ]
        | inr g ↦ rw (g.appended, g.spent, length-append s.result.evicted (v ∷ [])) (next.1 g.paid)
      ]

  -- A pass evicts at most as many pods as may be evicted in a minute, which is an int32, and none if
  -- that number is negative.
  pub run_budget :
      (answer : Verdict Float Quantity → ApiAnswer) (m : Manager Float Quantity)
      (sig : Signal Float Quantity) (now : ℤ)
      → pos_part sig.config.max_evictions_per_minute ≤ 2_147_483_647
      → length (run answer m sig now).0.evicted ≤ pos_part sig.config.max_evictions_per_minute
  run_budget answer m sig now h = elim (run_cases answer m sig now) [
    | inl e ↦ rw e (omega arith)
    | inr a ↦
        let most = pos_part sig.config.max_evictions_per_minute in
        let kept =
          carry_out_keeps (PaidFor most now) answer sig.config now
            (propose (track_breach m sig now).plugins sig) (track_breach m sig now)
            (consider-PaidFor answer sig.config.dry_run most now (omega arith))
            (configure-Within (track_breach m sig now).budget sig.config.max_evictions_per_minute
              minute now (omega arith)) in
        rw (a.carried, kept.2) (omega (arith, kept.1.0))
  ]
