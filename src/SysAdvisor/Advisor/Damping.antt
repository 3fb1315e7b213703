-- ===== src/SysAdvisor/Advisor/Damping.antt =====
-- `damp` falls at once and rises in steps, and reaches its target when it is repeated.
use kqos.Prelude.{
  inl, inr, ◌⊎◌, if◌then◌else◌, ℕ, zero, suc, ◌+◌, ◌-◌, ◌*◌, ◌/◌, ◌≤◌, ◌<◌, ◌≡◌, ◌∙◌, ap, arith,
  ltb, leb, Bool-cases, leb→le, ltb→lt,
}
use native.Mathlib.Nat.{mul-le-mul, mul-le-mul_left, div-le_of_le-mul}
use kqos.Prelude.Int.{
  ℤ, pos, pos_part, ltb_ℤ, leb_ℤ, ◌≤ℤ◌, ◌<ℤ◌, int64_fits, neg_part_none, eq_of_parts, ◌-ℤ◌, ◌+ℤ◌,
  ◌*ℤ◌, ◌/ℤ◌, int64,
}
use kqos.SysAdvisor.Advisor.{Config, percent_of, damp}

-- The largest value whose hundredfold an int64 holds.
abbrev pub max_amount : ℕ
max_amount = 92_233_720_368_547_758

pub *ℤ_pos : (a p : ℕ) → pos a *ℤ pos p ≡ pos (a * p)
unfolding ◌*ℤ◌
*ℤ_pos a p = ground arith

-- On amounts that are not too large nothing wraps.
pub percent_of_share :
    (a p : ℕ) → a ≤ max_amount → p ≤ 100 → percent_of (pos a) (pos p) ≡ pos (a * p / 100)
unfolding percent_of ◌/ℤ◌
percent_of_share a p ha hp =
    let product : a * p ≤ max_amount * 100 = mul-le-mul ha hp in
    let fits : int64 (pos a *ℤ pos p) ≡ pos (a * p) =
      ap int64 (*ℤ_pos a p) ∙ int64_fits (pos (a * p)) (ground arith) in
    ap (λ (v : ℤ). v /ℤ pos 100) fits

sub_fits : (a b : ℕ) → b ≤ a → a ≤ max_amount → int64 (pos a -ℤ pos b) ≡ pos (a - b)
unfolding ◌-ℤ◌ int64
sub_fits a b h l = ground arith

add_fits : (a b : ℕ) → a + b ≤ 9_223_372_036_854_775_807 → int64 (pos a +ℤ pos b) ≡ pos (a + b)
unfolding ◌+ℤ◌ int64
add_fits a b h = ground arith

-- The step to a target above: at least 1, and the result does not pass the target.
step_within :
    (current target p : ℕ)
    → current < target
    → target ≤ max_amount
    → p ≤ 100
    → (let share = percent_of (int64 (pos target -ℤ pos current)) (pos p) in
        let next = int64 (pos current +ℤ (if ltb_ℤ share (pos 1) then pos 1 else share)) in
        (pos current <ℤ next))
step_within current target p h l hp =
    let share : percent_of (int64 (pos target -ℤ pos current)) (pos p)
        ≡ pos ((target - current) * p / 100) =
      rw (sub_fits target current (omega arith) l)
        (percent_of_share (target - current) p (omega arith) hp) in
    let most : (target - current) * p / 100 ≤ target - current =
      div-le_of_le-mul 100 (omega (arith, mul-le-mul_left (target - current) hp)) in
    rw share (ground (arith, add_fits current ((target - current) * p / 100), add_fits current 1))

module _ {Float : Type 0} (cfg : Config Float) where
  -- One round moves up by 1 at least, and not past the target.
  damp_rises :
      (current target : ℕ)
      → current < target
      → target ≤ max_amount
      → (pos current <ℤ damp cfg (pos current) (pos target))
        × (damp cfg (pos current) (pos target) ≤ℤ pos target)
  unfolding damp
  damp_rises current target h l = elim (Bool-cases (leb_ℤ cfg.growth_step_percent (pos 0))) [
    | inl e ↦ ground arith
    | inr e ↦ elim (Bool-cases (leb_ℤ (pos 100) cfg.growth_step_percent)) [
      | inl g ↦ ground arith
      | inr g ↦
          let p = pos_part cfg.growth_step_percent in
          let is : cfg.growth_step_percent ≡ pos p = eq_of_parts _ _ (ground arith) in
          let up : pos current <ℤ _ = step_within current target p h l (ground arith) in
          rw is (ground (arith))
    ]
  ]

  damp_falls :
      (current target : ℕ) → target ≤ current → damp cfg (pos current) (pos target) ≡ pos target
  unfolding damp
  damp_falls current target h = ground arith

  -- The figure after `n` rounds with the same target.
  abbrev pub damp_times : ℕ → ℤ → ℤ → ℤ
  damp_times zero current target = current
  damp_times (suc n) current target = damp_times n (damp cfg current target) target

  damp_times_below :
      (n current target : ℕ)
      → current ≤ target
      → target ≤ current + n
      → target ≤ max_amount
      → damp_times n (pos current) (pos target) ≡ pos target
  damp_times_below zero current target h k l = ground arith
  damp_times_below (suc n) current target h k l = elim (Bool-cases (ltb current target)) [
    | inl e ↦
        let up = damp_rises current target (ltb→lt current target e) l in
        let next = pos_part (damp cfg (pos current) (pos target)) in
        let none = neg_part_none (damp cfg (pos current) (pos target)) (omega (arith, up.0)) in
        let is : damp cfg (pos current) (pos target) ≡ pos next =
          eq_of_parts _ _ (omega (arith, none)) in
        rw is
          (damp_times_below n next target (omega (arith, up.1, none)) (omega (arith, up.0, none)) l)
    | inr e ↦
        rw (damp_falls current target (ground arith))
          (damp_times_below n target target (omega arith) (omega arith) l)
  ]

  -- For targets up to `max_amount`, whatever the growth step is, `n` rounds with the same target,
  -- one at least, reach it if it is at most `n` above the first figure.
  pub damp_reaches :
      (n current target : ℕ)
      → target ≤ current + n
      → target ≤ max_amount
      → 1 ≤ n
      → damp_times n (pos current) (pos target) ≡ pos target
  damp_reaches zero current target k l one = absurd (omega arith)
  damp_reaches (suc n) current target k l one = elim (Bool-cases (leb target current)) [
    | inl e ↦
        rw (damp_falls current target (leb→le target current e))
          (damp_times_below n target target (omega arith) (omega arith) l)
    | inr e ↦ damp_times_below (suc n) current target (ground arith) k l
  ]

  -- For targets up to `max_amount`, `damp` answers a target that is not above the current figure
  -- with the target, and any other with a figure above the current one and not above the target.
  pub damp_towards :
      (current target : ℕ)
      → target ≤ max_amount
      → (let next = damp cfg (pos current) (pos target) in
          (target ≤ current) × (next ≡ pos target) ⊎ (pos current <ℤ next) × (next ≤ℤ pos target))
  damp_towards current target l = elim (Bool-cases (leb target current)) [
    | inl e ↦ inl (leb→le target current e, damp_falls current target (leb→le target current e))
    | inr e ↦ inr (damp_rises current target (ground arith) l)
  ]
