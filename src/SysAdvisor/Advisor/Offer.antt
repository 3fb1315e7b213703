-- ===== src/SysAdvisor/Advisor/Offer.antt =====
-- What `reclaimable` offers: never more than the target share leaves beside the protected usage.
use kqos.Prelude.{ℕ, ◌+◌, ◌*◌, ◌/◌, ◌≤◌, ◌≡◌, ◌⊎◌, sym, arith}
use mathlib.Core.Path.{subst}
use native.Mathlib.Nat.{mul-le-mul_left, div-le_of_le-mul}
use kqos.Prelude.Int.{
  ℤ, pos, negsuc, pos_part, neg_part, int64, int64_fits, eq_of_parts, ◌-ℤ◌, -ℤ_parts, -ℤ_size,
}
use kqos.SysAdvisor.Advisor.{Config, percent_of, cap_and_floor, reclaimable}
use kqos.SysAdvisor.Advisor.Damping.{max_amount, percent_of_share}

-- A percentage of the configuration that is between 0 and 100.
abbrev pub InPercent : ℤ → Type 0
InPercent p = (neg_part p ≡ 0) × (pos_part p ≤ 100)

-- `a * percent / 100`
abbrev pub share : ℕ → ℕ → ℕ
share a percent = a * percent / 100

-- Nothing is offered, or the offer, the protected usage and the headroom together are within the
-- target share, and the offer is within the cap.
abbrev pub WithinShare : {Float : Type 0} → Config Float → ℕ → ℕ → ℕ → ℤ → Type 0
WithinShare cfg alloc protected target offered =
    (neg_part offered ≡ 0)
    × (pos_part offered ≡ 0
        ⊎ (pos_part offered + protected + share alloc (pos_part cfg.headroom_percent)
            ≤ share alloc target)
          × (pos_part offered ≤ share alloc (pos_part cfg.max_reclaim_percent)))

percent_share :
    (a : ℕ) (p : ℤ)
    → a ≤ max_amount
    → InPercent p
    → percent_of (pos a) p ≡ pos (share a (pos_part p))
percent_share a p ha hp =
    let is : p ≡ pos (pos_part p) = eq_of_parts _ _ (omega (arith, hp.0)) in
    subst (λ (q : ℤ). percent_of (pos a) q ≡ pos (share a (pos_part p))) (sym is)
      (percent_of_share a (pos_part p) ha hp.1)

pub share_at_most : (a p : ℕ) → p ≤ 100 → share a p ≤ a
share_at_most a p h = div-le_of_le-mul 100 (omega (arith, mul-le-mul_left a h))

left_over :
    (budget protected headroom : ℕ)
    → budget ≤ max_amount
    → protected ≤ max_amount
    → headroom ≤ max_amount
    → (let value = int64 (int64 (pos budget -ℤ pos protected) -ℤ pos headroom) in
        pos_part value + protected + headroom ≡ neg_part value + budget)
left_over budget protected headroom hb hp hh =
    let first : int64 (pos budget -ℤ pos protected) ≡ pos budget -ℤ pos protected = int64_fits _ (
      omega (arith, -ℤ_size (pos budget) (pos protected)),
      omega (arith, -ℤ_size (pos budget) (pos protected)),
    ) in
    let twice : int64 (pos budget -ℤ pos protected -ℤ pos headroom)
        ≡ pos budget -ℤ pos protected -ℤ pos headroom =
      int64_fits _ (
        omega (
          arith,
          -ℤ_size (pos budget) (pos protected),
          -ℤ_size (pos budget -ℤ pos protected) (pos headroom),
        ),
        omega (
          arith,
          -ℤ_size (pos budget) (pos protected),
          -ℤ_size (pos budget -ℤ pos protected) (pos headroom),
        ),
      ) in
    rw (first, twice)
      (omega (
        arith,
        -ℤ_parts (pos budget) (pos protected),
        -ℤ_parts (pos budget -ℤ pos protected) (pos headroom),
      ))

-- The cap and the floor only lower a value, and make it 0 where it is not positive.
capped :
    (value : ℤ) (cap floor : ℕ)
    → (let offered = (cap_and_floor value (pos cap) (pos floor)).0 in
        (neg_part offered ≡ 0)
        × (pos_part offered ≡ 0
            ⊎ (pos_part offered ≤ cap)
              × (pos_part offered ≤ pos_part value)
              × (neg_part value ≡ 0)))
capped (pos n) cap floor = ground arith
capped (negsuc n) cap floor = ground arith

module _ {Float : Type 0} (cfg : Config Float) where
  pub reclaimable-WithinShare :
      (alloc protected target floor : ℕ)
      → alloc ≤ max_amount
      → protected ≤ max_amount
      → target ≤ 100
      → InPercent cfg.headroom_percent
      → InPercent cfg.max_reclaim_percent
      → WithinShare cfg alloc protected target
          (reclaimable cfg (pos alloc) (pos protected) (pos target) (pos floor)).0
  unfolding reclaimable
  reclaimable-WithinShare alloc protected target floor ha hp ht hh hm =
      let budget = share_at_most alloc target ht in
      let headroom = share_at_most alloc (pos_part cfg.headroom_percent) hh.1 in
      let eq =
        left_over (share alloc target) protected (share alloc (pos_part cfg.headroom_percent))
          (omega arith) hp (omega arith) in
      rw
        (
          percent_of_share alloc target ha ht,
          percent_share alloc cfg.headroom_percent ha hh,
          percent_share alloc cfg.max_reclaim_percent ha hm,
        )
        (ground (arith, eq, capped _ (share alloc (pos_part cfg.max_reclaim_percent)) floor))
