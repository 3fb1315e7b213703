-- ===== src/SysAdvisor/Recommend/Safety.antt =====
-- What a recommendation offers, through damping and pressure.
use kqos.Prelude.{ℕ, ◌≤◌, ◌≡◌, inl, inr, refl, true, arith, Bool-cases}
use kqos.Prelude.Int.{ℤ, pos, pos_part, neg_part, leb_ℤ, ◌≤ℤ◌, eq_of_parts, neg_part_none}
use kqos.Floats.{FloatApi}
use kqos.Kubernetes.{QuantityApi, ResourceList, resource_cpu, resource_memory}
use kqos.SysAdvisor.Window.{max}
use kqos.SysAdvisor.Advisor.{Advisor, Config, reclaimable, damp, pct, critical, pressure_eq}
use kqos.SysAdvisor.Advisor.Damping.{max_amount, damp_towards}
use kqos.SysAdvisor.Advisor.Offer.{InPercent, WithinShare, reclaimable-WithinShare, share_at_most}
use kqos.SysAdvisor.Recommend.{milli_of, bytes_of, recommend, verdict, pressure}

-- An amount that is not negative and whose hundredfold an int64 holds.
abbrev pub IsAmount : ℤ → Type 0
IsAmount x = (neg_part x ≡ 0) × (pos_part x ≤ max_amount)

-- The percentages are between 0 and 100 and the floors are not negative.
pub record IsSane {Float : Type 0} (cfg : Config Float) : Type 0 where
  pub cpu_target : InPercent cfg.cpu_target_percent
  pub memory_target : InPercent cfg.memory_target_percent
  pub headroom : InPercent cfg.headroom_percent
  pub max_reclaim : InPercent cfg.max_reclaim_percent
  pub cpu_floor : neg_part cfg.min_reclaim_cpu_milli ≡ 0
  pub memory_floor : neg_part cfg.min_reclaim_mem_bytes ≡ 0

is_pos : (x : ℤ) → neg_part x ≡ 0 → x ≡ pos (pos_part x)
is_pos x h = eq_of_parts _ _ (omega (arith, h))

module _ {Float : Type 0} (cfg : Config Float) where
  -- Damping keeps an offer within the share.
  damp-WithinShare :
      (alloc protected target current : ℕ) (offered : ℤ)
      → alloc ≤ max_amount
      → InPercent cfg.max_reclaim_percent
      → WithinShare cfg alloc protected target offered
      → WithinShare cfg alloc protected target (damp cfg (pos current) offered)
  damp-WithinShare alloc protected target current offered ha hm w =
      let cap = share_at_most alloc (pos_part cfg.max_reclaim_percent) hm.1 in
      rw (is_pos offered w.0) (
        ground (
          arith,
          w,
          cap,
          neg_part_none (damp cfg (pos current) (pos (pos_part offered))),
          damp_towards cfg current (pos_part offered),
        ))

  offered_WithinShare :
      (alloc protected target floor current : ℤ)
      → IsAmount alloc
      → IsAmount protected
      → InPercent target
      → neg_part floor ≡ 0
      → neg_part current ≡ 0
      → InPercent cfg.headroom_percent
      → InPercent cfg.max_reclaim_percent
      → WithinShare cfg
          (pos_part alloc)
          (pos_part protected)
          (pos_part target)
          (damp cfg current (reclaimable cfg alloc protected target floor).0)
  offered_WithinShare alloc protected target floor current ha hp ht hf hc hh hm =
      rw
        (
          is_pos alloc ha.0,
          is_pos protected hp.0,
          is_pos target ht.0,
          is_pos floor hf,
          is_pos current hc,
        )
        (damp-WithinShare (pos_part alloc) (pos_part protected) (pos_part target) (pos_part current)
          _ ha.1 hm
          (reclaimable-WithinShare cfg (pos_part alloc) (pos_part protected) (pos_part target)
            (pos_part floor) ha.1 hp.1 ht.1 hh hm))

module _ {Float Quantity : Type 0} ⦃f : FloatApi Float⦄ ⦃api : QuantityApi Quantity⦄ where
  -- For sane percentages and floors, amounts that are not negative and whose hundredfold fits, and
  -- a previous offer that is not negative: for CPU and for memory, `Recommend` offers nothing, or
  -- what it offers, the protected usage and the headroom are together within the target share of
  -- the allocatable amount, and the offer is within the cap.
  pub recommend-WithinShare :
      (a : Advisor Float) (allocatable : ResourceList Quantity) (now : ℤ)
      → IsSane a.cfg
      → IsAmount (milli_of allocatable resource_cpu)
      → IsAmount (bytes_of allocatable resource_memory)
      → IsAmount (recommend a allocatable now).0.protected_cpu_milli
      → IsAmount (recommend a allocatable now).0.protected_memory_bytes
      → neg_part a.last.reclaimable_cpu_milli ≡ 0
      → neg_part a.last.reclaimable_memory_bytes ≡ 0
      → (let r = (recommend a allocatable now).0 in
          WithinShare a.cfg
            (pos_part (milli_of allocatable resource_cpu))
            (pos_part r.protected_cpu_milli)
            (pos_part a.cfg.cpu_target_percent)
            r.reclaimable_cpu_milli
          × WithinShare a.cfg
              (pos_part (bytes_of allocatable resource_memory))
              (pos_part r.protected_memory_bytes)
              (pos_part a.cfg.memory_target_percent)
              r.reclaimable_memory_bytes)
  unfolding recommend verdict
  recommend-WithinShare a allocatable now sane hc hm pc pm lc lm =
      let cpu =
        offered_WithinShare a.cfg (milli_of allocatable resource_cpu)
          (recommend a allocatable now).0.protected_cpu_milli a.cfg.cpu_target_percent
          a.cfg.min_reclaim_cpu_milli a.last.reclaimable_cpu_milli hc pc sane.cpu_target
          sane.cpu_floor lc sane.headroom sane.max_reclaim in
      let mem =
        offered_WithinShare a.cfg (bytes_of allocatable resource_memory)
          (recommend a allocatable now).0.protected_memory_bytes a.cfg.memory_target_percent
          a.cfg.min_reclaim_mem_bytes a.last.reclaimable_memory_bytes hm pm sane.memory_target
          sane.memory_floor lm sane.headroom sane.max_reclaim in
      elim (Bool-cases (
        pressure_eq
          (pressure a (milli_of allocatable resource_cpu) (bytes_of allocatable resource_memory)
            now).level
          critical)) [ inl e ↦ rw e ((refl, inl refl), (refl, inl refl)) | inr e ↦ rw e (cpu, mem) ]

  -- Where the largest memory usage in the window is at the threshold or above it, as a percentage
  -- of the allocatable memory, `Recommend` reports critical pressure and offers nothing.
  pub recommend_stops :
      (a : Advisor Float) (allocatable : ResourceList Quantity) (now : ℤ)
      → a.cfg.memory_pressure_threshold_percent
        ≤ℤ pct (f.to_int (max a.node_memory now)) (bytes_of allocatable resource_memory)
      → (let r = (recommend a allocatable now).0 in
          (r.pressure.level ≡ critical)
          × (r.reclaimable_cpu_milli ≡ pos 0)
          × (r.reclaimable_memory_bytes ≡ pos 0))
  unfolding recommend verdict pressure
  recommend_stops a allocatable now h =
      let e : leb_ℤ a.cfg.memory_pressure_threshold_percent
            (pct (f.to_int (max a.node_memory now)) (bytes_of allocatable resource_memory))
          ≡ true =
        ground arith in
      rw e (refl, refl, refl)
