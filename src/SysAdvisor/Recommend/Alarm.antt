-- ===== src/SysAdvisor/Recommend/Alarm.antt =====
-- An alarm lasts as long as its observation is in the window.
use kqos.Prelude.{
  ℕ, zero, suc, ◌-◌, ◌*◌, ◌/◌, ◌≤◌, ◌<◌, ◌≡◌, inl, inr, refl, ap, false, arith, List, [], ◌∷◌, ◌++◌,
  Bool-cases, length, length-append, drop, if◌then◌else◌, AnyOf,
}
use mathlib.Core.Path.{subst}
use native.Mathlib.Nat.{le-div_iff_mul-le, div-mul-le_self}
use kqos.Prelude.Int.{
  ℤ, pos, negsuc, pos_part, neg_part, ltb_ℤ, leb_ℤ, ◌≤ℤ◌, ◌-ℤ◌, ◌*ℤ◌, ◌/ℤ◌, int64,
}
use kqos.Floats.{FloatApi, max_exact}
use kqos.Kubernetes.{QuantityApi, ResourceList, resource_memory}
use kqos.SysAdvisor.Window.{new_window, live, max}
use kqos.SysAdvisor.Window.History.{Observation, push_all, recent, live-newest}
use kqos.SysAdvisor.Window.Largest.{max_above}
use kqos.SysAdvisor.Advisor.{Advisor, pct, critical}
use kqos.SysAdvisor.Recommend.{bytes_of, recommend}
use kqos.SysAdvisor.Recommend.Safety.{recommend_stops}

quotient_mono : (n m w : ℕ) → n ≤ m → 0 < w → n / w ≤ m / w
quotient_mono n m w h p = (le-div_iff_mul-le p).1 (omega (arith, h, div-mul-le_self n w))

hundredfold : (n : ℕ) → n ≤ max_exact → int64 (pos n *ℤ pos 100) ≡ pos (n * 100)
unfolding int64 ◌*ℤ◌
hundredfold n h = ground arith

capped_mono :
    (u v w : ℕ)
    → u ≤ v
    → (if leb_ℤ (pos w) (pos 0)
        then pos 0
        else if ltb_ℤ (pos u) (pos 0)
        then pos 0
        else if ltb_ℤ (pos 100) (pos u)
        then pos 100
        else pos u)
      ≤ℤ (if leb_ℤ (pos w) (pos 0)
          then pos 0
          else if ltb_ℤ (pos v) (pos 0)
          then pos 0
          else if ltb_ℤ (pos 100) (pos v)
          then pos 100
          else pos v)
capped_mono u v w h = ground arith

-- More of the same whole is no smaller a percentage.
pct_mono : (n m : ℕ) (whole : ℤ) → n ≤ m → m ≤ max_exact → pct (pos n) whole ≤ℤ pct (pos m) whole
unfolding pct ◌/ℤ◌
pct_mono n m (pos zero) h k = omega arith
pct_mono n m (pos (suc w)) h k =
    rw (hundredfold n (omega (arith, h, k)), hundredfold m k)
      (capped_mono (n * 100 / suc w) (m * 100 / suc w) (suc w)
        (quotient_mono (n * 100) (m * 100) (suc w) (omega (arith, h)) (omega arith)))
pct_mono n m (negsuc w) h k = ground arith

whole_of : (n : ℕ) (q : ℤ) → pos n ≤ℤ q → pos (pos_part q) ≡ q
whole_of n q h = ground arith

drop-newer :
    {A : Type 0} (k : ℕ) (older : List A) (x : A) (newer : List A)
    → k ≤ length older
    → drop k (older ++ x ∷ newer) ≡ drop k older ++ x ∷ newer
drop-newer zero older x newer h = refl
drop-newer (suc k) [] x newer h = absurd (omega arith)
drop-newer (suc k) (y ∷ older) x newer h = drop-newer k older x newer (omega arith)

module _ {Float : Type 0} ⦃f : FloatApi Float⦄ where
  -- An observation that is not before the cutoff is among the recent ones.
  recent-AnyOf :
      (cutoff : ℤ) (older : List (Observation Float)) (v : Float) (at : ℤ)
      (newer : List (Observation Float))
      → cutoff ≤ℤ at
      → AnyOf (λ x. x ≡ v) (recent cutoff (older ++ (v, at) ∷ newer))
  recent-AnyOf cutoff [] v at newer h =
      let e : ltb_ℤ at cutoff ≡ false = ground arith in rw e (inl refl)
  recent-AnyOf cutoff ((u, t) ∷ older) v at newer h = elim (Bool-cases (ltb_ℤ t cutoff)) [
    | inl e ↦ rw e (recent-AnyOf cutoff older v at newer h)
    | inr e ↦ rw e (inr (recent-AnyOf cutoff older v at newer h))
  ]

  -- An observation within the horizon that fewer than a window's slots have followed is live.
  live-AnyOf :
      (capacity horizon now : ℤ) (older : List (Observation Float)) (v : Float) (at : ℤ)
      (newer : List (Observation Float))
      → length newer < (if ltb_ℤ capacity (pos 1) then 1 else pos_part capacity)
      → (now -ℤ horizon) ≤ℤ at
      → AnyOf
          (λ x. x ≡ v)
          (live (push_all (new_window capacity horizon) (older ++ (v, at) ∷ newer)) now)
  live-AnyOf capacity horizon now older v at newer h late =
      let slots = if ltb_ℤ capacity (pos 1) then 1 else pos_part capacity in
      let obs = older ++ (v, at) ∷ newer in
      let few : length obs - slots ≤ length older =
        omega (arith, h, length-append older ((v, at) ∷ newer)) in
      rw
        (
          live-newest capacity horizon now obs,
          drop-newer (length obs - slots) older (v, at) newer few,
        )
        (recent-AnyOf (now -ℤ horizon) (drop (length obs - slots) older) v at newer late)

module _ {Float Quantity : Type 0} ⦃f : FloatApi Float⦄ ⦃api : QuantityApi Quantity⦄ where
  -- The node's memory was observed as `bytes`, which are at the threshold or above it, within the
  -- horizon, and fewer observations than the window has slots have followed: then `Recommend`
  -- reports critical pressure and offers nothing, whatever was observed before and since. The
  -- largest observation in the window is at most 2^53.
  pub recommend_alarmed :
      (a : Advisor Float) (allocatable : ResourceList Quantity) (now capacity horizon : ℤ)
      (older newer : List (Observation Float)) (bytes : ℕ) (at : ℤ)
      → a.node_memory
        ≡ push_all (new_window capacity horizon) (older ++ (f.of_int (pos bytes), at) ∷ newer)
      → length newer < (if ltb_ℤ capacity (pos 1) then 1 else pos_part capacity)
      → (now -ℤ horizon) ≤ℤ at
      → bytes ≤ max_exact
      → f.less (f.of_int (pos max_exact)) (max a.node_memory now) ≡ false
      → a.cfg.memory_pressure_threshold_percent
        ≤ℤ pct (pos bytes) (bytes_of allocatable resource_memory)
      → (let r = (recommend a allocatable now).0 in
          (r.pressure.level ≡ critical)
          × (r.reclaimable_cpu_milli ≡ pos 0)
          × (r.reclaimable_memory_bytes ≡ pos 0))
  recommend_alarmed a allocatable now capacity horizon older newer bytes at w few late exact fits
        high =
      let observed : AnyOf (λ x. x ≡ f.of_int (pos bytes)) (live a.node_memory now) =
        rw w (live-AnyOf capacity horizon now older (f.of_int (pos bytes)) at newer few late) in
      let above = max_above a.node_memory now (f.of_int (pos bytes)) observed in
      let used = f.to_int (max a.node_memory now) in
      let no_less : pos bytes ≤ℤ used =
        subst (λ b. b ≤ℤ used) (f.to_int_of_int bytes exact)
          (f.to_int_mono (f.of_int (pos bytes)) (max a.node_memory now) max_exact (omega arith) fits
            above) in
      let bound = f.to_int_at_most (max a.node_memory now) max_exact (omega arith) fits in
      let whole : pos (pos_part used) ≡ used = whole_of bytes used no_less in
      let more =
        pct_mono bytes (pos_part used) (bytes_of allocatable resource_memory)
          (omega (arith, no_less, bound, ap neg_part whole))
          (omega (arith, no_less, bound, ap neg_part whole)) in
      recommend_stops a allocatable now (
        omega (
          arith,
          high,
          subst
              (λ u.
                pct (pos bytes) (bytes_of allocatable resource_memory)
                ≤ℤ pct u (bytes_of allocatable resource_memory))
              whole more,
        ))
