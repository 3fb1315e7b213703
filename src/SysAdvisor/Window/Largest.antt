-- ===== src/SysAdvisor/Window/Largest.antt =====
-- `max` is an upper bound of the live observations and one of them.
use kqos.Prelude.{
  ℕ, zero, suc, ◌<◌, ◌≡◌, false, List, [], ◌∷◌, arith, length, get_or, if◌then◌else◌, Bool-cases,
  AnyOf, inl, inr,
}
use mathlib.Core.Path.{subst}
use kqos.Prelude.Int.{ℤ}
use kqos.Floats.{FloatApi}
use kqos.SysAdvisor.Window.{Window, live, max, max_from, max_of}

module _ {Float : Type 0} ⦃f : FloatApi Float⦄ where
  pub less_irrefl : (a : Float) → f.less a a ≡ false
  less_irrefl a = elim (Bool-cases (f.less a a)) [ inl e ↦ f.less_asym a a e | inr e ↦ e ]

  abbrev larger : Float → Float → Float
  larger m v = if f.less m v then v else m

  larger_bounds : (m v : Float) → (f.less (larger m v) m ≡ false) × (f.less (larger m v) v ≡ false)
  larger_bounds m v = elim (Bool-cases (f.less m v)) [
    | inl e ↦ rw e (f.less_asym m v e, less_irrefl v)
    | inr e ↦ rw e (less_irrefl m, e)
  ]

  max_from_start : (m : Float) (vs : List Float) → f.less (max_from m vs) m ≡ false
  unfolding max_from
  max_from_start m [] = less_irrefl m
  max_from_start m (v ∷ vs) =
      f.not_less_trans (max_from (larger m v) vs) (larger m v) m (max_from_start (larger m v) vs)
        (larger_bounds m v).0

  max_from_entry :
      (m : Float) (vs : List Float) (i : ℕ) (d : Float)
      → i < length vs
      → f.less (max_from m vs) (get_or vs i d) ≡ false
  unfolding max_from
  max_from_entry m [] i d h = absurd (omega arith)
  max_from_entry m (v ∷ vs) zero d h =
      f.not_less_trans (max_from (larger m v) vs) (larger m v) v (max_from_start (larger m v) vs)
        (larger_bounds m v).1
  max_from_entry m (v ∷ vs) (suc i) d h = max_from_entry (larger m v) vs i d (omega arith)

  max_of_entry :
      (vs : List Float) (i : ℕ) (d : Float)
      → i < length vs
      → f.less (max_of vs) (get_or vs i d) ≡ false
  max_of_entry [] i d h = absurd (omega arith)
  max_of_entry (v ∷ vs) zero d h = max_from_start v vs
  max_of_entry (v ∷ vs) (suc i) d h = max_from_entry v vs i d (omega arith)

  -- No live observation of a window is larger than its `max`.
  pub max_bounds :
      (w : Window Float) (now : ℤ) (i : ℕ) (d : Float)
      → i < length (live w now)
      → f.less (max w now) (get_or (live w now) i d) ≡ false
  unfolding max
  max_bounds w now i d h = max_of_entry (live w now) i d h

  max_from_any :
      (m v : Float) (vs : List Float) → AnyOf (λ x. x ≡ v) vs → f.less (max_from m vs) v ≡ false
  unfolding max_from
  max_from_any m v [] h = elim h [ ]
  max_from_any m v (u ∷ vs) (inl e) =
      subst (λ x. f.less (max_from (larger m u) vs) x ≡ false) e
        (f.not_less_trans (max_from (larger m u) vs) (larger m u) u (max_from_start (larger m u) vs)
          (larger_bounds m u).1)
  max_from_any m v (u ∷ vs) (inr h) = max_from_any (larger m u) v vs h

  -- `max` is no less than a live observation.
  pub max_above :
      (w : Window Float) (now : ℤ) (v : Float)
      → AnyOf (λ x. x ≡ v) (live w now)
      → f.less (max w now) v ≡ false
  unfolding max
  max_above w now v h = above (live w now) h
    where
      above : (vs : List Float) → AnyOf (λ x. x ≡ v) vs → f.less (max_of vs) v ≡ false
      above [] h = elim h [ ]
      above (u ∷ vs) (inl e) = subst (λ x. f.less (max_from u vs) x ≡ false) e (max_from_start u vs)
      above (u ∷ vs) (inr h) = max_from_any u v vs h
