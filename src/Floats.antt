-- ===== src/Floats.antt =====
-- float64 as a parameter: its operations, and what the program relies on, for numbers that are no
-- NaN. Comparison is a total order up to equality; conversions to int64 cut off towards zero, and of
-- a number below int64's range give the least int64, as on the platforms of Kubernetes; whole
-- numbers up to 2^53 are exact, and so is taking 1 from a number between 1 and 2^53.
use kqos.Prelude.{◌≤◌, ℕ, suc, ◌≡◌, Bool, true, false}
use kqos.Prelude.Int.{ℤ, pos, pos_part, ◌≤ℤ◌}

-- 2^53
abbrev pub max_exact : ℕ
max_exact = 9_007_199_254_740_992

pub record FloatApi (Float : Type 0) : Type 0 where
  pub of_int : ℤ → Float
  pub to_int : Float → ℤ
  pub round_to_int : Float → ℤ
  pub add : Float → Float → Float
  pub sub : Float → Float → Float
  pub mul : Float → Float → Float
  pub div : Float → Float → Float
  pub abs : Float → Float
  -- The least whole number that is not less, `int(math.Ceil(x))`.
  pub ceil_to_int : Float → ℤ
  -- A constant of the source, as a fraction.
  pub fraction : ℕ → ℕ → Float
  -- `a < b`
  pub less : Float → Float → Bool
  -- `a <= b`; nothing is assumed of it, so that it may be false of a NaN.
  pub at_most : Float → Float → Bool
  pub less_asym : (a b : Float) → less a b ≡ true → less b a ≡ false
  pub not_less_trans : (a b c : Float) → less a b ≡ false → less b c ≡ false → less a c ≡ false
  -- The difference to 1 is no larger.
  pub less_sub_one : (a : Float) → less a (sub a (of_int (pos 1))) ≡ false
  pub to_int_of_int : (n : ℕ) → n ≤ max_exact → to_int (of_int (pos n)) ≡ pos n
  pub to_int_at_most :
      (a : Float) (n : ℕ) → n ≤ max_exact → less (of_int (pos n)) a ≡ false → to_int a ≤ℤ pos n
  -- Of numbers up to `n`, the larger one is not converted to less.
  pub to_int_mono :
      (a b : Float) (n : ℕ)
      → n ≤ max_exact
      → less (of_int (pos n)) b ≡ false
      → less b a ≡ false
      → to_int a ≤ℤ to_int b
  pub to_int_sub_one :
      (a : Float) (n : ℕ)
      → n ≤ max_exact
      → less (of_int (pos n)) a ≡ false
      → less a (of_int (pos 1)) ≡ false
      → suc (pos_part (to_int (sub a (of_int (pos 1))))) ≡ pos_part (to_int a)
