-- ===== src/Prelude/Selecting.antt =====
-- What a loop that keeps some entries keeps.
use Prim.Native.Nat.{◌≤◌}
use mathlib.Core.Path.{◌≡◌, refl, ap}
use mathlib.Core.Logic.{inl, inr}
use mathlib.Core.Bool.{Bool, true, false}
use mathlib.Core.List.{List, [], ◌∷◌}
use native.Mathlib.Omega.{arith}
use kqos.Prelude.Tests.{Bool-cases}
use kqos.Prelude.Lists.{length, AllOf}
use kqos.Prelude.Counting.{select}

pub length-select : {A : Type 0} (p : A → Bool) (xs : List A) → length (select p xs) ≤ length xs
unfolding select
length-select p [] = omega arith
length-select p (x ∷ xs) = elim (Bool-cases (p x)) [
  | inl e ↦ simp e (omega (arith, length-select p xs))
  | inr e ↦ simp e (omega (arith, length-select p xs))
]

-- Selecting twice by a test that follows from the other is selecting once.
pub select-select :
    {A : Type 0} (p q : A → Bool) (xs : List A)
    → ((x : A) → q x ≡ false → p x ≡ false)
    → select p (select q xs) ≡ select p xs
unfolding select
select-select p q [] h = refl
select-select p q (x ∷ xs) h = elim (Bool-cases (q x)) [
  | inl e ↦ elim (Bool-cases (p x)) [
    | inl g ↦ simp (e, g) (ap (λ r. x ∷ r) (select-select p q xs h))
    | inr g ↦ simp (e, g) (select-select p q xs h)
  ]
  | inr e ↦ simp (e, h x e) (select-select p q xs h)
]

-- What is kept passes the test.
pub select-AllOf : {A : Type 0} (p : A → Bool) (xs : List A) → AllOf (λ x. p x ≡ true) (select p xs)
unfolding select
select-AllOf p [] = tt
select-AllOf p (x ∷ xs) = elim (Bool-cases (p x)) [
  | inl e ↦ simp e (refl, select-AllOf p xs)
  | inr e ↦ simp e (select-AllOf p xs)
]
