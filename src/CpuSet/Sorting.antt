-- ===== src/CpuSet/Sorting.antt =====
-- The order of `sort.Ints`, and what it says of the two ends of a sorted list.
use kqos.Prelude.{ℕ, zero, suc, ◌<◌, ◌≡◌, true, false, List, [], ◌∷◌, arith, take, drop}
use mathlib.Core.Bool.{false≢true}
use kqos.CpuSet.{has, insert_sorted, sort_ints, Distinct}
use kqos.CpuSet.Members.{has-sort_ints, has-drop}

abbrev pub AllAbove : ℕ → List ℕ → Type 0
AllAbove a [] = Unit {0}
AllAbove a (x ∷ xs) = (a < x) × AllAbove a xs

abbrev pub Ascending : List ℕ → Type 0
Ascending [] = Unit {0}
Ascending (x ∷ xs) = AllAbove x xs × Ascending xs

AllAbove-trans : (a b : ℕ) (xs : List ℕ) → a < b → AllAbove b xs → AllAbove a xs
AllAbove-trans a b [] h f = tt
AllAbove-trans a b (x ∷ xs) h f = (omega arith, AllAbove-trans a b xs h f.1)

insert_sorted-AllAbove :
    (a x : ℕ) (xs : List ℕ) → a < x → AllAbove a xs → AllAbove a (insert_sorted x xs)
unfolding insert_sorted
insert_sorted-AllAbove a x [] h f = (h, tt)
insert_sorted-AllAbove a x (y ∷ ys) h f = ground (arith, insert_sorted-AllAbove a x ys h f.1)

insert_sorted-Ascending :
    (x : ℕ) (xs : List ℕ) → has x xs ≡ false → Ascending xs → Ascending (insert_sorted x xs)
unfolding insert_sorted
insert_sorted-Ascending x [] h f = (tt, tt)
insert_sorted-Ascending x (y ∷ ys) h f =
    ground
      (arith, insert_sorted-Ascending x ys, insert_sorted-AllAbove y x ys, AllAbove-trans x y ys)

pub sort_ints-Ascending : (xs : List ℕ) → Distinct xs → Ascending (sort_ints xs)
unfolding sort_ints
sort_ints-Ascending [] d = tt
sort_ints-Ascending (x ∷ xs) d = ground (
  arith,
  insert_sorted-Ascending x (sort_ints xs),
  has-sort_ints x xs,
  sort_ints-Ascending xs d.1,
)

pub lt_of_AllAbove : (a b : ℕ) (xs : List ℕ) → AllAbove a xs → has b xs ≡ true → a < b
lt_of_AllAbove a b [] f h = absurd (false≢true h)
lt_of_AllAbove a b (x ∷ xs) f h = ground (arith, lt_of_AllAbove a b xs f.1)

-- What is taken off the front of an ascending list lies below what remains.
pub take-lt-drop :
    (a b n : ℕ) (xs : List ℕ)
    → Ascending xs
    → has a (take n xs) ≡ true
    → has b (drop n xs) ≡ true
    → a < b
take-lt-drop a b zero xs f h k = absurd (false≢true h)
take-lt-drop a b (suc n) [] f h k = absurd (false≢true h)
take-lt-drop a b (suc n) (x ∷ xs) f h k =
    ground (arith, take-lt-drop a b n xs f.1, lt_of_AllAbove x b xs f.0, has-drop b n xs)
