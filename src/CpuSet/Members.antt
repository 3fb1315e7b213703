-- ===== src/CpuSet/Members.antt =====
-- Membership after each way to write keys, with no condition on the sets.
use kqos.Prelude.{
  ℕ, zero, suc, ◌+◌, ◌≡◌, refl, Bool, true, ◌&&◌, ◌||◌, List, [], ◌∷◌, arith, ltb, leb, ◌==◌,
  if◌then◌else◌, take, drop, to_ℕ,
}
use mathlib.Core.Bool.{false≢true}
use kqos.CpuSet.{has, put, put_if, Distinct, put_range, insert_sorted, sort_ints}

pub has-put : (a x : ℕ) (out : List ℕ) → has a (put x out) ≡ (x == a || has a out)
unfolding put
has-put a x out = ground arith

pub has-put_if :
    (keep : ℕ → Bool) (a : ℕ) (xs out : List ℕ)
    → has a (put_if keep xs out) ≡ (has a out || (has a xs && keep a))
unfolding put_if
has-put_if keep a [] out = ground arith
has-put_if keep a (x ∷ xs) out =
    ground (arith, has-put_if keep a xs (if keep x then put x out else out), has-put a x out)

pub has-insert_sorted : (a x : ℕ) (xs : List ℕ) → has a (insert_sorted x xs) ≡ (x == a || has a xs)
unfolding insert_sorted
has-insert_sorted a x [] = refl
has-insert_sorted a x (y ∷ ys) = ground (arith, has-insert_sorted a x ys)

pub has-sort_ints : (a : ℕ) (xs : List ℕ) → has a (sort_ints xs) ≡ has a xs
unfolding sort_ints
has-sort_ints a [] = refl
has-sort_ints a (x ∷ xs) = ground (arith, has-insert_sorted a x (sort_ints xs), has-sort_ints a xs)

pub has-put_range :
    (n start a : ℕ) (out : List ℕ)
    → has a (put_range n start out) ≡ (has a out || (leb start a && ltb a (start + n)))
unfolding put_range
has-put_range zero start a out = ground arith
has-put_range (suc n) start a out =
    ground (arith, has-put_range n (start + 1) a (put start out), has-put a start out)

-- A key that is in a part of a list is in the list.
pub has-take : (a n : ℕ) (xs : List ℕ) → has a (take n xs) ≡ true → has a xs ≡ true
has-take a zero xs h = absurd (false≢true h)
has-take a (suc n) [] h = h
has-take a (suc n) (x ∷ xs) h = ground (arith, has-take a n xs)

pub has-drop : (a n : ℕ) (xs : List ℕ) → has a (drop n xs) ≡ true → has a xs ≡ true
has-drop a zero xs h = h
has-drop a (suc n) [] h = h
has-drop a (suc n) (x ∷ xs) h = ground (arith, has-drop a n xs)

-- The two parts of a list without repetition share no key.
pub has-take-drop :
    (a n : ℕ) (xs : List ℕ)
    → Distinct xs
    → to_ℕ (has a (take n xs)) + to_ℕ (has a (drop n xs)) ≡ to_ℕ (has a xs)
has-take-drop a zero xs d = omega arith
has-take-drop a (suc n) [] d = omega arith
has-take-drop a (suc n) (x ∷ xs) d =
    ground (arith, has-take-drop a n xs d.1, has-take a n xs, has-drop a n xs)
