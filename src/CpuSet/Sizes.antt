-- ===== src/CpuSet/Sizes.antt =====
-- How many keys a set holds after each way to write them, and that no key stands twice.
use kqos.Prelude.{
  ℕ, zero, suc, ◌+◌, ◌≤◌, ◌≡◌, ◌∙◌, refl, Bool, true, false, not, List, [], ◌∷◌, arith,
  if◌then◌else◌, length, take, drop, count,
}
use kqos.CpuSet.{has, put, put_if, put_range, insert_sorted, sort_ints, Distinct}
use kqos.CpuSet.Members.{has-put, has-insert_sorted, has-sort_ints, has-take}

pub put-Distinct : (x : ℕ) (out : List ℕ) → Distinct out → Distinct (put x out)
unfolding put
put-Distinct x out d = ground arith

pub put_if-Distinct :
    (keep : ℕ → Bool) (xs out : List ℕ) → Distinct out → Distinct (put_if keep xs out)
unfolding put_if
put_if-Distinct keep [] out d = d
put_if-Distinct keep (x ∷ xs) out d =
    put_if-Distinct keep xs _ (ground (arith, put-Distinct x out d))

pub put_range-Distinct :
    (n start : ℕ) (out : List ℕ) → Distinct out → Distinct (put_range n start out)
unfolding put_range
put_range-Distinct zero start out d = d
put_range-Distinct (suc n) start out d =
    put_range-Distinct n (start + 1) (put start out) (put-Distinct start out d)

pub insert_sorted-Distinct :
    (x : ℕ) (xs : List ℕ) → has x xs ≡ false → Distinct xs → Distinct (insert_sorted x xs)
unfolding insert_sorted
insert_sorted-Distinct x [] h d = (refl, tt)
insert_sorted-Distinct x (y ∷ ys) h d =
    ground (arith, insert_sorted-Distinct x ys, has-insert_sorted y x ys)

pub sort_ints-Distinct : (xs : List ℕ) → Distinct xs → Distinct (sort_ints xs)
unfolding sort_ints
sort_ints-Distinct [] d = tt
sort_ints-Distinct (x ∷ xs) d =
    insert_sorted-Distinct x (sort_ints xs) (has-sort_ints x xs ∙ d.0) (sort_ints-Distinct xs d.1)

pub take-Distinct : (n : ℕ) (xs : List ℕ) → Distinct xs → Distinct (take n xs)
take-Distinct zero xs d = tt
take-Distinct (suc n) [] d = tt
take-Distinct (suc n) (x ∷ xs) d = ground (arith, take-Distinct n xs d.1, has-take x n xs)

pub drop-Distinct : (n : ℕ) (xs : List ℕ) → Distinct xs → Distinct (drop n xs)
drop-Distinct zero xs d = d
drop-Distinct (suc n) [] d = tt
drop-Distinct (suc n) (x ∷ xs) d = drop-Distinct n xs d.1

pub length-insert_sorted : (x : ℕ) (xs : List ℕ) → length (insert_sorted x xs) ≡ suc (length xs)
unfolding insert_sorted
length-insert_sorted x [] = refl
length-insert_sorted x (y ∷ ys) = ground (arith, length-insert_sorted x ys)

pub length-sort_ints : (xs : List ℕ) → length (sort_ints xs) ≡ length xs
unfolding sort_ints
length-sort_ints [] = refl
length-sort_ints (x ∷ xs) =
    omega (arith, length-insert_sorted x (sort_ints xs), length-sort_ints xs)

-- Keys that are new and distinct are all added.
pub length-put_if_le :
    (keep : ℕ → Bool) (xs out : List ℕ) → length (put_if keep xs out) ≤ length out + count keep xs
unfolding put_if put
length-put_if_le keep [] out = omega arith
length-put_if_le keep (x ∷ xs) out =
    ground (arith, length-put_if_le keep xs (if keep x then put x out else out))

-- No element of the first list is a key of the second.
abbrev pub Fresh : List ℕ → List ℕ → Type 0
Fresh [] out = Unit {0}
Fresh (x ∷ xs) out = (has x out ≡ false) × Fresh xs out

pub Fresh-put : (x : ℕ) (xs out : List ℕ) → has x xs ≡ false → Fresh xs out → Fresh xs (put x out)
Fresh-put x [] out h f = tt
Fresh-put x (y ∷ ys) out h f = ground (arith, Fresh-put x ys out, has-put y x out)

pub Fresh-nil : (xs : List ℕ) → Fresh xs []
Fresh-nil [] = tt
Fresh-nil (x ∷ xs) = (refl, Fresh-nil xs)

pub length-put_if :
    (keep : ℕ → Bool) (xs out : List ℕ)
    → Distinct xs
    → Fresh xs out
    → length (put_if keep xs out) ≡ length out + count keep xs
unfolding put_if put
length-put_if keep [] out d f = omega arith
length-put_if keep (x ∷ xs) out d f =
    ground (arith, length-put_if keep xs out, length-put_if keep xs (x ∷ out), Fresh-put x xs out)

pub count-not :
    (keep : ℕ → Bool) (xs : List ℕ) → count (λ x. not (keep x)) xs + count keep xs ≡ length xs
count-not keep [] = omega arith
count-not keep (x ∷ xs) = ground (arith, count-not keep xs)

pub count-all_true : (xs : List ℕ) → count (λ _. true) xs ≡ length xs
count-all_true [] = refl
count-all_true (x ∷ xs) = omega (arith, count-all_true xs)
