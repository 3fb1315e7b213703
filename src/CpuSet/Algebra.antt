-- ===== src/CpuSet/Algebra.antt =====
-- The set algebra by membership, the sizes that the pool manager relies on, and `Equals`.
use kqos.Prelude.{
  ℕ, ◌+◌, ◌-◌, ◌≤◌, ◌≡◌, refl, Bool, true, false, not, ◌&&◌, ◌||◌, List, [], ◌∷◌, arith, ltb, leb,
  ◌==◌, length, to_ℕ, count, all,
}
use mathlib.Core.Bool.{false≢true}
use kqos.CpuSet.{
  CpuSet, has, put_if, Distinct, IsWf, new, new_range, size, contains, union, intersection,
  difference,
}
use kqos.CpuSet.Members.{has-put_if, has-put_range}
use kqos.CpuSet.Sizes.{
  put_if-Distinct, put_range-Distinct, length-put_if, length-put_if_le, Fresh, Fresh-nil, count-not,
  count-all_true,
}

pub contains-union :
    (c o : CpuSet) (a : ℕ) → contains (union c o) a ≡ (contains c a || contains o a)
unfolding contains union
contains-union c o a = ground (
  arith,
  has-put_if (λ _. true) a o.elems (put_if (λ _. true) c.elems []),
  has-put_if (λ _. true) a c.elems [],
)

pub contains-intersection :
    (c o : CpuSet) (a : ℕ) → contains (intersection c o) a ≡ (contains c a && contains o a)
unfolding contains intersection
contains-intersection c o a = has-put_if (contains o) a c.elems []

pub contains-difference :
    (c o : CpuSet) (a : ℕ) → contains (difference c o) a ≡ (contains c a && not (contains o a))
unfolding contains difference
contains-difference c o a = has-put_if (λ id. not (contains o id)) a c.elems []

pub contains-new : (ids : List ℕ) (a : ℕ) → contains (new ids) a ≡ has a ids
unfolding contains new
contains-new ids a = ground (arith, has-put_if (λ _. true) a ids [])

pub contains-new_range :
    (start end a : ℕ) → contains (new_range start end) a ≡ (leb start a && ltb a end)
unfolding contains new_range
contains-new_range start end a = ground (arith, has-put_range (end - start) start a [])

pub new-IsWf : (ids : List ℕ) → IsWf (new ids)
unfolding new
new-IsWf ids = put_if-Distinct _ ids [] tt

pub new_range-IsWf : (start end : ℕ) → IsWf (new_range start end)
unfolding new_range
new_range-IsWf start end = put_range-Distinct (end - start) start [] tt

pub union-IsWf : (c o : CpuSet) → IsWf (union c o)
unfolding union
union-IsWf c o = put_if-Distinct _ o.elems _ (put_if-Distinct _ c.elems [] tt)

pub intersection-IsWf : (c o : CpuSet) → IsWf (intersection c o)
unfolding intersection
intersection-IsWf c o = put_if-Distinct _ c.elems [] tt

pub difference-IsWf : (c o : CpuSet) → IsWf (difference c o)
unfolding difference
difference-IsWf c o = put_if-Distinct _ c.elems [] tt

-- The operations build a map again from its keys, so a set is as large as its list of ids.
pub size-new : (ids : List ℕ) → Distinct ids → size (new ids) ≡ length ids
unfolding size new
size-new ids d =
    omega (arith, length-put_if (λ _. true) ids [] d (Fresh-nil ids), count-all_true ids)

-- What is taken out and what is kept make up the whole.
pub size-difference-intersection :
    (c o : CpuSet) → IsWf c → size (difference c o) + size (intersection c o) ≡ size c
unfolding size difference intersection
size-difference-intersection c o d = omega (
  arith,
  length-put_if (λ id. not (contains o id)) c.elems [] d (Fresh-nil c.elems),
  length-put_if (contains o) c.elems [] d (Fresh-nil c.elems),
  count-not (contains o) c.elems,
)

pub size-union-le : (c o : CpuSet) → size (union c o) ≤ size c + size o
unfolding size union
size-union-le c o = omega (
  arith,
  length-put_if_le (λ _. true) o.elems (put_if (λ _. true) c.elems []),
  length-put_if_le (λ _. true) c.elems [],
  count-all_true c.elems,
  count-all_true o.elems,
)

count-eq : (x : ℕ) (ys : List ℕ) → Distinct ys → count (λ y. x == y) ys ≡ to_ℕ (has x ys)
count-eq x [] d = omega arith
count-eq x (y ∷ ys) d = ground (arith, count-eq x ys d.1)

count-or :
    (x : ℕ) (xs ys : List ℕ)
    → has x xs ≡ false
    → count (λ y. x == y || has y xs) ys ≡ count (λ y. x == y) ys + count (λ y. has y xs) ys
count-or x xs [] h = omega arith
count-or x xs (y ∷ ys) h = ground (arith, count-or x xs ys h)

count-false : (ys : List ℕ) → count (λ y. false) ys ≡ 0
count-false [] = refl
count-false (y ∷ ys) = omega (arith, count-false ys)

-- The keys that two sets share, counted in either.
pub count-has :
    (xs ys : List ℕ)
    → Distinct xs
    → Distinct ys
    → count (λ y. has y xs) ys ≡ count (λ x. has x ys) xs
count-has [] ys d e = count-false ys
count-has (x ∷ xs) ys d e =
    omega (arith, count-or x xs ys d.0, count-eq x ys e, count-has xs ys d.1 e)

count-le : (p : ℕ → Bool) (xs : List ℕ) → count p xs ≤ length xs
count-le p [] = omega arith
count-le p (x ∷ xs) = ground (arith, count-le p xs)

pub all_of_count : (p : ℕ → Bool) (xs : List ℕ) → length xs ≤ count p xs → all p xs ≡ true
all_of_count p [] h = refl
all_of_count p (x ∷ xs) h = ground (arith, all_of_count p xs, count-le p xs)

pub count_of_all : (p : ℕ → Bool) (xs : List ℕ) → all p xs ≡ true → count p xs ≡ length xs
count_of_all p [] h = refl
count_of_all p (x ∷ xs) h = ground (arith, count_of_all p xs)

pub all_at : (p : ℕ → Bool) (xs : List ℕ) (a : ℕ) → all p xs ≡ true → has a xs ≡ true → p a ≡ true
all_at p [] a h m = absurd (false≢true m)
all_at p (x ∷ xs) a h m = ground (arith, all_at p xs a)

-- A set whose size the intersection with another keeps is inside of the other.
pub size-intersection_comm :
    (c o : CpuSet) → IsWf c → IsWf o → size (intersection c o) ≡ size (intersection o c)
unfolding size intersection contains
size-intersection_comm c o d e = omega (
  arith,
  length-put_if (contains o) c.elems [] d (Fresh-nil c.elems),
  length-put_if (contains c) o.elems [] e (Fresh-nil o.elems),
  count-has c.elems o.elems d e,
)

pub all_of_has :
    (xs ys : List ℕ) → ((a : ℕ) → has a xs ≡ true → has a ys ≡ true) → all (λ x. has x ys) xs ≡ true
all_of_has [] ys h = refl
all_of_has (x ∷ xs) ys h = ground (arith, h x, all_of_has xs ys (λ a m. h a (ground arith)))

Fresh-apart : (xs out : List ℕ) → ((a : ℕ) → has a xs ≡ true → has a out ≡ false) → Fresh xs out
Fresh-apart [] out h = tt
Fresh-apart (x ∷ xs) out h = (h x (ground arith), Fresh-apart xs out (λ a m. h a (ground arith)))

module _ (c o : CpuSet) (d : IsWf c) (e : IsWf o) where
  pub size-union_apart :
      ((a : ℕ) → contains o a ≡ true → contains c a ≡ false) → size (union c o) ≡ size c + size o
  unfolding size union contains
  size-union_apart h = omega (
    arith,
    length-put_if (λ _. true) o.elems (put_if (λ _. true) c.elems []) e
        (Fresh-apart o.elems _ (λ a m. ground (arith, has-put_if (λ _. true) a c.elems [], h a m))),
    length-put_if (λ _. true) c.elems [] d (Fresh-nil c.elems),
    count-all_true c.elems,
    count-all_true o.elems,
  )

  pub size-intersection_sub :
      ((a : ℕ) → contains o a ≡ true → contains c a ≡ true) → size (intersection c o) ≡ size o
  unfolding size intersection contains
  size-intersection_sub h = omega (
    arith,
    length-put_if (contains o) c.elems [] d (Fresh-nil c.elems),
    count-has c.elems o.elems d e,
    count_of_all (λ x. has x c.elems) o.elems (all_of_has o.elems c.elems h),
  )
