-- ===== src/CpuSet/TakingFrom.antt =====
-- `TakeFrom`: the preferred ids go first, and the count is met from the others.
use kqos.Prelude.{ℕ, ◌+◌, ◌-◌, ◌≤◌, ◌≡◌, refl, true, false, arith, length, List, [], ◌∷◌}
use Prim.Native.Nat.{min}
use kqos.Prelude.Int.{ℤ, pos, pos_part, ◌-ℤ◌, -ℤ_parts}
use kqos.CpuSet.{
  CpuSet, has, IsWf, size, contains, union, intersection, difference, take_ids, take_from,
}
use kqos.CpuSet.Algebra.{
  contains-union, contains-intersection, contains-difference, union-IsWf, intersection-IsWf,
  difference-IsWf, size-union_apart, size-intersection_sub, size-difference-intersection,
}
use kqos.CpuSet.Taking.{contains-take_ids, size-take_ids, take_ids-IsWf}

-- `a` is a member of the first only if it is one of the second.
abbrev pub Sub : CpuSet → CpuSet → Type 0
Sub c o = (a : ℕ) → contains c a ≡ true → contains o a ≡ true

pub take_ids-Sub : (c : CpuSet) (n : ℤ) → IsWf c → Sub (take_ids c n).0 c
take_ids-Sub c n d a h = ground (arith, contains-take_ids c n d a)

pub contains_none : (c : CpuSet) (a : ℕ) → size c ≡ 0 → contains c a ≡ false
unfolding size contains
contains_none c a h = has_none c.elems a h
  where
    has_none : (xs : List ℕ) (a : ℕ) → length xs ≡ 0 → has a xs ≡ false
    has_none [] a h = refl
    has_none (x ∷ xs) a h = absurd (omega arith)

module _ (c : CpuSet) (n : ℤ) (preferred : CpuSet) (d : IsWf c) where
  abbrev first : CpuSet
  first = (take_ids (intersection c preferred) n).0

  abbrev others : CpuSet
  others = difference c first

  abbrev extra : CpuSet
  extra = (take_ids others (n -ℤ pos (size first))).0

  first-IsWf : IsWf first
  first-IsWf = (take_ids-IsWf (intersection c preferred) n (intersection-IsWf c preferred)).0

  first-Sub : Sub first c
  first-Sub a h = ground (
    arith,
    take_ids-Sub (intersection c preferred) n (intersection-IsWf c preferred) a h,
    contains-intersection c preferred a,
  )

  extra-Sub : Sub extra others
  extra-Sub = take_ids-Sub others (n -ℤ pos (size first)) (difference-IsWf c first)

  pub take_from-Sub : Sub (take_from c n preferred).0 c
  unfolding take_from
  take_from-Sub a h =
      ground (
        arith,
        first-Sub a,
        extra-Sub a,
        contains-union first extra a,
        contains-difference c first a,
      )

  pub take_from-IsWf : IsWf (take_from c n preferred).0 × IsWf (take_from c n preferred).1
  unfolding take_from
  take_from-IsWf = (ground (arith, first-IsWf, union-IsWf first extra), difference-IsWf c _)

  pub take_from_rest : (take_from c n preferred).1 ≡ difference c (take_from c n preferred).0
  unfolding take_from
  take_from_rest = refl

  size-first : size first ≡ min (pos_part n) (size (intersection c preferred))
  size-first = (size-take_ids (intersection c preferred) n (intersection-IsWf c preferred)).0

  -- Nothing is counted twice when the others are added.
  size-extra :
      size (union first extra)
      ≡ size first + min (pos_part (n -ℤ pos (size first))) (size c - size first)
  size-extra = omega (
    arith,
    size-union_apart first extra first-IsWf (take_ids-IsWf others _ (difference-IsWf c first)).0
        (λ a h. ground (arith, extra-Sub a h, contains-difference c first a)),
    (size-take_ids others (n -ℤ pos (size first)) (difference-IsWf c first)).0,
    size-difference-intersection c first d,
    size-intersection_sub c first d first-IsWf first-Sub,
  )

  size-first-le : size first ≤ size c
  size-first-le = omega (
    arith,
    size-difference-intersection c first d,
    size-intersection_sub c first d first-IsWf first-Sub,
  )

  -- As many ids are taken as are asked for and there are, and the rest is what was not taken.
  pub size-take_from :
      (size (take_from c n preferred).0 ≡ min (pos_part n) (size c))
      × (size (take_from c n preferred).0 + size (take_from c n preferred).1 ≡ size c)
  size-take_from = (taken, whole)
    where
      taken : size (take_from c n preferred).0 ≡ min (pos_part n) (size c)
      taken =
          unfold take_from in
          ground (arith, size-first, size-extra, size-first-le, -ℤ_parts n (pos (size first)))

      whole : size (take_from c n preferred).0 + size (take_from c n preferred).1 ≡ size c
      whole = rw take_from_rest (
          omega (
            arith,
            size-difference-intersection c (take_from c n preferred).0 d,
            size-intersection_sub c (take_from c n preferred).0 d take_from-IsWf.0 take_from-Sub,
          ))

  -- Either all that was taken is preferred, or all that is free and preferred was taken.
  pub take_from_prefers :
      (a b : ℕ)
      → contains (take_from c n preferred).0 a ≡ true
      → contains preferred a ≡ false
      → contains c b ≡ true
      → contains preferred b ≡ true
      → contains (take_from c n preferred).0 b ≡ true
  unfolding take_from
  take_from_prefers a b h other free wanted =
      let found = intersection c preferred in
      ground (
        arith,
        size-take_ids found n (intersection-IsWf c preferred),
        contains-take_ids found n (intersection-IsWf c preferred) a,
        contains-take_ids found n (intersection-IsWf c preferred) b,
        contains_none (take_ids found n).1 b,
        contains-intersection c preferred a,
        contains-intersection c preferred b,
        contains-union first extra a,
        contains-union first extra b,
      )
