-- ===== src/CpuSet/Taking.antt =====
-- `Take` and `TakeFrom`: what is taken, what remains, and how much.
use kqos.Prelude.{
  ℕ, ◌+◌, ◌<◌, ◌≡◌, ◌∙◌, sym, ap, true, List, arith, length, take, drop, to_ℕ, length-take,
  length-drop,
}
use Prim.Native.Nat.{min}
use kqos.Prelude.Int.{ℤ, pos_part}
use kqos.CpuSet.{CpuSet, IsWf, size, contains, list, take_ids, take_count, sort_ints}
use kqos.CpuSet.Members.{has-sort_ints, has-take-drop}
use kqos.CpuSet.Sizes.{sort_ints-Distinct, take-Distinct, drop-Distinct, length-sort_ints}
use kqos.CpuSet.Sorting.{sort_ints-Ascending, take-lt-drop}
use kqos.CpuSet.Algebra.{contains-new, new-IsWf, size-new}

module _ (c : CpuSet) (n : ℤ) (d : IsWf c) where
  abbrev taken_ids : List ℕ
  taken_ids = take (take_count n (length (list c))) (list c)

  pub contains-take_ids :
      (a : ℕ)
      → to_ℕ (contains (take_ids c n).0 a) + to_ℕ (contains (take_ids c n).1 a)
        ≡ to_ℕ (contains c a)
  unfolding take_ids list contains
  contains-take_ids a =
      let k = take_count n (length (sort_ints c.elems)) in
      rw (contains-new (take k (sort_ints c.elems)) a, contains-new (drop k (sort_ints c.elems)) a)
        (has-take-drop a k (sort_ints c.elems) (sort_ints-Distinct c.elems d)
          ∙ ap to_ℕ (has-sort_ints a c.elems))

  pub size-take_ids :
      (size (take_ids c n).0 ≡ min (pos_part n) (size c))
      × (size (take_ids c n).0 + size (take_ids c n).1 ≡ size c)
  unfolding take_ids list size
  size-take_ids =
      let ids = sort_ints c.elems in
      let k = take_count n (length ids) in
      let ids_distinct = sort_ints-Distinct c.elems d in
      ground (
        arith,
        size-new (take k ids) (take-Distinct k ids ids_distinct),
        size-new (drop k ids) (drop-Distinct k ids ids_distinct),
        length-take k ids,
        length-drop k ids,
        length-sort_ints c.elems,
      )

  -- The lowest ids go first.
  pub take_ids_lowest :
      (a b : ℕ) → contains (take_ids c n).0 a ≡ true → contains (take_ids c n).1 b ≡ true → a < b
  unfolding take_ids list
  take_ids_lowest a b h k =
      let m = take_count n (length (sort_ints c.elems)) in
      take-lt-drop a b m (sort_ints c.elems) (sort_ints-Ascending c.elems d)
        (sym (contains-new (take m (sort_ints c.elems)) a) ∙ h)
        (sym (contains-new (drop m (sort_ints c.elems)) b) ∙ k)

  pub take_ids-IsWf : IsWf (take_ids c n).0 × IsWf (take_ids c n).1
  unfolding take_ids
  take_ids-IsWf = (new-IsWf _, new-IsWf _)
