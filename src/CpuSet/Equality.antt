-- ===== src/CpuSet/Equality.antt =====
-- `Equals` against the sets' members.
use kqos.Prelude.{ℕ, ◌≡◌, ◌∙◌, ◌↔◌, refl, sym, Bool, true, false, List, arith, length, all}
use kqos.CpuSet.{CpuSet, has, Distinct, IsWf, contains, equals}
use kqos.CpuSet.Algebra.{count-has, all_of_count, count_of_all, all_at, all_of_has}

-- Two duplicate-free lists of one length, one inside of the other, have the same members.
has_back :
    (xs ys : List ℕ) (a : ℕ)
    → Distinct xs
    → Distinct ys
    → length xs ≡ length ys
    → all (λ x. has x ys) xs ≡ true
    → has a ys ≡ true
    → has a xs ≡ true
has_back xs ys a d e l h m =
    all_at (λ y. has y xs) ys a
      (all_of_count (λ y. has y xs) ys
        (omega (arith, count-has xs ys d e, count_of_all (λ x. has x ys) xs h)))
      m

same_length :
    (xs ys : List ℕ)
    → Distinct xs
    → Distinct ys
    → all (λ x. has x ys) xs ≡ true
    → all (λ y. has y xs) ys ≡ true
    → length xs ≡ length ys
same_length xs ys d e h k = omega (
  arith,
  count-has xs ys d e,
  count_of_all (λ x. has x ys) xs h,
  count_of_all (λ y. has y xs) ys k,
)

Bool_ext : (a b : Bool) → (a ≡ true → b ≡ true) → (b ≡ true → a ≡ true) → a ≡ b
Bool_ext true b f g = sym (f refl)
Bool_ext false true f g = g refl
Bool_ext false false f g = refl

module _ (c o : CpuSet) (d : IsWf c) (e : IsWf o) where
  same_of_equals : equals c o ≡ true → (a : ℕ) → contains c a ≡ contains o a
  unfolding equals contains
  same_of_equals h a =
      Bool_ext _ _ (all_at (λ x. has x o.elems) c.elems a inside)
        (has_back c.elems o.elems a d e sizes inside)
    where
      sizes : length c.elems ≡ length o.elems
      sizes = ground arith

      inside : all (λ x. has x o.elems) c.elems ≡ true
      inside = ground arith

  equals_of_same : ((a : ℕ) → contains c a ≡ contains o a) → equals c o ≡ true
  unfolding equals contains
  equals_of_same h = ground (arith, same_length c.elems o.elems d e inside back, inside)
    where
      inside : all (λ x. has x o.elems) c.elems ≡ true
      inside = all_of_has c.elems o.elems (λ a m. sym (h a) ∙ m)

      back : all (λ x. has x c.elems) o.elems ≡ true
      back = all_of_has o.elems c.elems (λ a m. h a ∙ m)

-- `Equals` answers true exactly when the two sets have the same members.
pub equals_iff :
    (c o : CpuSet) → IsWf c → IsWf o → (equals c o ≡ true) ↔ ((a : ℕ) → contains c a ≡ contains o a)
equals_iff c o d e = (same_of_equals c o d e, equals_of_same c o d e)
