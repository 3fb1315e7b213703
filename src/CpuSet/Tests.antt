-- ===== src/CpuSet/Tests.antt =====
-- The set operations at small sets.
use kqos.Prelude.{ℕ, ◌+◌, ◌≡◌, ◌↔◌, refl, arith, true, false, [], ◌∷◌}
use Prim.Native.Nat.{min}
use kqos.Prelude.Int.{pos, pos_part, ◌-ℤ◌}
use kqos.CpuSet.{
  CpuSet, IsWf, contains, size, equals, take_ids, take_from, list, sort_ints, insert_sorted, new,
  put_if, put, intersection, difference, union,
}
use kqos.CpuSet.Equality.{equals_iff}
use kqos.CpuSet.TakingFrom.{size-take_from, take_from_prefers}
use kqos.CpuSet.Format.{parse, to_string, ok}
use kqos.CpuSet.Format.RoundTrip.{parse-to_string}

abbrev five : CpuSet
five = record { elems = 4 ∷ 0 ∷ 1 ∷ 2 ∷ 7 ∷ [] }

abbrev zone : CpuSet
zone = record { elems = 2 ∷ 3 ∷ [] }

five-IsWf : IsWf five
five-IsWf = (refl, (refl, (refl, (refl, (refl, tt)))))

set_code : Unit {0}
unfolding contains size take_ids take_from list sort_ints insert_sorted new put_if put intersection
    difference union ◌-ℤ◌
set_code = tt

equals_iff_example : (equals five five ≡ true) ↔ ((a : ℕ) → contains five a ≡ contains five a)
equals_iff_example = equals_iff five five five-IsWf five-IsWf

size-take_from_example :
    (size (take_from five (pos 3) zone).0 ≡ min (pos_part (pos 3)) (size five))
    × (size (take_from five (pos 3) zone).0 + size (take_from five (pos 3) zone).1 ≡ size five)
size-take_from_example = size-take_from five (pos 3) zone five-IsWf

taken_other : contains (take_from five (pos 3) zone).0 0 ≡ true
unfolding set_code
taken_other = refl

zone_members : (contains zone 0 ≡ false) × (contains five 2 ≡ true) × (contains zone 2 ≡ true)
unfolding set_code
zone_members = (refl, refl, refl)

take_from_prefers_example : contains (take_from five (pos 3) zone).0 2 ≡ true
take_from_prefers_example =
    take_from_prefers five (pos 3) zone five-IsWf 0 2 taken_other zone_members.0 zone_members.1
      zone_members.2

parse-to_string_example : (r : CpuSet) × (parse (to_string five) ≡ ok r) × (equals r five ≡ true)
parse-to_string_example = parse-to_string five five-IsWf (omega arith)
