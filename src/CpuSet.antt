-- ===== src/CpuSet.antt =====
-- pkg/cpuset/cpuset.go: sets of CPU ids. The map `elems` is the list of its keys, in the order in
-- which they were first written; Go visits them in any order, and every result below is a set, a
-- number, a test or a sorted list, so that the order shows in none. Ids are natural numbers: the
-- program makes them by `Parse`, which rejects a sign, and by `NewRange` from 0.
pub mod Format
pub mod Members
pub mod Sizes
pub mod Sorting
pub mod Algebra
pub mod Equality
pub mod Taking
pub mod TakingFrom
mod Tests
use kqos.Prelude.{
  ℕ, zero, suc, ◌+◌, ◌-◌, ◌≡◌, Bool, true, false, not, ◌&&◌, ◌||◌, List, [], ◌∷◌, ltb, leb, ◌==◌,
  if◌then◌else◌, length, take, drop, all,
}
use kqos.Prelude.Int.{ℤ, pos, pos_part, neg_part, ltb_ℤ, ◌-ℤ◌}

pub record CpuSet : Type 0 where
  pub elems : List ℕ

-- `_, ok := elems[id]`
abbrev pub has : ℕ → List ℕ → Bool
has a [] = false
has a (x ∷ xs) = x == a || has a xs

-- `elems[id] = struct{}{}`
unfoldable pub put : ℕ → List ℕ → List ℕ
put a xs = if has a xs then xs else a ∷ xs

-- `for id := range ids { if keep(id) { elems[id] = struct{}{} } }`
unfoldable pub put_if : (ℕ → Bool) → List ℕ → List ℕ → List ℕ
put_if keep [] out = out
put_if keep (x ∷ xs) out = put_if keep xs (if keep x then put x out else out)

abbrev pub put_all : List ℕ → List ℕ → List ℕ
put_all = put_if (λ _. true)

-- `for i := start; i < start+n; i++ { elems[i] = struct{}{} }`
unfoldable pub put_range : ℕ → ℕ → List ℕ → List ℕ
put_range zero start out = out
put_range (suc n) start out = put_range n (start + 1) (put start out)

-- `CPUSet{}`
abbrev pub none_set : CpuSet
none_set = record { elems = [] }

unfoldable pub new : List ℕ → CpuSet
new ids = record { elems = put_all ids [] }

unfoldable pub new_range : ℕ → ℕ → CpuSet
new_range start end = record { elems = put_range (end - start) start [] }

unfoldable pub size : CpuSet → ℕ
size c = length c.elems

unfoldable pub is_empty : CpuSet → Bool
is_empty c = length c.elems == 0

unfoldable pub contains : CpuSet → ℕ → Bool
contains c id = has id c.elems

-- `sort.Ints`
unfoldable pub insert_sorted : ℕ → List ℕ → List ℕ
insert_sorted a [] = a ∷ []
insert_sorted a (x ∷ xs) = elim (leb a x) [ true ↦ a ∷ x ∷ xs | false ↦ x ∷ insert_sorted a xs ]

unfoldable pub sort_ints : List ℕ → List ℕ
sort_ints [] = []
sort_ints (x ∷ xs) = insert_sorted x (sort_ints xs)

unfoldable pub list : CpuSet → List ℕ
list c = sort_ints c.elems

unfoldable pub union : CpuSet → CpuSet → CpuSet
union c other = record { elems = put_all other.elems (put_all c.elems []) }

unfoldable pub intersection : CpuSet → CpuSet → CpuSet
intersection c other = record { elems = put_if (contains other) c.elems [] }

unfoldable pub difference : CpuSet → CpuSet → CpuSet
difference c other = record { elems = put_if (λ id. not (contains other id)) c.elems [] }

unfoldable pub equals : CpuSet → CpuSet → Bool
equals c other =
    if not (length c.elems == length other.elems) then false else all (contains other) c.elems

-- How many ids `Take(n)` takes of `len` ids.
abbrev pub take_count : ℤ → ℕ → ℕ
take_count n len = pos_part (if ltb_ℤ (pos len) n then pos len else n)

-- The set taken, and what remains.
unfoldable pub take_ids : CpuSet → ℤ → CpuSet × CpuSet
take_ids c n =
    let ids = list c in let k = take_count n (length ids) in (new (take k ids), new (drop k ids))

unfoldable pub take_from : CpuSet → ℤ → CpuSet → CpuSet × CpuSet
take_from c n preferred =
    let from_preferred = (take_ids (intersection c preferred) n).0 in
    let short = n -ℤ pos (size from_preferred) in
    let taken =
      if ltb_ℤ (pos (size from_preferred)) n
      then union from_preferred (take_ids (difference c from_preferred) short).0
      else from_preferred in
    (taken, difference c taken)

-- What a Go map is: no key stands twice.
abbrev pub Distinct : List ℕ → Type 0
Distinct [] = Unit {0}
Distinct (x ∷ xs) = (has x xs ≡ false) × Distinct xs

abbrev pub IsWf : CpuSet → Type 0
IsWf c = Distinct c.elems
