-- ===== src/CpuSet/Format.antt =====
-- pkg/cpuset/cpuset.go: `Parse` and `String`, the kernel's list format ("0-3,8,12-15").
mod Joining
mod Reading
pub mod RoundTrip
pub mod Ranges
pub mod Ending
mod Tests
use kqos.Prelude.{
  ℕ, zero, suc, ◌+◌, ◌-◌, ◌≡◌, Bool, true, false, List, [], ◌∷◌, ◌++◌, Option, none, some, leb,
  ◌==◌, if◌then◌else◌,
}
use kqos.Prelude.Int.{ℤ, pos, pos_part, ltb_ℤ}
use kqos.Strings.{Text, is_nil, trim_space, split, cut, atoi, print_ℕ, max_int}
use kqos.CpuSet.{CpuSet, put_range, list}

-- The three errors of `Parse`. Where its loop does not end, there is no result: `endless`.
pub data ParseError : Type 0 where
  bad_element bad_range_end descending_range : ParseError

pub data Result {ℓ} (A : Type ℓ) : Type ℓ where
  ok : A → Result A
  err : ParseError → Result A
  endless : Result A

infixl 5 ◌>>=◌
abbrev pub ◌>>=◌ {ℓ κ} : {A : Type ℓ} {B : Type κ} → Result A → (A → Result B) → Result B
ok a >>= f = f a
err e >>= f = err e
endless >>= f = endless

abbrev pub or_fail {ℓ} : {A : Type ℓ} → ParseError → Option A → Result A
or_fail e none = err e
or_fail e (some a) = ok a

-- `end`: the element's own id, unless a dash was found.
abbrev pub range_end : ℤ → Option Text → Result ℤ
range_end start none = ok start
range_end start (some hi) = or_fail bad_range_end (atoi (trim_space hi))

-- One element that is not blank. `start` was read from a text without a dash, so it is not negative.
-- The test `i <= end` of the loop holds of every int if `end` is the largest.
unfoldable pub parse_element : Text → List ℕ → Result (List ℕ)
parse_element part elems = do
  let halves = cut b'-' part
  start ← or_fail bad_element (atoi (trim_space halves.0))
  end ← range_end start halves.1
  if ltb_ℤ end start
      then err descending_range
      else if pos_part end == max_int
      then endless
      else ok (put_range (suc (pos_part end - pos_part start)) (pos_part start) elems)

-- The body of the loop over the parts: a blank part is skipped.
unfoldable pub parse_part : Text → List ℕ → Result (List ℕ)
unfolding parse_element
parse_part part elems =
    let trimmed = trim_space part in
    if is_nil trimmed then ok elems else parse_element trimmed elems

unfoldable pub parse_parts : List Text → List ℕ → Result (List ℕ)
parse_parts [] elems = ok elems
parse_parts (part ∷ parts) elems = parse_part part elems >>= parse_parts parts

unfoldable pub parse : Text → Result CpuSet
unfolding parse_parts parse_part
parse s =
    let trimmed = trim_space s in
    if is_nil trimmed
    then ok (record { elems = [] })
    else (parse_parts (split b',' trimmed) [] >>= λ elems. ok (record { elems = elems }))

-- What the builder holds after a run from `first` to `last`. In a run `j - i` is `last - first`.
unfoldable pub write_run : ℕ → ℕ → Text → Text
write_run first last out =
    let sep = if is_nil out then [] else b',' ∷ [] in
    let gap = last - first in
    let behind = if gap == 0 then [] else (if gap == 1 then b',' else b'-') ∷ print_ℕ last in
    out ++ (sep ++ (print_ℕ first ++ behind))

-- The two loops over the ids as one pass: `first` is `ids[i]` and `last` is `ids[j]`.
unfoldable pub write_runs : ℕ → ℕ → List ℕ → Text → Text
unfolding write_run
write_runs first last [] out = write_run first last out
write_runs first last (id ∷ ids) out =
    let joins = id == last + 1 in
    write_runs (if joins then first else id) id ids
      (if joins then out else write_run first last out)

abbrev pub write_ids : List ℕ → Text
write_ids [] = []
write_ids (id ∷ ids) = write_runs id id ids []

unfoldable pub to_string : CpuSet → Text
unfolding write_runs
to_string c = write_ids (list c)
