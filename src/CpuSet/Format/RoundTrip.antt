-- ===== src/CpuSet/Format/RoundTrip.antt =====
-- `Parse` reads back what `String` renders.
use kqos.Prelude.{ℕ, ◌≤◌, ◌≡◌, ◌∙◌, refl, Bool, true, ◌||◌, List, [], ◌∷◌, arith}
use kqos.Strings.{Text, trim_space}
use kqos.Strings.Splitting.{trim_space_id, split-join, join}
use kqos.CpuSet.{CpuSet, IsWf, has, insert_sorted, sort_ints, list, contains, equals}
use kqos.CpuSet.Members.{has-sort_ints}
use kqos.CpuSet.Equality.{equals_iff}
use kqos.CpuSet.Format.{ok, ◌>>=◌, parse, parse_parts, to_string, write_ids}
use kqos.CpuSet.Format.Joining.{
  parts, parts-Clean, EachClean, EachClean→EachLacks, write_runs-join, join-NoSpace, join_not_nil,
}
use kqos.CpuSet.Format.Reading.{Reads, between, AllAtMost, parts-Reads, max_id}

insert_sorted-AllAtMost :
    (m x : ℕ) (xs : List ℕ) → x ≤ m → AllAtMost m xs → AllAtMost m (insert_sorted x xs)
unfolding insert_sorted
insert_sorted-AllAtMost m x [] h k = (h, tt)
insert_sorted-AllAtMost m x (y ∷ ys) h k = ground (arith, insert_sorted-AllAtMost m x ys h k.1)

sort_ints-AllAtMost : (m : ℕ) (xs : List ℕ) → AllAtMost m xs → AllAtMost m (sort_ints xs)
unfolding sort_ints
sort_ints-AllAtMost m [] h = tt
sort_ints-AllAtMost m (x ∷ xs) h =
    insert_sorted-AllAtMost m x (sort_ints xs) h.0 (sort_ints-AllAtMost m xs h.1)

-- A text that joins clean elements is read element by element.
pub parse_joined :
    (ps : List Text)
    → EachClean ps
    → parse (join b',' ps) ≡ (parse_parts ps [] >>= λ elems. ok (record { elems = elems }))
unfolding parse parse_parts
parse_joined [] h = unfold trim_space in refl
parse_joined (q ∷ qs) h =
    rw
      (
        trim_space_id (join b',' (q ∷ qs)) (join-NoSpace (q ∷ qs) h),
        join_not_nil q qs h.0,
        split-join b',' q qs (EachClean→EachLacks (q ∷ qs) h),
      )
      refl

pub parse-join :
    (ps : List Text) (p : ℕ → Bool)
    → EachClean ps
    → (r : Reads ps [] p) → parse (join b',' ps) ≡ ok (record { elems = r.result })
parse-join ps p h r = parse_joined ps h ∙ rw r.reads refl

write_ids-parse :
    (ids : List ℕ)
    → AllAtMost max_id ids
    → (r : CpuSet) × (parse (write_ids ids) ≡ ok r) × ((a : ℕ) → contains r a ≡ has a ids) × IsWf r
unfolding contains
write_ids-parse [] h = (record { elems = [] }, unfold parse trim_space in refl, λ a. refl, tt)
write_ids-parse (id ∷ ids) h =
    let r : Reads (parts id id ids) [] (λ a. between id id a || has a ids) =
      parts-Reads ids id id [] (omega arith) h.0 h.1 in
    (
      record { elems = r.result },
      rw (write_runs-join ids id id [] tt)
          (parse-join (parts id id ids) _ (parts-Clean id id ids) r),
      λ a. ground (arith, r.members a),
      r.distinct tt,
    )

-- A set of ids below the largest int is rendered as a text that parses to an equal set.
pub parse-to_string :
    (c : CpuSet)
    → IsWf c
    → AllAtMost max_id c.elems
    → (r : CpuSet) × (parse (to_string c) ≡ ok r) × (equals r c ≡ true)
unfolding to_string list contains
parse-to_string c d h =
    let (r, reads, same, wf) =
      write_ids-parse (sort_ints c.elems) (sort_ints-AllAtMost max_id c.elems h) in
    (r, reads, (equals_iff r c wf d).1 (λ a. same a ∙ has-sort_ints a c.elems))
