-- ===== src/CpuSet/Format/Tests.antt =====
-- Runs of `Parse` and `String` on the inputs of cpuset_test.go.
use kqos.Prelude.{ℕ, ◌≡◌, refl, arith, [], ◌∷◌, String}
use kqos.CpuSet.Format.Ranges.{parse-ranges, ranges_text, covers}
use kqos.CpuSet.{CpuSet, contains, new, list, sort_ints, put_range, put, put_if, insert_sorted}
use kqos.CpuSet.Format.{ok, err, endless, descending_range, parse, to_string, ◌>>=◌}
use kqos.Strings.{print_ℕ, Text, trim_space, split, atoi, cut}
use Prim.Native.Char.{code}

abbrev pub codes : String → Text
codes String.[] = []
codes (String.◌∷◌ c s) = code c ∷ codes s

parse_ranges :
    (parse (codes "0-3,8,12-15") >>= λ c. ok (list c))
    ≡ ok (0 ∷ 1 ∷ 2 ∷ 3 ∷ 8 ∷ 12 ∷ 13 ∷ 14 ∷ 15 ∷ [])
unfolding parse trim_space split atoi cut list sort_ints put_range put insert_sorted
parse_ranges = refl

parse_descending : parse (codes "5-2") ≡ err descending_range
unfolding parse trim_space split atoi cut
parse_descending = refl

to_string_runs : to_string (new (15 ∷ 0 ∷ 1 ∷ 3 ∷ 4 ∷ 5 ∷ 8 ∷ [])) ≡ codes "0,1,3-5,8,15"
unfolding to_string new list print_ℕ sort_ints put_if put insert_sorted
to_string_runs = refl

-- A range that ends at the largest int is never read to its end.
parse_largest : parse (codes "9223372036854775807") ≡ endless
unfolding parse trim_space split atoi cut
parse_largest = refl

parse-ranges_example :
    (c : CpuSet) × (parse (ranges_text ((0, 3) ∷ (2, 8) ∷ [])) ≡ ok c)
    × ((x : ℕ) → contains c x ≡ covers ((0, 3) ∷ (2, 8) ∷ []) x)
parse-ranges_example = parse-ranges ((0, 3) ∷ (2, 8) ∷ []) (omega arith)
