-- ===== src/CpuSet/Format/Ranges.antt =====
-- What `Parse` makes of ranges, whether they overlap or not.
use kqos.Prelude.{ℕ, ◌≤◌, ◌≡◌, refl, Bool, false, ◌||◌, List, [], ◌∷◌, arith}
use kqos.Strings.{Text}
use kqos.Strings.Splitting.{join}
use kqos.CpuSet.{CpuSet, contains}
use kqos.CpuSet.Format.{ok, parse, parse_parts}
use kqos.CpuSet.Format.Joining.{dash, EachClean, dash-Clean}
use kqos.CpuSet.Format.Reading.{Reads, between, max_id, dash-Reads, Reads-append}
use kqos.CpuSet.Format.RoundTrip.{parse-join}

abbrev pub range_texts : List (ℕ × ℕ) → List Text
range_texts [] = []
range_texts ((a, b) ∷ rs) = dash a b ∷ range_texts rs

-- The ranges as a text, "0-3,2-8".
abbrev pub ranges_text : List (ℕ × ℕ) → Text
ranges_text rs = join b',' (range_texts rs)

-- An id is in one of the ranges.
abbrev pub covers : List (ℕ × ℕ) → ℕ → Bool
covers [] x = false
covers ((a, b) ∷ rs) x = between a b x || covers rs x

-- No range is descending, and none ends at the largest int.
abbrev pub AreAscending : List (ℕ × ℕ) → Type 0
AreAscending [] = Unit {0}
AreAscending ((a, b) ∷ rs) = (a ≤ b) × (b ≤ max_id) × AreAscending rs

range_texts-Clean : (rs : List (ℕ × ℕ)) → EachClean (range_texts rs)
range_texts-Clean [] = tt
range_texts-Clean ((a, b) ∷ rs) = (dash-Clean a b, range_texts-Clean rs)

ranges-Reads :
    (rs : List (ℕ × ℕ)) (out : List ℕ) → AreAscending rs → Reads (range_texts rs) out (covers rs)
unfolding parse_parts
ranges-Reads [] out h = record {
  result = out;
  reads = refl;
  members = λ a. ground arith;
  distinct = λ d. d;
}
ranges-Reads ((a, b) ∷ rs) out h =
    Reads-append (dash a b ∷ []) (range_texts rs) out (between a b) (covers rs)
      (dash-Reads a b out h.0 h.1) (λ out'. ranges-Reads rs out' h.2)

-- `Parse` of ranges, none of which is descending or ends at the largest int, succeeds with the set
-- of the ids that are in one of them.
pub parse-ranges :
    (rs : List (ℕ × ℕ))
    → AreAscending rs
    → (c : CpuSet) × (parse (ranges_text rs) ≡ ok c) × ((x : ℕ) → contains c x ≡ covers rs x)
unfolding contains
parse-ranges rs h =
    let r = ranges-Reads rs [] h in
    (
      record { elems = r.result },
      parse-join (range_texts rs) (covers rs) (range_texts-Clean rs) r,
      λ x. ground (arith, r.members x),
    )
