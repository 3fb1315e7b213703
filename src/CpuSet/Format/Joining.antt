-- ===== src/CpuSet/Format/Joining.antt =====
-- What `String` writes is the comma-separated list of these elements.
use kqos.Prelude.{
  ℕ, ◌+◌, ◌-◌, ◌≡◌, ◌≢◌, ◌∙◌, refl, ap, Bool, true, false, List, [], ◌∷◌, ◌++◌, arith, ◌==◌,
  if◌then◌else◌, all, Bool-cases, inl, inr,
}
use mathlib.Core.List.{append_assoc, append-nil}
use mathlib.Core.Bool.{true≢false}
use kqos.Strings.{Text, is_nil, is_digit, print_ℕ}
use kqos.Strings.Numbers.{print_ℕ-digits, print_ℕ-ne-nil, all-append}
use kqos.Strings.Splitting.{NoSpace, Lacks, join, join-append, EachLacks}
use kqos.CpuSet.Format.{write_run, write_runs}

abbrev pub dash : ℕ → ℕ → Text
dash first last = print_ℕ first ++ b'-' ∷ print_ℕ last

abbrev pub run_parts : ℕ → ℕ → List Text
run_parts first last =
    if last - first == 0
    then print_ℕ first ∷ []
    else if last - first == 1
    then print_ℕ first ∷ print_ℕ last ∷ []
    else dash first last ∷ []

abbrev pub parts : ℕ → ℕ → List ℕ → List Text
parts first last [] = run_parts first last
parts first last (id ∷ ids) =
    if id == last + 1 then parts first id ids else run_parts first last ++ parts id id ids

-- An element is not empty and has neither white space nor a comma.
abbrev pub Clean : Text → Type 0
Clean p = (is_nil p ≡ false) × NoSpace p × Lacks b',' p

abbrev pub EachClean : List Text → Type 0
EachClean [] = Unit {0}
EachClean (p ∷ ps) = Clean p × EachClean ps

pub EachClean-append : (ps qs : List Text) → EachClean ps → EachClean qs → EachClean (ps ++ qs)
EachClean-append [] qs h k = k
EachClean-append (p ∷ ps) qs h k = (h.0, EachClean-append ps qs h.1 k)

pub EachClean→EachLacks : (ps : List Text) → EachClean ps → EachLacks b',' ps
EachClean→EachLacks [] h = tt
EachClean→EachLacks (p ∷ ps) h = (h.0.2, EachClean→EachLacks ps h.1)

all_weaken :
    (p q : ℕ → Bool) (xs : Text)
    → ((c : ℕ) → p c ≡ true → q c ≡ true)
    → all p xs ≡ true
    → all q xs ≡ true
all_weaken p q [] h a = refl
all_weaken p q (x ∷ xs) h a = ground (arith, h x, all_weaken p q xs h)

is_nil-ne-nil : (s : Text) → s ≢ [] → is_nil s ≡ false
is_nil-ne-nil [] h = absurd (h refl)
is_nil-ne-nil (c ∷ cs) h = refl

pub print_ℕ-Clean : (n : ℕ) → Clean (print_ℕ n)
print_ℕ-Clean n = (
  is_nil-ne-nil (print_ℕ n) (print_ℕ-ne-nil n),
  all_weaken is_digit _ (print_ℕ n) (λ c h. ground arith) (print_ℕ-digits n),
  all_weaken is_digit _ (print_ℕ n) (λ c h. ground arith) (print_ℕ-digits n),
)

pub print_ℕ-Lacks_dash : (n : ℕ) → Lacks b'-' (print_ℕ n)
print_ℕ-Lacks_dash n = all_weaken is_digit _ (print_ℕ n) (λ c h. ground arith) (print_ℕ-digits n)

is_nil-append : (s t : Text) → is_nil s ≡ false → is_nil (s ++ t) ≡ false
is_nil-append [] t h = absurd (true≢false h)
is_nil-append (c ∷ cs) t h = refl

pub dash-Clean : (a b : ℕ) → Clean (dash a b)
dash-Clean a b = (
  is_nil-append (print_ℕ a) (b'-' ∷ print_ℕ b) (print_ℕ-Clean a).0,
  all-append _ (print_ℕ a) (b'-' ∷ print_ℕ b) ∙ ground (arith, print_ℕ-Clean a, print_ℕ-Clean b),
  all-append _ (print_ℕ a) (b'-' ∷ print_ℕ b) ∙ ground (arith, print_ℕ-Clean a, print_ℕ-Clean b),
)

run_parts-Clean : (a b : ℕ) → EachClean (run_parts a b)
run_parts-Clean a b = ground (arith, print_ℕ-Clean a, print_ℕ-Clean b, dash-Clean a b)

pub parts-Clean : (first last : ℕ) (ids : List ℕ) → EachClean (parts first last ids)
parts-Clean first last [] = run_parts-Clean first last
parts-Clean first last (id ∷ ids) = ground (
  arith,
  parts-Clean first id ids,
  EachClean-append (run_parts first last) (parts id id ids) (run_parts-Clean first last)
      (parts-Clean id id ids),
)

pub join-NoSpace : (ps : List Text) → EachClean ps → NoSpace (join b',' ps)
join-NoSpace [] h = refl
join-NoSpace (p ∷ []) h = h.0.1
join-NoSpace (p ∷ q ∷ ps) h =
    all-append _ p (b',' ∷ join b',' (q ∷ ps)) ∙ ground (arith, h.0, join-NoSpace (q ∷ ps) h.1)

pub join_not_nil : (p : Text) (ps : List Text) → Clean p → is_nil (join b',' (p ∷ ps)) ≡ false
join_not_nil p [] h = h.0
join_not_nil p (q ∷ ps) h = is_nil-append p _ h.0

abbrev behind : ℕ → ℕ → Text
behind first last =
    if last - first == 0 then [] else (if last - first == 1 then b',' else b'-') ∷ print_ℕ last

append-run_parts :
    (p : Text) (ps : List Text) (first last : ℕ)
    → join b',' ((p ∷ ps) ++ run_parts first last)
      ≡ join b',' (p ∷ ps) ++ b',' ∷ (print_ℕ first ++ behind first last)
append-run_parts p ps first last = ground (
  arith,
  append-nil (print_ℕ first),
  join-append b',' p ps (print_ℕ first) [],
  join-append b',' p ps (print_ℕ first) (print_ℕ last ∷ []),
  join-append b',' p ps (dash first last) [],
)

write_run-join :
    (first last : ℕ) (ps : List Text)
    → EachClean ps
    → write_run first last (join b',' ps) ≡ join b',' (ps ++ run_parts first last)
unfolding write_run
write_run-join first last [] h = ground (arith, append-nil (print_ℕ first))
write_run-join first last (p ∷ ps) h = rw (append-run_parts p ps first last, join_not_nil p ps h.0)

pub write_runs-join :
    (ids : List ℕ) (first last : ℕ) (ps : List Text)
    → EachClean ps
    → write_runs first last ids (join b',' ps) ≡ join b',' (ps ++ parts first last ids)
unfolding write_runs
write_runs-join [] first last ps h = write_run-join first last ps h
write_runs-join (id ∷ ids) first last ps h = elim (Bool-cases (id == last + 1)) [
  | inl e ↦ rw e (write_runs-join ids first id ps h)
  | inr e ↦
      rw (e, write_run-join first last ps h)
        (write_runs-join ids id id (ps ++ run_parts first last)
            (EachClean-append ps _ h (run_parts-Clean first last))
          ∙ ap (join b',') (append_assoc ps (run_parts first last) (parts id id ids)))
]
