-- ===== src/CpuSet/Format/Reading.antt =====
-- What `Parse` makes of those elements.
use kqos.Prelude.{
  ℕ, suc, ◌+◌, ◌-◌, ◌≤◌, ◌≡◌, ◌∙◌, refl, Bool, ◌&&◌, ◌||◌, List, [], ◌∷◌, ◌++◌, arith, leb, ◌==◌,
  Bool-cases, inl, inr,
}
use kqos.Strings.{Text, print_ℕ}
use kqos.Strings.Numbers.{atoi-print_ℕ}
use kqos.Strings.Splitting.{trim_space_id, cut_found, cut_missing}
use kqos.CpuSet.{has, put_range, Distinct}
use kqos.CpuSet.Members.{has-put_range}
use kqos.CpuSet.Sizes.{put_range-Distinct}
use kqos.CpuSet.Format.{ok, err, endless, ◌>>=◌, parse_part, parse_parts}
use kqos.CpuSet.Format.Joining.{
  dash, run_parts, parts, print_ℕ-Clean, dash-Clean, print_ℕ-Lacks_dash,
}

-- The largest int but one: an id up to which `Parse` ends.
abbrev pub max_id : ℕ
max_id = 9_223_372_036_854_775_806

parse_part-number :
    (n : ℕ) (out : List ℕ) → n ≤ max_id → parse_part (print_ℕ n) out ≡ ok (put_range 1 n out)
unfolding parse_part
parse_part-number n out h =
    let clean = print_ℕ-Clean n in
    let trimmed = trim_space_id (print_ℕ n) clean.1 in
    rw (trimmed, cut_missing b'-' (print_ℕ n) (print_ℕ-Lacks_dash n), trimmed, clean.0)
      (ground (arith, atoi-print_ℕ n (omega (arith, h))))

pub parse_part-dash :
    (a b : ℕ) (out : List ℕ)
    → a ≤ b
    → b ≤ max_id
    → parse_part (dash a b) out ≡ ok (put_range (suc (b - a)) a out)
unfolding parse_part
parse_part-dash a b out h k =
    let clean = dash-Clean a b in
    rw
      (
        trim_space_id (dash a b) clean.1,
        clean.0,
        cut_found b'-' (print_ℕ a) (print_ℕ b) (print_ℕ-Lacks_dash a),
        trim_space_id (print_ℕ a) (print_ℕ-Clean a).1,
        trim_space_id (print_ℕ b) (print_ℕ-Clean b).1,
      )
      (ground (arith, atoi-print_ℕ a (omega (arith, h, k)), atoi-print_ℕ b (omega (arith, k))))

pub parse_parts-append :
    (ps qs : List Text) (out : List ℕ)
    → parse_parts (ps ++ qs) out ≡ (parse_parts ps out >>= parse_parts qs)
unfolding parse_parts
parse_parts-append [] qs out = refl
parse_parts-append (p ∷ ps) qs out =
    elim (parse_part p out)
      as (λ r. (r >>= parse_parts (ps ++ qs)) ≡ ((r >>= parse_parts ps) >>= parse_parts qs)) [
        | ok out' ↦ parse_parts-append ps qs out'
        | err e ↦ refl
        | endless ↦ refl
      ]

-- The elements are read, and write the keys for which `p` holds into `out`.
pub record Reads (ps : List Text) (out : List ℕ) (p : ℕ → Bool) : Type 0 where
  pub result : List ℕ
  pub reads : parse_parts ps out ≡ ok result
  pub members : (a : ℕ) → has a result ≡ (has a out || p a)
  pub distinct : Distinct out → Distinct result

abbrev pub between : ℕ → ℕ → ℕ → Bool
between a b x = leb a x && leb x b

pub Reads-append :
    (ps qs : List Text) (out : List ℕ) (p q : ℕ → Bool)
    → Reads ps out p
    → ((out' : List ℕ) → Reads qs out' q)
    → Reads (ps ++ qs) out (λ a. p a || q a)
Reads-append ps qs out p q r s = record {
  result = (s r.result).result;
  reads = parse_parts-append ps qs out ∙ rw r.reads (s r.result).reads;
  members = λ a. ground (arith, r.members a, (s r.result).members a);
  distinct = λ d. (s r.result).distinct (r.distinct d);
}

number-Reads : (n : ℕ) (out : List ℕ) → n ≤ max_id → Reads (print_ℕ n ∷ []) out (λ a. between n n a)
unfolding parse_parts
number-Reads n out h = record {
  result = put_range 1 n out;
  reads = rw (parse_part-number n out h);
  members = λ a. has-put_range 1 n a out ∙ ground arith;
  distinct = put_range-Distinct 1 n out;
}

pub dash-Reads :
    (a b : ℕ) (out : List ℕ) → a ≤ b → b ≤ max_id → Reads (dash a b ∷ []) out (between a b)
unfolding parse_parts
dash-Reads a b out h k = record {
  result = put_range (suc (b - a)) a out;
  reads = rw (parse_part-dash a b out h k);
  members = λ x. has-put_range (suc (b - a)) a x out ∙ ground arith;
  distinct = put_range-Distinct (suc (b - a)) a out;
}

Reads-cong :
    {ps : List Text} {out : List ℕ} {p q : ℕ → Bool}
    → Reads ps out p
    → ((a : ℕ) → p a ≡ q a)
    → Reads ps out q
Reads-cong r h = record {
  result = r.result;
  reads = r.reads;
  members = λ a. ground (arith, r.members a, h a);
  distinct = r.distinct;
}

run_parts-Reads :
    (a b : ℕ) (out : List ℕ) → a ≤ b → b ≤ max_id → Reads (run_parts a b) out (between a b)
run_parts-Reads a b out h k = elim (Bool-cases (b - a == 0)) [
  | inl e ↦ rw e (Reads-cong (number-Reads a out (omega arith)) (λ x. ground arith))
  | inr e ↦ elim (Bool-cases (b - a == 1)) [
    | inl f ↦
        rw (e, f)
          (Reads-cong
            (Reads-append (print_ℕ a ∷ []) (print_ℕ b ∷ []) out _ _
              (number-Reads a out (omega arith)) (λ out'. number-Reads b out' k))
            (λ x. ground arith))
    | inr f ↦ rw (e, f) (dash-Reads a b out h k)
  ]
]

abbrev pub AllAtMost : ℕ → List ℕ → Type 0
AllAtMost m [] = Unit {0}
AllAtMost m (x ∷ xs) = (x ≤ m) × AllAtMost m xs

-- All the elements of a list of ids, from the run that is open.
pub parts-Reads :
    (ids : List ℕ) (first last : ℕ) (out : List ℕ)
    → first ≤ last
    → last ≤ max_id
    → AllAtMost max_id ids
    → Reads (parts first last ids) out (λ a. between first last a || has a ids)
parts-Reads [] first last out h k l =
    Reads-cong (run_parts-Reads first last out h k) (λ x. ground arith)
parts-Reads (id ∷ ids) first last out h k l = elim (Bool-cases (id == last + 1)) [
  | inl e ↦
      rw e (Reads-cong (parts-Reads ids first id out (ground arith) l.0 l.1) (λ x. ground arith))
  | inr e ↦ rw e (
      Reads-cong
        (Reads-append (run_parts first last) (parts id id ids) out _ _
          (run_parts-Reads first last out h k)
          (λ out'. parts-Reads ids id id out' (omega arith) l.0 l.1))
        (λ x. ground arith))
]
