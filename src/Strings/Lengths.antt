-- ===== src/Strings/Lengths.antt =====
-- Lengths: what is cut out of a text is no longer than it, and a short text holds no large number.
use kqos.Prelude.{
  ℕ, zero, suc, ◌+◌, ◌-◌, ◌*◌, ◌≤◌, ◌≡◌, refl, Bool-cases, Option-cases, inl, inr, true, false,
  List, [], ◌∷◌, Option, none, some, length, AllOf, AllOf-map, arith, leb, ◌==◌,
}
use mathlib.Core.Option
use kqos.Prelude.Int.{ℤ, pos, pos_part, sub_ℕ}
use kqos.Strings.{
  Text, is_space, is_digit, trim_left, trim_right, trim_space, push_front, split, cut, read_digits,
  read_ℕ, at_most, atoi, max_int,
}

-- The largest number that `k` more digits make of `acc`.
abbrev pub largest : ℕ → ℕ → ℕ
largest acc zero = acc
largest acc (suc k) = largest (acc * 10 + 9) k

largest_mono : (a b k : ℕ) → a ≤ b → largest a k ≤ largest b k
largest_mono a b zero h = h
largest_mono a b (suc k) h = largest_mono (a * 10 + 9) (b * 10 + 9) k (omega (arith, h))

largest_grows : (a j k : ℕ) → j ≤ k → largest a j ≤ largest a k
largest_grows a zero zero h = omega arith
largest_grows a zero (suc k) h =
    omega (arith, largest_grows a zero k (omega arith), largest_mono a (a * 10 + 9) k (omega arith))
largest_grows a (suc j) zero h = absurd (omega arith)
largest_grows a (suc j) (suc k) h = largest_grows (a * 10 + 9) j k (omega arith)

read_digits_bound :
    (acc : ℕ) (s : Text) (n : ℕ) → read_digits acc s ≡ some n → n ≤ largest acc (length s)
unfolding read_digits
read_digits_bound acc [] n e = ground arith
read_digits_bound acc (c ∷ cs) n e = elim (Bool-cases (is_digit c)) [
  | inl d ↦
      let rest = read_digits_bound (acc * 10 + (c - b'0')) cs n (simp d at e) in
      let digit : acc * 10 + (c - b'0') ≤ acc * 10 + 9 = ground arith in
      omega (arith, rest, largest_mono (acc * 10 + (c - b'0')) (acc * 10 + 9) (length cs) digit)
  | inr d ↦ absurd (ground arith)
]

-- The largest number of 18 digits.
abbrev pub nines : ℕ
nines = 999_999_999_999_999_999

abbrev pub IsSmall : Option ℕ → Type 0
IsSmall none = Unit
IsSmall (some n) = n ≤ nines

abbrev pub IsSmall_ℤ : Option ℤ → Type 0
IsSmall_ℤ none = Unit
IsSmall_ℤ (some v) = pos_part v ≤ nines

read_digits-IsSmall : (s : Text) → length s ≤ 18 → IsSmall (read_digits 0 s)
read_digits-IsSmall s h = elim (Option-cases (read_digits 0 s)) [
  | inl e ↦ rw e tt
  | inr (n, e) ↦
      rw e (omega (arith, read_digits_bound 0 s n e, largest_grows 0 (length s) 18 h, eighteen))
]
  where
    eighteen : largest 0 18 ≡ nines
    eighteen = refl

read_ℕ-IsSmall : (s : Text) → length s ≤ 18 → IsSmall (read_ℕ s)
unfolding read_ℕ
read_ℕ-IsSmall [] h = tt
read_ℕ-IsSmall (c ∷ cs) h = read_digits-IsSmall (c ∷ cs) h

at_most-IsSmall : (m : ℕ) (o : Option ℕ) → IsSmall o → IsSmall (at_most m o)
at_most-IsSmall m none h = tt
at_most-IsSmall m (some n) h = elim (Bool-cases (leb n m)) [ inl e ↦ rw e h | inr e ↦ rw e tt ]

pos-IsSmall : (o : Option ℕ) → IsSmall o → IsSmall_ℤ (Option.map pos o)
pos-IsSmall none h = tt
pos-IsSmall (some n) h = h

negated-IsSmall : (o : Option ℕ) → IsSmall_ℤ (Option.map (sub_ℕ 0) o)
negated-IsSmall none = tt
negated-IsSmall (some n) = ground arith

pub atoi-IsSmall : (s : Text) → length s ≤ 18 → IsSmall_ℤ (atoi s)
unfolding atoi
atoi-IsSmall [] h = tt
atoi-IsSmall (c ∷ cs) h = elim (Bool-cases (c == b'-')) [
  | inl e ↦ rw e (negated-IsSmall (at_most (max_int + 1) (read_ℕ cs)))
  | inr e ↦ elim (Bool-cases (c == b'+')) [
    | inl g ↦
        rw (e, g)
          (pos-IsSmall _
            (at_most-IsSmall max_int (read_ℕ cs) (read_ℕ-IsSmall cs (omega (arith, h)))))
    | inr g ↦
        rw (e, g)
          (pos-IsSmall _ (at_most-IsSmall max_int (read_ℕ (c ∷ cs)) (read_ℕ-IsSmall (c ∷ cs) h)))
  ]
]

length-trim_left : (s : Text) → length (trim_left s) ≤ length s
unfolding trim_left
length-trim_left [] = omega arith
length-trim_left (c ∷ cs) =
    elim (is_space c)
      as (λ b. length (elim b [ true ↦ trim_left cs | false ↦ c ∷ cs ]) ≤ suc (length cs)) [
        | true ↦ omega (arith, length-trim_left cs)
        | false ↦ omega arith
      ]

length-trim_right : (s : Text) → length (trim_right s) ≤ length s
unfolding trim_right
length-trim_right [] = omega arith
length-trim_right (c ∷ cs) = ground (arith, length-trim_right cs)

pub length-trim_space : (s : Text) → length (trim_space s) ≤ length s
unfolding trim_space
length-trim_space s = omega (arith, length-trim_right (trim_left s), length-trim_left s)

-- The parts of a text are no longer than it.
push_front-short :
    (c n : ℕ) (ps : List Text)
    → AllOf (λ p. length p ≤ n) ps
    → AllOf (λ p. length p ≤ suc n) (push_front c ps)
push_front-short c n [] h = (omega arith, tt)
push_front-short c n (p ∷ ps) h = (
  omega (arith, h.0),
  AllOf-map (λ q. length q ≤ n) (λ q. length q ≤ suc n) ps (λ q k. omega (arith, k)) h.1,
)

pub split-short : (sep : ℕ) (s : Text) → AllOf (λ p. length p ≤ length s) (split sep s)
unfolding split
split-short sep [] = (omega arith, tt)
split-short sep (c ∷ cs) = elim (Bool-cases (c == sep)) [
  | inl e ↦ rw e (
    omega arith,
    AllOf-map (λ q. length q ≤ length cs) (λ q. length q ≤ suc (length cs)) (split sep cs)
        (λ q k. omega (arith, k)) (split-short sep cs),
  )
  | inr e ↦ rw e (push_front-short c (length cs) (split sep cs) (split-short sep cs))
]

abbrev pub IsWithin : ℕ → Option Text → Type 0
IsWithin n none = Unit
IsWithin n (some t) = length t ≤ n

IsWithin-more : (n : ℕ) (o : Option Text) → IsWithin n o → IsWithin (suc n) o
IsWithin-more n none h = tt
IsWithin-more n (some t) h = omega (arith, h)

pub cut-IsWithin :
    (sep : ℕ) (s : Text) → (length (cut sep s).0 ≤ length s) × IsWithin (length s) (cut sep s).1
unfolding cut
cut-IsWithin sep [] = (omega arith, tt)
cut-IsWithin sep (c ∷ cs) = elim (Bool-cases (c == sep)) [
  | inl e ↦ rw e (omega arith, omega arith)
  | inr e ↦
      let rest = cut-IsWithin sep cs in
      rw e (omega (arith, rest.0), IsWithin-more (length cs) (cut sep cs).1 rest.1)
]

pub IsWithin-le : (n m : ℕ) (o : Option Text) → n ≤ m → IsWithin n o → IsWithin m o
IsWithin-le n m none h w = tt
IsWithin-le n m (some t) h w = omega (arith, h, w)
