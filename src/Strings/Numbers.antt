-- ===== src/Strings/Numbers.antt =====
-- Decimal numbers: what `%d` prints, `Atoi` reads.
use kqos.Prelude.{
  ℕ, zero, suc, ◌+◌, ◌-◌, ◌*◌, ◌/◌, ◌%◌, ◌≤◌, ◌<◌, ◌≡◌, ◌≢◌, refl, Bool, true, ◌&&◌, List, [], ◌∷◌,
  ◌++◌, some, arith, inl, inr, ltb, Bool-cases, all,
}
use kqos.Prelude.Int.{pos}
use kqos.Strings.{Text, is_digit, read_digits, atoi, print_fuel, print_ℕ, max_int}

read_digits-snoc :
    (acc : ℕ) (xs : Text) (d n : ℕ)
    → d < 10
    → read_digits acc xs ≡ some n
    → read_digits acc (xs ++ (b'0' + d) ∷ []) ≡ some (n * 10 + d)
unfolding read_digits
read_digits-snoc acc [] d n h e = ground arith
read_digits-snoc acc (x ∷ xs) d n h e =
    ground (arith, read_digits-snoc (acc * 10 + (x - b'0')) xs d n)

read_digits-print_fuel : (fuel n : ℕ) → n < fuel → read_digits 0 (print_fuel fuel n) ≡ some n
unfolding print_fuel
read_digits-print_fuel zero n h = elim h [ ]
read_digits-print_fuel (suc fuel) n h = elim (Bool-cases (ltb n 10)) [
  | inl small ↦ rw small (unfold read_digits in ground arith)
  | inr large ↦ rw large (
      ground (
        arith,
        read_digits-snoc 0 (print_fuel fuel (n / 10)) (n % 10) (n / 10),
        read_digits-print_fuel fuel (n / 10),
      ))
]

abbrev pub AllDigits : Text → Type 0
AllDigits xs = all is_digit xs ≡ true

pub all-append {ℓ} :
    {A : Type ℓ} (p : A → Bool) (xs ys : List A) → all p (xs ++ ys) ≡ (all p xs && all p ys)
all-append p [] ys = refl
all-append p (x ∷ xs) ys = ground (arith, all-append p xs ys)

print_fuel-digits : (fuel n : ℕ) → AllDigits (print_fuel fuel n)
unfolding print_fuel
print_fuel-digits zero n = refl
print_fuel-digits (suc fuel) n = ground (
  arith,
  print_fuel-digits fuel (n / 10),
  all-append is_digit (print_fuel fuel (n / 10)) ((b'0' + n % 10) ∷ []),
)

pub print_ℕ-digits : (n : ℕ) → AllDigits (print_ℕ n)
unfolding print_ℕ
print_ℕ-digits n = print_fuel-digits (suc n) n

append-ne-nil : (xs : Text) (c : ℕ) → xs ++ c ∷ [] ≢ []
append-ne-nil [] c e = cc
append-ne-nil (x ∷ xs) c e = cc

pub print_ℕ-ne-nil : (n : ℕ) → print_ℕ n ≢ []
unfolding print_ℕ
print_ℕ-ne-nil n = ground (arith, append-ne-nil (print_fuel n (n / 10)) (b'0' + n % 10))

atoi_of_digits :
    (s : Text) (n : ℕ)
    → s ≢ []
    → AllDigits s
    → read_digits 0 s ≡ some n
    → n ≤ max_int
    → atoi s ≡ some (pos n)
unfolding atoi
atoi_of_digits [] n ne d e h = absurd (ne refl)
atoi_of_digits (c ∷ cs) n ne d e h = ground arith

-- Every id that an int can hold is read back from its decimal digits.
pub atoi-print_ℕ : (n : ℕ) → n ≤ max_int → atoi (print_ℕ n) ≡ some (pos n)
unfolding print_ℕ
atoi-print_ℕ n h =
    atoi_of_digits (print_ℕ n) n (print_ℕ-ne-nil n) (print_ℕ-digits n)
      (read_digits-print_fuel (suc n) n (omega arith)) h
