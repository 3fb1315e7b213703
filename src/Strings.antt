-- ===== src/Strings.antt =====
-- What the program uses of Go's packages strings, strconv and fmt, over texts as lists of bytes
-- (ASCII texts: of the white space that `TrimSpace` knows, the six ASCII characters).
pub mod Numbers
pub mod Splitting
pub mod Lengths
use kqos.Prelude.{
  ℕ, zero, suc, ◌+◌, ◌-◌, ◌*◌, ◌/◌, ◌%◌, ◌≡◌, Bool, true, false, ◌&&◌, ◌||◌, List, [], ◌∷◌, ◌++◌,
  Option, none, some, ltb, leb, ◌==◌, if◌then◌else◌,
}
use mathlib.Core.Option
use kqos.Prelude.Int.{ℤ, pos, sub_ℕ}

abbrev pub Text : Type 0
Text = List ℕ

abbrev pub is_nil : Text → Bool
is_nil [] = true
is_nil (c ∷ cs) = false

abbrev pub text_eq : Text → Text → Bool
text_eq [] [] = true
text_eq [] (d ∷ ds) = false
text_eq (c ∷ cs) [] = false
text_eq (c ∷ cs) (d ∷ ds) = c == d && text_eq cs ds

abbrev pub is_space : ℕ → Bool
is_space c = c == b' ' || (leb 9 c && leb c 13)

abbrev pub is_digit : ℕ → Bool
is_digit c = leb b'0' c && leb c b'9'

unfoldable pub trim_left : Text → Text
trim_left [] = []
trim_left (c ∷ cs) = elim (is_space c) [ true ↦ trim_left cs | false ↦ c ∷ cs ]

unfoldable pub trim_right : Text → Text
trim_right [] = []
trim_right (c ∷ cs) = let rest = trim_right cs in if is_nil rest && is_space c then [] else c ∷ rest

-- `strings.TrimSpace`
unfoldable pub trim_space : Text → Text
unfolding trim_left trim_right
trim_space s = trim_right (trim_left s)

abbrev pub push_front : ℕ → List Text → List Text
push_front c [] = (c ∷ []) ∷ []
push_front c (p ∷ ps) = (c ∷ p) ∷ ps

-- `strings.Split(s, sep)`, at a separator of one byte
unfoldable pub split : ℕ → Text → List Text
split sep [] = [] ∷ []
split sep (c ∷ cs) = let rest = split sep cs in if c == sep then [] ∷ rest else push_front c rest

-- `strings.Cut(s, sep)`: what stands before the separator, and what behind it, if it was found
unfoldable pub cut : ℕ → Text → Text × Option Text
cut sep [] = ([], none)
cut sep (c ∷ cs) = let rest = cut sep cs in if c == sep then ([], some cs) else (c ∷ rest.0, rest.1)

unfoldable pub read_digits : ℕ → Text → Option ℕ
read_digits acc [] = some acc
read_digits acc (c ∷ cs) =
    let rest = read_digits (acc * 10 + (c - b'0')) cs in if is_digit c then rest else none

-- One digit at least.
unfoldable pub read_ℕ : Text → Option ℕ
unfolding read_digits
read_ℕ [] = none
read_ℕ (c ∷ cs) = read_digits 0 (c ∷ cs)

abbrev pub max_int : ℕ
max_int = 9_223_372_036_854_775_807

abbrev pub at_most : ℕ → Option ℕ → Option ℕ
at_most m none = none
at_most m (some n) = if leb n m then some n else none

-- `strconv.Atoi`: an optional sign, then digits, within the range of a 64-bit int
unfoldable pub atoi : Text → Option ℤ
unfolding read_ℕ
atoi [] = none
atoi (c ∷ cs) =
    if c == b'-'
    then Option.map (sub_ℕ 0) (at_most (max_int + 1) (read_ℕ cs))
    else Option.map pos (at_most max_int (read_ℕ (if c == b'+' then cs else c ∷ cs)))

-- `%d`, on fuel: one more than the number is enough (Numbers.antt).
unfoldable pub print_fuel : ℕ → ℕ → Text
print_fuel zero n = []
print_fuel (suc fuel) n =
    let rest = print_fuel fuel (n / 10) ++ (b'0' + n % 10) ∷ [] in
    if ltb n 10 then (b'0' + n) ∷ [] else rest

unfoldable pub print_ℕ : ℕ → Text
unfolding print_fuel
print_ℕ n = print_fuel (suc n) n
