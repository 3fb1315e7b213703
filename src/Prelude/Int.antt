-- ===== src/Prelude/Int.antt =====
-- Signed integers over the native numbers, under the library's names (its ℤ stands on the unary ℕ),
-- and the two's complement wrap of Go's int64.
use Prim.Native.Nat.{ℕ, suc, ◌+◌, ◌-◌, ◌*◌, ◌/◌, ◌%◌, ◌≤◌, ◌<◌}
use mathlib.Core.Path.{◌≡◌}
use mathlib.Core.Bool.{Bool}
use native.Mathlib.Omega.{arith}
use kqos.Prelude.Tests.{ltb, leb, ◌==◌, if◌then◌else◌}

-- `negsuc n` is -(n + 1).
pub data ℤ : Type 0 where
  pos : ℕ → ℤ
  negsuc : ℕ → ℤ

abbrev pub pos_part : ℤ → ℕ
pos_part (pos n) = n
pos_part (negsuc n) = 0

abbrev pub neg_part : ℤ → ℕ
neg_part (pos n) = 0
neg_part (negsuc n) = suc n

abbrev pub sub_ℕ : ℕ → ℕ → ℤ
sub_ℕ a b = if leb b a then pos (a - b) else negsuc (b - a - 1)

infixl 65 ◌+ℤ◌ ◌-ℤ◌
infixl 70 ◌*ℤ◌ ◌/ℤ◌ ◌%ℤ◌
infix 50 ◌≤ℤ◌ ◌<ℤ◌
unfoldable pub ◌+ℤ◌ : ℤ → ℤ → ℤ
a +ℤ b = sub_ℕ (pos_part a + pos_part b) (neg_part a + neg_part b)

unfoldable pub ◌-ℤ◌ : ℤ → ℤ → ℤ
a -ℤ b = sub_ℕ (pos_part a + neg_part b) (neg_part a + pos_part b)

unfoldable pub ◌*ℤ◌ : ℤ → ℤ → ℤ
a *ℤ b =
    sub_ℕ (pos_part a * pos_part b + neg_part a * neg_part b)
      (pos_part a * neg_part b + neg_part a * pos_part b)

-- Go's quotient: it is cut off towards zero.
unfoldable pub ◌/ℤ◌ : ℤ → ℤ → ℤ
pos a /ℤ pos b = pos (a / b)
pos a /ℤ negsuc b = sub_ℕ 0 (a / suc b)
negsuc a /ℤ pos b = sub_ℕ 0 (suc a / b)
negsuc a /ℤ negsuc b = pos (suc a / suc b)

-- Go's remainder: it has the sign of the dividend.
unfoldable pub ◌%ℤ◌ : ℤ → ℤ → ℤ
pos a %ℤ b = pos (a % (pos_part b + neg_part b))
negsuc a %ℤ b = sub_ℕ 0 (suc a % (pos_part b + neg_part b))

abbrev pub ◌≤ℤ◌ : ℤ → ℤ → Type 0
a ≤ℤ b = pos_part a + neg_part b ≤ pos_part b + neg_part a

abbrev pub ◌<ℤ◌ : ℤ → ℤ → Type 0
a <ℤ b = pos_part a + neg_part b < pos_part b + neg_part a

abbrev pub ltb_ℤ : ℤ → ℤ → Bool
ltb_ℤ a b = ltb (pos_part a + neg_part b) (pos_part b + neg_part a)

abbrev pub leb_ℤ : ℤ → ℤ → Bool
leb_ℤ a b = leb (pos_part a + neg_part b) (pos_part b + neg_part a)

abbrev pub eqb_ℤ : ℤ → ℤ → Bool
eqb_ℤ a b = (pos_part a + neg_part b) == (pos_part b + neg_part a)

-- The value that an int64 holds after an operation whose mathematical result is `a`.
abbrev pub wrap_bits : ℕ → ℤ
wrap_bits r =
    if ltb r 9_223_372_036_854_775_808 then pos r else negsuc (18_446_744_073_709_551_615 - r)

unfoldable pub int64 : ℤ → ℤ
int64 (pos n) = wrap_bits (n % 18_446_744_073_709_551_616)
int64 (negsuc n) = wrap_bits (18_446_744_073_709_551_615 - n % 18_446_744_073_709_551_616)

-- The conversion of a whole number to an int32.
unfoldable pub int32 : ℤ → ℤ
int32 (pos n) =
    let r = n % 4_294_967_296 in if ltb r 2_147_483_648 then pos r else negsuc (4_294_967_295 - r)
int32 (negsuc n) =
    let r = 4_294_967_295 - n % 4_294_967_296 in
    if ltb r 2_147_483_648 then pos r else negsuc (4_294_967_295 - r)

-- A result that fits is kept.
abbrev pub Fits64 : ℤ → Type 0
Fits64 a = (pos_part a ≤ 9_223_372_036_854_775_807) × (neg_part a ≤ 9_223_372_036_854_775_808)

pub int64_fits : (a : ℤ) → Fits64 a → int64 a ≡ a
unfolding int64
int64_fits (pos n) h = ground arith
int64_fits (negsuc n) h = ground arith

pub int64-Fits64 : (a : ℤ) → Fits64 (int64 a)
unfolding int64
int64-Fits64 (pos n) = ground arith
int64-Fits64 (negsuc n) = ground arith

pub +ℤ_parts :
    (a b : ℤ)
    → pos_part (a +ℤ b) + neg_part a + neg_part b ≡ neg_part (a +ℤ b) + pos_part a + pos_part b
unfolding ◌+ℤ◌
+ℤ_parts a b = ground arith

pub -ℤ_parts :
    (a b : ℤ)
    → pos_part (a -ℤ b) + neg_part a + pos_part b ≡ neg_part (a -ℤ b) + pos_part a + neg_part b
unfolding ◌-ℤ◌
-ℤ_parts a b = ground arith

pub eq_of_parts : (a b : ℤ) → pos_part a + neg_part b ≡ pos_part b + neg_part a → a ≡ b
eq_of_parts a b h = ground arith

-- A difference is no larger than its terms.
pub -ℤ_size :
    (a b : ℤ)
    → (pos_part (a -ℤ b) ≤ pos_part a + neg_part b) × (neg_part (a -ℤ b) ≤ neg_part a + pos_part b)
unfolding ◌-ℤ◌
-ℤ_size a b = ground arith

-- A number that is not negative has no negative part.
pub neg_part_none : (a : ℤ) → neg_part a ≤ pos_part a → neg_part a ≡ 0
neg_part_none (pos n) h = ground arith
neg_part_none (negsuc n) h = absurd (omega arith)

pub ruleset int_laws = (arith, +ℤ_parts, -ℤ_parts, eq_of_parts)
