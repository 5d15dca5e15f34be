-- ===== src/Prelude/Int.antt =====
-- Signed machine integers. A value is a mathematical integer; `negsuc n` is -(n + 1). The
-- operations that can overflow wrap as Go's `int64` and `int32` do.
use Prim.Native.Nat.{ℕ, zero, suc, ◌+◌, ◌-◌, ◌%◌, ◌≤◌, ◌<◌}
use mathlib.Core.Path.{◌≡◌}
use mathlib.Core.Logic.{◌↔◌}
use mathlib.Core.Bool.{Bool, true, false, not}
use native.Mathlib.Omega.{arith}
use astra_sync.Prelude.Tests.{ltb, ◌==◌, if◌then◌else◌}

pub data ℤ : Type 0 where
  pos : ℕ → ℤ
  negsuc : ℕ → ℤ

abbrev pub is_neg : ℤ → Bool
is_neg (pos n) = false
is_neg (negsuc n) = true

abbrev pub is_positive : ℤ → Bool
is_positive (pos n) = ltb 0 n
is_positive (negsuc n) = false

abbrev pub is_zero : ℤ → Bool
is_zero (pos n) = n == 0
is_zero (negsuc n) = false

abbrev pub int_eq : ℤ → ℤ → Bool
int_eq (pos a) (pos b) = a == b
int_eq (negsuc a) (negsuc b) = a == b
int_eq _ _ = false

abbrev pub int_lt : ℤ → ℤ → Bool
int_lt (pos a) (pos b) = ltb a b
int_lt (pos a) (negsuc b) = false
int_lt (negsuc a) (pos b) = true
int_lt (negsuc a) (negsuc b) = ltb b a

abbrev pub int_le : ℤ → ℤ → Bool
int_le a b = not (int_lt b a)

infix 50 ◌≤ℤ◌
-- The order as a statement.
abbrev pub ◌≤ℤ◌ : ℤ → ℤ → Type 0
pos a ≤ℤ pos b = a ≤ b
pos a ≤ℤ negsuc b = ⊥
negsuc a ≤ℤ pos b = Unit {0}
negsuc a ≤ℤ negsuc b = b ≤ a

pub int_eq_iff : (a b : ℤ) → (int_eq a b ≡ true) ↔ (a ≡ b)
int_eq_iff (pos a) (pos b) = ground arith
int_eq_iff (negsuc a) (negsuc b) = ground arith
int_eq_iff (pos a) (negsuc b) = ground arith
int_eq_iff (negsuc a) (pos b) = ground arith

-- `x + 1` where the largest value is `top`: past it comes the smallest, -(top + 1).
abbrev pub increment : ℕ → ℤ → ℤ
increment top (pos n) = if n == top then negsuc top else pos (n + 1)
increment top (negsuc zero) = pos 0
increment top (negsuc (suc n)) = negsuc n

abbrev pub max_int64 : ℕ
max_int64 = 9223372036854775807

abbrev pub max_int32 : ℕ
max_int32 = 2147483647

abbrev pub inc64 : ℤ → ℤ
inc64 = increment max_int64

abbrev pub inc32 : ℤ → ℤ
inc32 = increment max_int32

-- The values of an `int64`.
abbrev pub FitsInt64 : ℤ → Type 0
FitsInt64 (pos n) = n ≤ max_int64
FitsInt64 (negsuc n) = n ≤ max_int64

-- `uint64(x)` of an `int64`, and back.
unfoldable pub to_u64 : ℤ → ℕ
to_u64 (pos n) = n % 18446744073709551616
to_u64 (negsuc n) = (18446744073709551615 - n) % 18446744073709551616

unfoldable pub of_u64 : ℕ → ℤ
of_u64 x = if ltb x 9223372036854775808 then pos x else negsuc (18446744073709551615 - x)

pub of_u64-to_u64 : (x : ℤ) → FitsInt64 x → of_u64 (to_u64 x) ≡ x
unfolding to_u64 of_u64
of_u64-to_u64 (pos n) h = ground arith
of_u64-to_u64 (negsuc n) h = ground arith

pub to_u64-lt : (x : ℤ) → to_u64 x < 18446744073709551616
unfolding to_u64
to_u64-lt (pos n) = omega arith
to_u64-lt (negsuc n) = omega arith

pub to_u64-of_u64 : (x : ℕ) → x < 18446744073709551616 → to_u64 (of_u64 x) ≡ x
unfolding to_u64 of_u64
to_u64-of_u64 x h = ground arith
