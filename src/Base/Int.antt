-- ===== src/Base/Int.antt =====
-- Go's `int` as a signed integer. `negsuc n` is -(n + 1).
use Prim.Native.Nat.{ℕ, suc, ◌+◌, ◌-◌, ◌%◌, ◌^◌}
use mathlib.Core.Bool.{Bool, false}
use mathlib.Core.Path.{◌≡◌, ap, ◌∙◌}
use native.Mathlib.Omega.{arith}
use enterprise_llm_tracker.Base.Tests.{ltb, leb, ◌==◌, if◌then◌else◌}

pub data ℤ : Type 0 where
  pos : ℕ → ℤ
  negsuc : ℕ → ℤ

abbrev pub pos_part : ℤ → ℕ
pos_part (pos n) = n
pos_part (negsuc n) = 0

abbrev pub neg_part : ℤ → ℕ
neg_part (pos n) = 0
neg_part (negsuc n) = suc n

-- a - b, as an integer
abbrev pub sub_ℕ : ℕ → ℕ → ℤ
sub_ℕ a b = if leb b a then pos (a - b) else negsuc (b - a - 1)

infixl 65 ◌+ℤ◌ ◌-ℤ◌
abbrev pub ◌+ℤ◌ : ℤ → ℤ → ℤ
a +ℤ b = sub_ℕ (pos_part a + pos_part b) (neg_part a + neg_part b)

abbrev pub ◌-ℤ◌ : ℤ → ℤ → ℤ
a -ℤ b = sub_ℕ (pos_part a + neg_part b) (neg_part a + pos_part b)

-- the tests `a < b` and `a == b`
abbrev pub int_lt : ℤ → ℤ → Bool
int_lt a b = ltb (pos_part a + neg_part b) (pos_part b + neg_part a)

abbrev pub int_eq : ℤ → ℤ → Bool
int_eq a b = pos_part a + neg_part b == pos_part b + neg_part a

-- the test `a > 0`
abbrev pub is_pos : ℤ → Bool
is_pos (pos n) = ltb 0 n
is_pos (negsuc n) = false

-- the value of a 64-bit two's complement word
abbrev pub of_word : ℕ → ℤ
of_word m = if ltb m (2 ^ 63) then pos m else negsuc (2 ^ 64 - 1 - m)

abbrev pub wrap_64 : ℤ → ℤ
wrap_64 (pos n) = of_word (n % 2 ^ 64)
wrap_64 (negsuc n) = of_word (2 ^ 64 - 1 - n % 2 ^ 64)

-- Go's `a + b` and `a - b` on int

abbrev pub add_int : ℤ → ℤ → ℤ
add_int a b = wrap_64 (a +ℤ b)

abbrev pub sub_int : ℤ → ℤ → ℤ
sub_int a b = wrap_64 (a -ℤ b)

+ℤ-zero : (n : ℤ) → n +ℤ pos 0 ≡ n
+ℤ-zero n = ground arith

zero-+ℤ : (n : ℤ) → pos 0 +ℤ n ≡ n
zero-+ℤ n = ground arith

pub add_int-zero : (n : ℤ) → wrap_64 n ≡ n → add_int n (pos 0) ≡ n
add_int-zero n h = ap wrap_64 (+ℤ-zero n) ∙ h

pub zero-add_int : (n : ℤ) → wrap_64 n ≡ n → add_int (pos 0) n ≡ n
zero-add_int n h = ap wrap_64 (zero-+ℤ n) ∙ h
