-- ===== src/Prelude/Int.antt =====
-- Go's `int`, 64 bits wide: an integer, with the wrap-around of each operation written out.
use Prim.Native.Nat.{ℕ, suc, ◌+◌, ◌-◌, ◌%◌}
use mathlib.Core.Bool.{Bool, true, false}
use event_spec.Prelude.Tests.{ltb, leb, eqb, if◌then◌else◌}

-- `negsuc n` is -(n + 1).
pub data ℤ : Type 0 where
  pos : ℕ → ℤ
  negsuc : ℕ → ℤ

abbrev pub pos_part : ℤ → ℕ
pos_part (pos n) = n
pos_part (negsuc n) = 0

abbrev pub neg_part : ℤ → ℕ
neg_part (pos n) = 0
neg_part (negsuc n) = suc n

-- a - b, as an integer.
abbrev pub sub_ℕ : ℕ → ℕ → ℤ
sub_ℕ a b = if leb b a then pos (a - b) else negsuc (b - a - 1)

-- 2 ^ 63, one more than the largest `int`, and the modulus of the wrap-around.
abbrev pub int_limit : ℕ
int_limit = 9223372036854775808

abbrev pub int_modulus : ℕ
int_modulus = 18446744073709551616

-- The `int` with the same residue.
unfoldable pub wrap_int : ℤ → ℤ
wrap_int (pos n) =
    let m = n % int_modulus in if ltb m int_limit then pos m else negsuc (int_modulus - 1 - m)
wrap_int (negsuc n) =
    let m = n % int_modulus in if ltb m int_limit then negsuc m else pos (int_modulus - 1 - m)

infixl 65 ◌+ℤ◌ ◌-ℤ◌
unfoldable pub ◌+ℤ◌ : ℤ → ℤ → ℤ
unfolding wrap_int
a +ℤ b = wrap_int (sub_ℕ (pos_part a + pos_part b) (neg_part a + neg_part b))

unfoldable pub ◌-ℤ◌ : ℤ → ℤ → ℤ
unfolding wrap_int
a -ℤ b = wrap_int (sub_ℕ (pos_part a + neg_part b) (neg_part a + pos_part b))

unfoldable pub eq_ℤ : ℤ → ℤ → Bool
eq_ℤ (pos a) (pos b) = eqb a b
eq_ℤ (negsuc a) (negsuc b) = eqb a b
eq_ℤ (pos a) (negsuc b) = false
eq_ℤ (negsuc a) (pos b) = false

unfoldable pub ltb_ℤ : ℤ → ℤ → Bool
ltb_ℤ (pos a) (pos b) = ltb a b
ltb_ℤ (negsuc a) (negsuc b) = ltb b a
ltb_ℤ (pos a) (negsuc b) = false
ltb_ℤ (negsuc a) (pos b) = true
