-- ===== src/Common/Int.antt =====
-- The signed integers of C, as far as no overflow is involved. `negsuc n` is -(n + 1).
use Prim.Native.Nat.{ℕ, suc, ◌+◌, ◌-◌, ◌*◌}
use mathlib.Core.Bool.{Bool, true, false}
use c_chess_cli.Common.Tests.{ltb, leb, ◌==◌, if◌then◌else◌}

pub data ℤ : Type 0 where
  pos : ℕ → ℤ
  negsuc : ℕ → ℤ

abbrev pub pos_part : ℤ → ℕ
pos_part (pos n) = n
pos_part (negsuc n) = 0

abbrev pub neg_part : ℤ → ℕ
neg_part (pos n) = 0
neg_part (negsuc n) = suc n

-- a - b, as an integer.
abbrev pub sub_ℕ : ℕ → ℕ → ℤ
sub_ℕ a b = if leb b a then pos (a - b) else negsuc (b - a - 1)

infixl 65 ◌+ℤ◌
abbrev pub ◌+ℤ◌ : ℤ → ℤ → ℤ
a +ℤ b = sub_ℕ (pos_part a + pos_part b) (neg_part a + neg_part b)

infixl 65 ◌-ℤ◌
abbrev pub ◌-ℤ◌ : ℤ → ℤ → ℤ
a -ℤ b = sub_ℕ (pos_part a + neg_part b) (pos_part b + neg_part a)

abbrev pub neg : ℤ → ℤ
neg a = sub_ℕ (neg_part a) (pos_part a)

abbrev pub double : ℤ → ℤ
double a = sub_ℕ (2 * pos_part a) (2 * neg_part a)

abbrev pub ltℤb : ℤ → ℤ → Bool
ltℤb a b = ltb (pos_part a + neg_part b) (pos_part b + neg_part a)

-- `n + a` as an index of an array, where the code asserts that it is one.
abbrev pub offset : ℕ → ℤ → ℕ
offset n a = n + pos_part a - neg_part a

-- `m == n + a`
abbrev pub is_offset : ℕ → ℕ → ℤ → Bool
is_offset m n a = m + neg_part a == n + pos_part a

abbrev pub is_neg : ℤ → Bool
is_neg (pos n) = false
is_neg (negsuc n) = true
