-- ===== src/Bits/Xor.antt =====
-- `^` is an Abelian group in which each word is its own inverse.
use mathlib.Core.Bool.{xor}
use c_chess_cli.Common.{
  ℕ, zero, suc, ◌/◌, ◌^◌, ◌<◌, ◌≤◌, bit_and, bit_xor, ◌≡◌, sym, ap, ◌∙◌, arith,
}
use c_chess_cli.Bits.Test.{
  test_bit-xor, test_bit-zero, test_bit_ext, test_bit-above, lt_of_test_bit,
}
use c_chess_cli.Bits.Step.{bit_and_step}
use Prim.Native.Nat.{bit_and-bitwise}
use native.Mathlib.Nat.{le_of_eq}

module _ (a b : ℕ) where
  pub xor_comm : bit_xor a b ≡ bit_xor b a
  unfolding xor
  xor_comm = test_bit_ext _ _ λ i. ground (arith, test_bit-xor a b i, test_bit-xor b a i)

  pub xor_cancel : bit_xor (bit_xor a b) b ≡ a
  unfolding xor
  xor_cancel =
      test_bit_ext _ _ λ i. ground (arith, test_bit-xor (bit_xor a b) b i, test_bit-xor a b i)

  pub xor_assoc : (c : ℕ) → bit_xor (bit_xor a b) c ≡ bit_xor a (bit_xor b c)
  unfolding xor
  xor_assoc c = test_bit_ext _ _ λ i. ground (
    arith,
    test_bit-xor (bit_xor a b) c i,
    test_bit-xor a b i,
    test_bit-xor a (bit_xor b c) i,
    test_bit-xor b c i,
  )

module _ (a : ℕ) where
  pub xor_zero : bit_xor a 0 ≡ a
  unfolding xor
  xor_zero = test_bit_ext _ _ λ i. ground (arith, test_bit-xor a 0 i, test_bit-zero i)

  pub xor_self : bit_xor a a ≡ 0
  unfolding xor
  xor_self = test_bit_ext _ _ λ i. ground (arith, test_bit-xor a a i, test_bit-zero i)

-- The last two of three words change places.
pub xor_swap : (a b c : ℕ) → bit_xor (bit_xor a b) c ≡ bit_xor (bit_xor a c) b
xor_swap a b c = xor_assoc a b c ∙ ap (bit_xor a) (xor_comm b c) ∙ sym (xor_assoc a c b)

and-le_below : (n a b : ℕ) → a ≤ n → bit_and a b ≤ a
and-le_below zero a b h = let e : a ≡ 0 = omega arith in rw e (le_of_eq (bit_and-bitwise 0 b))
and-le_below (suc n) a b h =
    omega (arith, bit_and_step a b, and-le_below n (a / 2) (b / 2) (omega arith))

pub bit_and-le : (a b : ℕ) → bit_and a b ≤ a
bit_and-le a b = and-le_below a a b (omega arith)

pub bit_xor-lt : (k a b : ℕ) → a < 2 ^ k → b < 2 ^ k → bit_xor a b < 2 ^ k
unfolding xor
bit_xor-lt k a b ha hb =
    lt_of_test_bit k (bit_xor a b) λ i h.
      ground (arith, test_bit-xor a b i, test_bit-above k a i ha h, test_bit-above k b i hb h)

pub xor_medial :
    (a b c d : ℕ) → bit_xor (bit_xor a b) (bit_xor c d) ≡ bit_xor (bit_xor a c) (bit_xor b d)
xor_medial a b c d =
    sym (xor_assoc (bit_xor a b) c d)
    ∙ ap (λ x. bit_xor x d) (xor_swap a b c)
    ∙ xor_assoc (bit_xor a c) b d
