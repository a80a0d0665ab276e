-- ===== src/Bitboard/Word/Laws.antt =====
-- What each operation on a set of squares does to each square.
use mathlib.Core.Bool.{xor}
use native.Mathlib.Nat.{one-le-pow}
use c_chess_cli.Common.{
  ℕ, suc, ◌+◌, ◌-◌, ◌*◌, ◌^◌, bit_and, bit_xor, ◌≡◌, refl, sym, ap, ◌∙◌, arith, true, false, ◌&&◌,
  ◌==◌, leb, ltb, if◌then◌else◌, holds_below, holds_below_sound, Bool-cases, inl, inr,
}
use c_chess_cli.Common.Int.{pos, negsuc}
use c_chess_cli.Bits.{
  test_bit, test_bit-and, test_bit-xor, test_bit-pow, test_bit-zero, test_bit_ext, test_bit-above,
  test_bit-shl, test_bit-shr, test_bit-mod,
}
use c_chess_cli.Bitboard.Word.{bb_not, bb_test, bb_clear, bb_set, bb_shift, all_ones}

and-pow : (b s : ℕ) → bit_and b (2 ^ s) ≡ (if test_bit b s then 2 ^ s else 0)
and-pow b s = elim (Bool-cases (test_bit b s)) [
  | inl h ↦ rw h (test_bit_ext _ _ λ i. ground (arith, test_bit-and b (2 ^ s) i, test_bit-pow s i))
  | inr h ↦ rw h (
      test_bit_ext _ _
        λ i. ground (arith, test_bit-and b (2 ^ s) i, test_bit-pow s i, test_bit-zero i))
]

-- The C test `b & (1ULL << square)` reads the bit of the square.
pub bb_test-test_bit : (b s : ℕ) → bb_test b s ≡ test_bit b s
unfolding bb_test
bb_test-test_bit b s = ground (arith, and-pow b s, one-le-pow s 2)

ones_table : holds_below 64 (λ i. test_bit all_ones i) ≡ true
unfolding holds_below test_bit
ones_table = refl

test_bit-ones : (i : ℕ) → test_bit all_ones i ≡ ltb i 64
test_bit-ones i = elim (Bool-cases (ltb i 64)) [
  | inl below ↦
      rw below (holds_below_sound 64 (λ i. test_bit all_ones i) i ones_table (ground arith))
  | inr above ↦ rw above (test_bit-above 64 all_ones i (omega arith) (ground arith))
]

-- Complement, within the 64 bits.
pub test_bit-not : (b i : ℕ) → test_bit (bb_not b) i ≡ xor (test_bit b i) (ltb i 64)
unfolding bb_not
test_bit-not b i = test_bit-xor b all_ones i ∙ ap (xor (test_bit b i)) (test_bit-ones i)

-- `b ^= 1ULL << square`, as the code sets and clears a square.
pub test_bit-flip : (b s i : ℕ) → test_bit (bit_xor b (2 ^ s)) i ≡ xor (test_bit b i) (i == s)
test_bit-flip b s i = test_bit-xor b (2 ^ s) i ∙ ap (xor (test_bit b i)) (test_bit-pow s i)

pub test_bit-bb_set :
    (b s i : ℕ)
    → test_bit b s ≡ false
    → test_bit (bb_set b s) i ≡ (if i == s then true else test_bit b i)
unfolding bb_set xor
test_bit-bb_set b s i h = ground (arith, test_bit-flip b s i)

pub test_bit-bb_clear :
    (b s i : ℕ)
    → test_bit b s ≡ true
    → test_bit (bb_clear b s) i ≡ (if i == s then false else test_bit b i)
unfolding bb_clear xor
test_bit-bb_clear b s i h = ground (arith, test_bit-flip b s i)

flip_twice : (b s i : ℕ) → test_bit (bb_clear (bb_set b s) s) i ≡ test_bit b i
unfolding bb_set bb_clear xor
flip_twice b s i = ground (arith, test_bit-flip (bit_xor b (2 ^ s)) s i, test_bit-flip b s i)

-- Where its assertion holds, `bb_set` adds its square and changes no other, and `bb_clear` then
-- gives the set back.
pub bb_set-bb_clear :
    (b s : ℕ)
    → bb_test b s ≡ false
    → ((t : ℕ) → bb_test (bb_set b s) t ≡ (if t == s then true else bb_test b t))
      × (bb_clear (bb_set b s) s ≡ b)
bb_set-bb_clear b s h = (
  λ t.
      bb_test-test_bit (bb_set b s) t
      ∙ test_bit-bb_set b s t (sym (bb_test-test_bit b s) ∙ h)
      ∙ ap (λ x. if t == s then true else x) (sym (bb_test-test_bit b t)),
  test_bit_ext _ _ λ i. flip_twice b s i,
)

pub test_bit-shift_up :
    (b n i : ℕ) → test_bit (bb_shift b (pos n)) i ≡ (ltb i 64 && (leb n i && test_bit b (i - n)))
unfolding bb_shift
test_bit-shift_up b n i =
    test_bit-mod (b * 2 ^ n) 64 i ∙ ap (λ x. ltb i 64 && x) (test_bit-shl b n i)

pub test_bit-shift_down : (b n i : ℕ) → test_bit (bb_shift b (negsuc n)) i ≡ test_bit b (suc n + i)
unfolding bb_shift
test_bit-shift_down b n i = test_bit-shr b (suc n) i
