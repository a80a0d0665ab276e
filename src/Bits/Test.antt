-- ===== src/Bits/Test.antt =====
-- The bit of a word at an index, and how the operators of C act on it.
use c_chess_cli.Common.{
  ℕ, zero, suc, ◌+◌, ◌-◌, ◌*◌, ◌/◌, ◌%◌, ◌^◌, ◌≤◌, ◌<◌, bit_and, bit_or, bit_xor, ◌≡◌, refl, sym,
  ◌∙◌, Bool, false, ◌&&◌, ◌||◌, ap, ◌==◌, ltb, leb, arith,
}
use native.Mathlib.Nat.{pow-suc, one-le-pow, div-add-mod, div-div-eq-div-mul}
use mathlib.Core.Bool.{xor}
use c_chess_cli.Bits.Step.{bit_and_step, bit_or_step, bit_xor_step}

abbrev odd : ℕ → Bool
odd n = n % 2 == 1

unfoldable pub test_bit : ℕ → ℕ → Bool
test_bit n zero = n % 2 == 1
test_bit n (suc i) = test_bit (n / 2) i

pub test_bit-and : (a b i : ℕ) → test_bit (bit_and a b) i ≡ (test_bit a i && test_bit b i)
unfolding test_bit
test_bit-and a b zero = ground (arith, bit_and_step a b)
test_bit-and a b (suc i) =
    let e : bit_and a b / 2 ≡ bit_and (a / 2) (b / 2) = omega (arith, bit_and_step a b) in
    rw e (test_bit-and (a / 2) (b / 2) i)

pub test_bit-or : (a b i : ℕ) → test_bit (bit_or a b) i ≡ (test_bit a i || test_bit b i)
unfolding test_bit
test_bit-or a b zero = ground (arith, bit_or_step a b)
test_bit-or a b (suc i) =
    let e : bit_or a b / 2 ≡ bit_or (a / 2) (b / 2) = omega (arith, bit_or_step a b) in
    rw e (test_bit-or (a / 2) (b / 2) i)

pub test_bit-xor : (a b i : ℕ) → test_bit (bit_xor a b) i ≡ xor (test_bit a i) (test_bit b i)
unfolding test_bit xor
test_bit-xor a b zero = ground (arith, bit_xor_step a b)
test_bit-xor a b (suc i) =
    let e : bit_xor a b / 2 ≡ bit_xor (a / 2) (b / 2) = omega (arith, bit_xor_step a b) in
    rw e (test_bit-xor (a / 2) (b / 2) i)

pub test_bit-zero : (i : ℕ) → test_bit 0 i ≡ false
unfolding test_bit
test_bit-zero zero = refl
test_bit-zero (suc i) = test_bit-zero i

-- `1ULL << s`.
pub test_bit-pow : (s i : ℕ) → test_bit (2 ^ s) i ≡ (i == s)
unfolding test_bit
test_bit-pow zero zero = refl
test_bit-pow zero (suc i) = test_bit-zero i ∙ ground arith
test_bit-pow (suc s) zero = ground (arith, pow-suc 2 s)
test_bit-pow (suc s) (suc i) =
    let e : 2 ^ suc s / 2 ≡ 2 ^ s = omega (arith, pow-suc 2 s) in
    rw e (test_bit-pow s i ∙ ground arith)

-- A word is determined by its bits.
test_bit_ext_below : (n a b : ℕ) → a ≤ n → b ≤ n → ((i : ℕ) → test_bit a i ≡ test_bit b i) → a ≡ b
test_bit_ext_below zero a b p q h = omega arith
test_bit_ext_below (suc n) a b p q h =
    let low : (a % 2 == 1) ≡ (b % 2 == 1) = unfold test_bit in h 0 in
    let high : a / 2 ≡ b / 2 =
      test_bit_ext_below n (a / 2) (b / 2) (omega arith) (omega arith)
        (λ i. unfold test_bit in h (suc i)) in
    ground arith

pub test_bit_ext : (a b : ℕ) → ((i : ℕ) → test_bit a i ≡ test_bit b i) → a ≡ b
test_bit_ext a b = test_bit_ext_below (a + b) a b (omega arith) (omega arith)

-- Bits at and above the width are clear.
pub test_bit-above : (k n i : ℕ) → n < 2 ^ k → k ≤ i → test_bit n i ≡ false
unfolding test_bit
test_bit-above zero n i h le = let e : n ≡ 0 = omega arith in rw e (test_bit-zero i)
test_bit-above (suc k) n zero h le = absurd (omega arith)
test_bit-above (suc k) n (suc i) h le =
    test_bit-above k (n / 2) i (omega (arith, pow-suc 2 k)) (omega arith)

-- Conversely a word whose bits stop at `k` fits `k` bits.
pub lt_of_test_bit : (k n : ℕ) → ((i : ℕ) → k ≤ i → test_bit n i ≡ false) → n < 2 ^ k
lt_of_test_bit zero n h =
    let e : n ≡ 0 = test_bit_ext n 0 (λ i. h i (omega arith) ∙ sym (test_bit-zero i)) in omega arith
lt_of_test_bit (suc k) n h = omega (
  arith,
  pow-suc 2 k,
  lt_of_test_bit k (n / 2) (λ i le. unfold test_bit in h (suc i) (omega arith)),
)

-- `>>`.
pub test_bit-shr : (n s i : ℕ) → test_bit (n / 2 ^ s) i ≡ test_bit n (s + i)
unfolding test_bit
test_bit-shr n zero i =
    let e : n / 2 ^ 0 ≡ n = omega arith in let e' : 0 + i ≡ i = omega arith in rw (e, e')
test_bit-shr n (suc s) i =
    let e : n / 2 ^ suc s ≡ n / 2 / 2 ^ s =
      ap (λ (d : ℕ). n / d) (omega (arith, pow-suc 2 s)) ∙ sym (div-div-eq-div-mul n 2 (2 ^ s)) in
    let e' : suc s + i ≡ suc (s + i) = omega arith in rw (e, e') (test_bit-shr (n / 2) s i)

-- `<<`, before the word is cut to its width.
pub test_bit-shl : (n s i : ℕ) → test_bit (n * 2 ^ s) i ≡ (leb s i && test_bit n (i - s))
unfolding test_bit
test_bit-shl n zero i =
    let e : n * 2 ^ 0 ≡ n = omega arith in
    let e' : i - 0 ≡ i = omega arith in rw (e, e') (ground arith)
test_bit-shl n (suc s) zero = ground (arith, ap (λ (d : ℕ). n * d) (pow-suc 2 s))
test_bit-shl n (suc s) (suc i) =
    let e : n * 2 ^ suc s / 2 ≡ n * 2 ^ s = omega (arith, ap (λ (d : ℕ). n * d) (pow-suc 2 s)) in
    let e' : suc i - suc s ≡ i - s = omega arith in rw (e, e') (test_bit-shl n s i ∙ ground arith)

pub low_mod : (n m : ℕ) → n % (m * 2) % 2 ≡ n % 2
low_mod n m = omega (arith, div-add-mod n (m * 2))

pub half_mod : (n m : ℕ) → 0 < m → n % (m * 2) / 2 ≡ n / 2 % m
half_mod n m h =
    grind (arith, div-add-mod n (m * 2), div-add-mod (n / 2) m, div-div-eq-div-mul n 2 m)

-- Cutting a word to `k` bits.
pub test_bit-mod : (n k i : ℕ) → test_bit (n % 2 ^ k) i ≡ (ltb i k && test_bit n i)
unfolding test_bit
test_bit-mod n zero i = let e : n % 2 ^ 0 ≡ 0 = omega arith in rw e (test_bit-zero i ∙ ground arith)
test_bit-mod n (suc k) zero =
    let e : n % 2 ^ suc k % 2 ≡ n % 2 = rw (pow-suc 2 k) (low_mod n (2 ^ k)) in rw e (ground arith)
test_bit-mod n (suc k) (suc i) =
    let e : n % 2 ^ suc k / 2 ≡ n / 2 % 2 ^ k =
      rw (pow-suc 2 k) (half_mod n (2 ^ k) (one-le-pow k 2 (omega arith))) in
    rw e (test_bit-mod (n / 2) k i ∙ ground arith)
