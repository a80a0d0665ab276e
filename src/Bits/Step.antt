-- ===== src/Bits/Step.antt =====
-- The native bit operations stand for a recursion on binary digits with fuel: one equation for
-- the lowest digit of each.
use Prim.Native.Nat.{digits, bitwise, differ, bit_and-bitwise, bit_or-bitwise, bit_xor-bitwise}
use c_chess_cli.Common.{
  ℕ, zero, suc, ◌+◌, ◌*◌, ◌/◌, ◌%◌, ◌≤◌, ◌<◌, min, max, bit_and, bit_or, bit_xor, ◌≡◌, refl, arith,
}

module _ (z : ℕ → ℕ) (f : ℕ → ℕ → ℕ) where
  -- More fuel than the first operand changes nothing.
  digits_enough : (a b k l : ℕ) → (a ≤ k) × (a ≤ l) → digits z f k a b ≡ digits z f l a b
  digits_enough zero b zero zero h = refl
  digits_enough zero b zero (suc l) h = refl
  digits_enough zero b (suc k) zero h = refl
  digits_enough zero b (suc k) (suc l) h = refl
  digits_enough (suc a) b zero l h = absurd (omega (arith, h.0))
  digits_enough (suc a) b (suc k) zero h = absurd (omega (arith, h.1))
  digits_enough (suc a) b (suc k) (suc l) h =
      let half : (suc a / 2 ≤ k) × (suc a / 2 ≤ l) = omega (arith, h.0, h.1) in
      rw (digits_enough (suc a / 2) (b / 2) k l half)

  -- The digits of a positive first operand, taken apart.
  lowest_digit :
      (n b : ℕ)
      → bitwise z f (suc n) b ≡ bitwise z f (suc n / 2) (b / 2) * 2 + f (suc n % 2) (b % 2)
  lowest_digit n b =
      let fuel : (suc n / 2 ≤ n) × (suc n / 2 ≤ suc n / 2) = omega arith in
      omega (arith, digits_enough (suc n / 2) (b / 2) n (suc n / 2) fuel)

-- On binary digits `differ` is addition without carry.
differ_digits : (x y : ℕ) → x < 2 → y < 2 → differ x y ≡ (x + y) % 2
differ_digits zero y p q = omega arith
differ_digits (suc zero) zero p q = omega arith
differ_digits (suc zero) (suc zero) p q = omega arith
differ_digits (suc zero) (suc (suc y)) p q = absurd (omega arith)
differ_digits (suc (suc x)) y p q = absurd (omega arith)

pub bit_xor_step : (a b : ℕ) → bit_xor a b ≡ bit_xor (a / 2) (b / 2) * 2 + (a % 2 + b % 2) % 2
bit_xor_step zero b = simp bit_xor-bitwise (omega arith)
bit_xor_step (suc a) b = omega (
  arith,
  bit_xor-bitwise (suc a) b,
  bit_xor-bitwise (suc a / 2) (b / 2),
  lowest_digit (λ c. c) differ a b,
  differ_digits (suc a % 2) (b % 2) (omega arith) (omega arith),
)

pub bit_and_step : (m n : ℕ) → bit_and m n ≡ bit_and (m / 2) (n / 2) * 2 + min (m % 2) (n % 2)
bit_and_step zero b = omega (arith, bit_and-bitwise 0 b, bit_and-bitwise 0 (b / 2))
bit_and_step (suc n) b = simp bit_and-bitwise (lowest_digit (λ c. 0) min n b)

pub bit_or_step : (m n : ℕ) → bit_or m n ≡ bit_or (m / 2) (n / 2) * 2 + max (m % 2) (n % 2)
bit_or_step zero b = omega (arith, bit_or-bitwise 0 b, bit_or-bitwise 0 (b / 2))
bit_or_step (suc n) b = simp bit_or-bitwise (lowest_digit (λ c. c) max n b)
