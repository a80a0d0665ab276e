-- ===== src/Bits/Fields.antt =====
-- `|` of disjoint fields is a sum, and `&` with a low mask a remainder.
use Prim.Native.Nat.{bit_or-bitwise}
use native.Mathlib.Nat.{pow-suc, one-le-pow}
use c_chess_cli.Common.{
  ℕ, zero, suc, ◌+◌, ◌-◌, ◌*◌, ◌/◌, ◌%◌, ◌^◌, ◌≤◌, ◌<◌, bit_and, bit_or, ◌≡◌, refl, ap, ◌∙◌, arith,
}
use c_chess_cli.Bits.Test.{half_mod, low_mod}
use c_chess_cli.Bits.Step.{bit_and_step, bit_or_step}

pub bit_or_disjoint : (k r q : ℕ) → r < 2 ^ k → bit_or r (q * 2 ^ k) ≡ r + q * 2 ^ k
bit_or_disjoint zero r q h =
    let e : r ≡ 0 = omega arith in rw e (bit_or-bitwise 0 (q * 2 ^ 0) ∙ omega arith)
bit_or_disjoint (suc k) r q h = ground (
  arith,
  bit_or_step r (q * 2 ^ suc k),
  ap (λ (t : ℕ). q * t) (pow-suc 2 k),
  pow-suc 2 k,
  bit_or_disjoint k (r / 2) q,
)

and_zero : (n a : ℕ) → a ≤ n → bit_and a 0 ≡ 0
and_zero zero zero h = refl
and_zero zero (suc a) h = absurd (omega arith)
and_zero (suc n) a h = omega (arith, bit_and_step a 0, and_zero n (a / 2) (omega arith))

bit_and_ones_step : (a m : ℕ) → 0 < m → bit_and a (m * 2 - 1) ≡ bit_and (a / 2) (m - 1) * 2 + a % 2
bit_and_ones_step a m h =
    let e : (m * 2 - 1) / 2 ≡ m - 1 = omega arith in
    let e' : (m * 2 - 1) % 2 ≡ 1 = omega arith in
    bit_and_step a (m * 2 - 1) ∙ rw (e, e') (omega arith)

pub bit_and_mask : (k a : ℕ) → bit_and a (2 ^ k - 1) ≡ a % 2 ^ k
bit_and_mask zero a = and_zero a a (omega arith) ∙ omega arith
bit_and_mask (suc k) a = rw (pow-suc 2 k) (
    bit_and_ones_step a (2 ^ k) (one-le-pow k 2 (omega arith))
    ∙ omega (
      arith,
      bit_and_mask k (a / 2),
      half_mod a (2 ^ k) (one-le-pow k 2 (omega arith)),
      low_mod a (2 ^ k),
    ))
