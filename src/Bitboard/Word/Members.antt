-- ===== src/Bitboard/Word/Members.antt =====
-- The squares that a loop pops are those of the set, and what shifts and small counts say of them.
use mathlib.Core.Bool.{xor}
use c_chess_cli.Common.{
  ℕ, zero, suc, ◌+◌, ◌-◌, ◌/◌, ◌^◌, ◌≤◌, ◌<◌, ◌≡◌, ◌≢◌, sym, ap, subst, ◌∙◌, arith, true, false,
  ◌==◌, range, keep, All, All-keep, All-mono, range-lt, bit_and, Bool-cases, inl, inr,
}
use c_chess_cli.Common.Int.{pos, negsuc}
use c_chess_cli.Bits.{
  test_bit, test_bit-and, test_bit-zero, test_bit-above, lt_of_test_bit, bit_xor-lt, bit_and-le,
}
use c_chess_cli.Bitboard.Word.{all_ones, bb_not, bb_test, bb_shift, bb_count, popcount, squares}
use c_chess_cli.Bitboard.Word.Laws.{
  bb_test-test_bit, test_bit-not, test_bit-shift_up, test_bit-shift_down,
}
use c_chess_cli.Bitboard.Word.Pop.{squares-keep-range}

-- A square of the board that is in the set.
abbrev pub IsIn : ℕ → ℕ → Type 0
IsIn b s = (test_bit b s ≡ true) × (s < 64)

pub squares-IsIn : (b : ℕ) → b < 2 ^ 64 → All (IsIn b) (squares b)
squares-IsIn b h = subst (All (IsIn b)) (sym (squares-keep-range b h)) (
    All-mono (λ s. (bb_test b s ≡ true) × (s < 64)) (IsIn b) (keep (bb_test b) (range 64))
      (λ s p. (sym (bb_test-test_bit b s) ∙ p.0, p.1))
      (All-keep (λ s. s < 64) (bb_test b) (range 64) (range-lt 64)))

pub and_both :
    (a b s : ℕ) → test_bit (bit_and a b) s ≡ true → (test_bit a s ≡ true) × (test_bit b s ≡ true)
and_both a b s h = ground (arith, test_bit-and a b s)

pub bit_and-lt : (a b : ℕ) → a < 2 ^ 64 → bit_and a b < 2 ^ 64
bit_and-lt a b h = omega (arith, bit_and-le a b)

pub member-lt : (b s : ℕ) → b < 2 ^ 64 → test_bit b s ≡ true → s < 64
member-lt b s h t = ground (arith, test_bit-above 64 b s)

-- A set shifted by `n` has the square `s` if the set has `s - n`, and shifted back, `s + n`.
pub shift_up-IsIn :
    (b n s : ℕ)
    → b < 2 ^ 64
    → test_bit (bb_shift b (pos n)) s ≡ true
    → IsIn b (s - n) × (n ≤ s) × (s < 64)
shift_up-IsIn b n s h t = ground (arith, test_bit-shift_up b n s, member-lt b (s - n))

pub shift_down-IsIn :
    (b n s : ℕ) → b < 2 ^ 64 → test_bit (bb_shift b (negsuc n)) s ≡ true → IsIn b (s + suc n)
shift_down-IsIn b n s h t =
    let e : suc n + s ≡ s + suc n = omega arith in
    let t' = ap (test_bit b) (sym e) ∙ sym (test_bit-shift_down b n s) ∙ t in
    (t', member-lt b (s + suc n) h t')

popcount-pos : (n b i : ℕ) → i < n → test_bit b i ≡ true → 1 ≤ popcount n b
unfolding popcount test_bit
popcount-pos zero b i l h = absurd (omega arith)
popcount-pos (suc n) b zero l h = ground arith
popcount-pos (suc n) b (suc i) l h = omega (arith, popcount-pos n (b / 2) i (omega arith) h)

popcount-two :
    (n b i j : ℕ) → i < j → j < n → test_bit b i ≡ true → test_bit b j ≡ true → 2 ≤ popcount n b
unfolding popcount test_bit
popcount-two zero b i j l l' h k = absurd (omega arith)
popcount-two (suc n) b i zero l l' h k = absurd (omega arith)
popcount-two (suc n) b zero (suc j) l l' h k = ground (arith, popcount-pos n (b / 2) j)
popcount-two (suc n) b (suc i) (suc j) l l' h k =
    omega (arith, popcount-two n (b / 2) i j (omega arith) (omega arith) h k)

popcount-three :
    (n b i j k : ℕ)
    → i < j
    → j < k
    → k < n
    → test_bit b i ≡ true
    → test_bit b j ≡ true
    → test_bit b k ≡ true
    → 3 ≤ popcount n b
unfolding popcount test_bit
popcount-three zero b i j k l l' l'' h h' h'' = absurd (omega arith)
popcount-three (suc n) b i j zero l l' l'' h h' h'' = absurd (omega arith)
popcount-three (suc n) b i zero (suc k) l l' l'' h h' h'' = absurd (omega arith)
popcount-three (suc n) b zero (suc j) (suc k) l l' l'' h h' h'' =
    ground (arith, popcount-two n (b / 2) j k)
popcount-three (suc n) b (suc i) (suc j) (suc k) l l' l'' h h' h'' =
    omega (arith, popcount-three n (b / 2) i j k (omega arith) (omega arith) (omega arith) h h' h'')

-- A set of two squares has no third one.
pub only_two :
    (b i j k : ℕ)
    → (bb_count b == 2) ≡ true
    → IsIn b i
    → IsIn b j
    → i ≢ j
    → i ≢ k
    → j ≢ k
    → k < 64
    → test_bit b k ≡ false
unfolding bb_count
only_two b i j k two (hi, li) (hj, lj) ij ik jk l = ground (
  arith,
  popcount-three 64 b i j k,
  popcount-three 64 b i k j,
  popcount-three 64 b j i k,
  popcount-three 64 b j k i,
  popcount-three 64 b k i j,
  popcount-three 64 b k j i,
)

pub not_in : (b s : ℕ) → test_bit (bb_not b) s ≡ true → s < 64 → test_bit b s ≡ false
unfolding xor
not_in b s h l = ground (arith, test_bit-not b s)

pub bit_and-lt_right : (a b : ℕ) → b < 2 ^ 64 → bit_and a b < 2 ^ 64
bit_and-lt_right a b h =
    lt_of_test_bit 64 (bit_and a b)
      (λ i le. ground (arith, test_bit-and a b i, test_bit-above 64 b i))

pub in_not : (b s : ℕ) → test_bit b s ≡ false → s < 64 → test_bit (bb_not b) s ≡ true
unfolding xor
in_not b s h l = ground (arith, test_bit-not b s)

-- A set without a square outside another one is a subset of it.
pub subset :
    (a b s : ℕ)
    → (bit_and a (bb_not b) == 0) ≡ true
    → s < 64
    → test_bit a s ≡ true
    → test_bit b s ≡ true
subset a b s none_out l h = elim (Bool-cases (test_bit b s)) [
  | inl t ↦ t
  | inr t ↦
      let both_in : test_bit (bit_and a (bb_not b)) s ≡ true =
        ground (arith, test_bit-and a (bb_not b) s, in_not b s t l) in
      let nothing : bit_and a (bb_not b) ≡ 0 = ground arith in
      cc (sym both_in ∙ ap (λ (w : ℕ). test_bit w s) nothing ∙ test_bit-zero s)
]

pub bb_not-lt : (b : ℕ) → b < 2 ^ 64 → bb_not b < 2 ^ 64
unfolding bb_not
bb_not-lt b h = bit_xor-lt 64 b all_ones h (omega arith)
