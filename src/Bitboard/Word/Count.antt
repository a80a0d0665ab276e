-- ===== src/Bitboard/Word/Count.antt =====
-- Counting the squares of a set, and its first and last square.
use native.Mathlib.Nat.{pow-suc}
use c_chess_cli.Common.{
  ℕ, zero, suc, ◌/◌, ◌%◌, ◌^◌, ◌<◌, ◌≡◌, refl, sym, ap, ◌∙◌, arith, true, false, not, ◌==◌, leb,
  range, keep, length, length-map, ==_iff, Bool-cases, inl, inr,
}
use c_chess_cli.Bits.{test_bit, test_bit-zero}
use c_chess_cli.Bitboard.Word.{
  bb_test, bb_lsb, bb_msb, highest, bb_pop_lsb, bb_several, bb_count, popcount, ctz, pop_all,
  squares,
}
use c_chess_cli.Bitboard.Word.Laws.{bb_test-test_bit}
use c_chess_cli.Bitboard.Word.Pop.{pop_all-keep, pop_all-suc, pop_all_zero, keep-range}

popcount-keep : (n b : ℕ) → popcount n b ≡ length (keep (test_bit b) (range n))
unfolding popcount
popcount-keep zero b = refl
popcount-keep (suc n) b = ground (
  arith,
  ap length (keep-range b n),
  length-map suc (keep (test_bit (b / 2)) (range n)),
  popcount-keep n (b / 2),
)

leb-suc : (n : ℕ) → leb 1 n ≡ leb 2 (suc n)
leb-suc n = ground arith

several_step : (b : ℕ) → bb_several b ≡ not (bb_pop_lsb b == 0)
unfolding bb_several bb_pop_lsb
several_step b = refl

-- `bb_count` is the number of squares that the pop loop visits, and `bb_several` says that there
-- are at least two of them.
pub bb_count-bb_several-squares :
    (b : ℕ)
    → b < 2 ^ 64
    → (bb_count b ≡ length (squares b)) × (bb_several b ≡ leb 2 (length (squares b)))
bb_count-bb_several-squares b h = (
  unfold bb_count squares in
      (popcount-keep 64 b ∙ ap length (sym (pop_all-keep 64 64 b h h (omega arith)))),
  several b,
)
  where
    rest : (c : ℕ) → not (c == 0) ≡ leb 1 (length (pop_all 63 c))
    rest zero = rw pop_all_zero
    rest (suc c) = rw (pop_all-suc 62 (suc c) (omega arith)) (ground arith)

    several : (c : ℕ) → bb_several c ≡ leb 2 (length (squares c))
    several zero = unfold squares bb_several in refl
    several (suc c) =
        unfold squares in
        rw (pop_all-suc 63 (suc c) (omega arith)) (
          several_step (suc c)
          ∙ rest (bb_pop_lsb (suc c))
          ∙ leb-suc (length (pop_all 63 (bb_pop_lsb (suc c)))))

clear_below_suc :
    (b k : ℕ)
    → test_bit b 0 ≡ false
    → ((i : ℕ) → i < k → test_bit (b / 2) i ≡ false)
    → (i : ℕ) → i < suc k
    → test_bit b i ≡ false
clear_below_suc b k low high zero h = low
clear_below_suc b k low high (suc i) h = unfold test_bit in high i (omega arith)

ctz_least :
    (n b : ℕ)
    → 0 < b
    → b < 2 ^ n
    → (test_bit b (ctz n b) ≡ true) × ((i : ℕ) → i < ctz n b → test_bit b i ≡ false) × (ctz n b < n)
unfolding ctz test_bit
ctz_least zero b h h' = absurd (omega arith)
ctz_least (suc n) b h h' = elim (Bool-cases (b % 2 == 1)) [
  | inl o ↦ rw o (o, (λ i lt. absurd (omega arith)), omega arith)
  | inr e ↦
      let ih = ctz_least n (b / 2) (ground arith) (omega (arith, pow-suc 2 n)) in
      rw e (ih.0, clear_below_suc b (ctz n (b / 2)) e ih.1, omega (arith, ih.2))
]

clear_above_suc :
    (b k : ℕ)
    → ((i : ℕ) → k < i → test_bit (b / 2) i ≡ false)
    → (i : ℕ) → suc k < i
    → test_bit b i ≡ false
clear_above_suc b k high zero h = absurd (omega arith)
clear_above_suc b k high (suc i) h = unfold test_bit in high i (omega arith)

clear_past_zero : (b : ℕ) → b / 2 ≡ 0 → (i : ℕ) → 0 < i → test_bit b i ≡ false
clear_past_zero b e zero h = absurd (omega arith)
clear_past_zero b e (suc i) h = unfold test_bit in rw e (test_bit-zero i)

highest_greatest :
    (n b : ℕ)
    → 0 < b
    → b < 2 ^ n
    → (test_bit b (highest n b) ≡ true)
      × ((i : ℕ) → highest n b < i → test_bit b i ≡ false)
      × (highest n b < n)
unfolding highest test_bit
highest_greatest zero b h h' = absurd (omega arith)
highest_greatest (suc n) b h h' = elim (Bool-cases (b / 2 == 0)) [
  | inl z ↦ rw z (ground arith, clear_past_zero b ((==_iff _ _).0 z), omega arith)
  | inr more ↦
      let ih = highest_greatest n (b / 2) (ground arith) (omega (arith, pow-suc 2 n)) in
      rw more (ih.0, clear_above_suc b (highest n (b / 2)) ih.1, omega (arith, ih.2))
]

-- On a set that is not empty and fits 64 bits `bb_lsb` is its lowest square and `bb_msb` its highest, and both
-- are squares of the board.
pub bb_lsb-bb_msb :
    (b : ℕ)
    → 0 < b
    → b < 2 ^ 64
    → (bb_test b (bb_lsb b) ≡ true)
      × ((i : ℕ) → i < bb_lsb b → bb_test b i ≡ false)
      × (bb_lsb b < 64)
      × (bb_test b (bb_msb b) ≡ true)
      × ((i : ℕ) → bb_msb b < i → bb_test b i ≡ false)
      × (bb_msb b < 64)
unfolding bb_lsb bb_msb
bb_lsb-bb_msb b h h' =
    let l = ctz_least 64 b h h' in
    let m = highest_greatest 64 b h h' in
    (
      bb_test-test_bit b _ ∙ l.0,
      (λ i lt. bb_test-test_bit b i ∙ l.1 i lt),
      l.2,
      bb_test-test_bit b _ ∙ m.0,
      (λ i lt. bb_test-test_bit b i ∙ m.1 i lt),
      m.2,
    )
