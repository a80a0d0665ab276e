-- ===== src/Bitboard/Word/Pop.antt =====
-- The loop `while (b) { square = bb_pop_lsb(&b); ... }`.
use native.Mathlib.Nat.{pow-suc}
use c_chess_cli.Common.{
  ℕ, zero, suc, ◌+◌, ◌-◌, ◌*◌, ◌/◌, ◌%◌, ◌^◌, ◌≤◌, ◌<◌, bit_and, ◌≡◌, refl, sym, ap, ap₂, ◌∙◌,
  arith, false, [], ◌∷◌, map, ◌==◌, if◌then◌else◌, range, keep, keep-map, Bool-cases, inl, inr,
  fun_ext,
}
use c_chess_cli.Bits.{test_bit, test_bit-and, test_bit_ext, bit_and_step, bit_and-le}
use c_chess_cli.Bitboard.Word.{bb_test, bb_lsb, bb_pop_lsb, ctz, pop_all, squares}
use c_chess_cli.Bitboard.Word.Laws.{bb_test-test_bit}

bit_and_self : (c : ℕ) → bit_and c c ≡ c
bit_and_self c = test_bit_ext _ _ λ i. ground (arith, test_bit-and c c i)

bb_pop_lsb-le : (b : ℕ) → bb_pop_lsb b ≤ b
unfolding bb_pop_lsb
bb_pop_lsb-le b = bit_and-le b (b - 1)

-- On an odd word the lowest square goes.
pop_odd : (c : ℕ) → bb_pop_lsb (2 * c + 1) ≡ 2 * c
unfolding bb_pop_lsb
pop_odd c =
    let e : (2 * c + 1) / 2 ≡ c = omega arith in
    let e' : (2 * c + 1 - 1) / 2 ≡ c = omega arith in
    bit_and_step (2 * c + 1) (2 * c + 1 - 1) ∙ rw (e, e') (omega (arith, bit_and_self c))

-- On an even word other than 0 the squares above are popped.
pop_even : (c : ℕ) → 0 < c → bb_pop_lsb (2 * c) ≡ 2 * bb_pop_lsb c
unfolding bb_pop_lsb
pop_even c h =
    let e : 2 * c / 2 ≡ c = omega arith in
    let e' : (2 * c - 1) / 2 ≡ c - 1 = omega arith in
    bit_and_step (2 * c) (2 * c - 1) ∙ rw (e, e') (omega arith)

-- One more digit does not change the lowest 1.
ctz_stable : (n c : ℕ) → 0 < c → c < 2 ^ n → ctz (suc n) c ≡ ctz n c
unfolding ctz
ctz_stable zero c h h' = absurd (omega arith)
ctz_stable (suc n) c h h' = elim (Bool-cases (c % 2 == 1)) [
  | inl o ↦ rw o
  | inr e ↦ rw e (ap suc (ctz_stable n (c / 2) (ground arith) (omega (arith, pow-suc 2 n))))
]

bb_lsb_odd : (c : ℕ) → bb_lsb (2 * c + 1) ≡ 0
unfolding bb_lsb
bb_lsb_odd c = let e : (2 * c + 1) % 2 ≡ 1 = omega arith in rw e

bb_lsb_even : (c : ℕ) → 0 < c → c < 2 ^ 63 → bb_lsb (2 * c) ≡ suc (bb_lsb c)
bb_lsb_even c h h' = half ∙ ap suc (sym (unfold bb_lsb in ctz_stable 63 c h h'))
  where
    half : bb_lsb (2 * c) ≡ suc (ctz 63 c)
    half =
        let e : 2 * c % 2 ≡ 0 = omega arith in
        let e' : 2 * c / 2 ≡ c = omega arith in unfold bb_lsb in rw (e, e')

pub pop_all_zero : (f : ℕ) → pop_all f 0 ≡ []
unfolding pop_all
pop_all_zero zero = refl
pop_all_zero (suc f) = refl

pub pop_all-suc : (f b : ℕ) → 0 < b → pop_all (suc f) b ≡ bb_lsb b ∷ pop_all f (bb_pop_lsb b)
pop_all-suc f b h = let e : (b == 0) ≡ false = ground arith in unfold pop_all in rw e

pop_all_even : (f c : ℕ) → c < 2 ^ 63 → pop_all f (2 * c) ≡ map suc (pop_all f c)
pop_all_even f zero h = pop_all_zero f ∙ sym (ap (map suc) (pop_all_zero f))
pop_all_even zero (suc c) h = unfold pop_all in refl
pop_all_even (suc f) (suc c) h = rw (
  pop_all-suc f (2 * suc c) (omega arith),
  pop_all-suc f (suc c) (omega arith),
  bb_lsb_even (suc c) (omega arith) h,
  pop_even (suc c) (omega arith),
  pop_all_even f (bb_pop_lsb (suc c)) (omega (arith, bb_pop_lsb-le (suc c))),
)

pub keep-range :
    (b n : ℕ)
    → keep (test_bit b) (range (suc n)) ≡ (
        if b % 2 == 1
        then 0 ∷ map suc (keep (test_bit (b / 2)) (range n))
        else map suc (keep (test_bit (b / 2)) (range n)))
unfolding test_bit
keep-range b n = ap (λ t. if b % 2 == 1 then 0 ∷ t else t) (keep-map (test_bit b) suc (range n))

pop_odd_step :
    (f b : ℕ) → b < 2 ^ 64 → b % 2 ≡ 1 → pop_all (suc f) b ≡ 0 ∷ map suc (pop_all f (b / 2))
pop_odd_step f b h o =
    let e : b ≡ 2 * (b / 2) + 1 = omega arith in
    pop_all-suc f b (omega arith)
    ∙ ap₂ ◌∷◌ (ap bb_lsb e ∙ bb_lsb_odd (b / 2))
        (ap (pop_all f) (ap bb_pop_lsb e ∙ pop_odd (b / 2)) ∙ pop_all_even f (b / 2) (omega arith))

-- The recursion from the lowest digit, for a word of `n` digits and at least as much fuel.
pub pop_all-keep :
    (n f b : ℕ) → b < 2 ^ n → b < 2 ^ 64 → n ≤ f → pop_all f b ≡ keep (test_bit b) (range n)
pop_all-keep zero f b h h' hf = let e : b ≡ 0 = omega arith in rw e (pop_all_zero f)
pop_all-keep (suc n) zero b h h' hf = absurd (omega arith)
pop_all-keep (suc n) (suc f) b h h' hf = elim (Bool-cases (b % 2 == 1)) [
  | inl o ↦
      pop_odd_step f b h' (ground arith)
      ∙ ap (λ t. 0 ∷ map suc t)
          (pop_all-keep n f (b / 2) (omega (arith, pow-suc 2 n)) (omega arith) (omega arith))
      ∙ sym (keep-range b n ∙ rw o)
  | inr z ↦
      ap (pop_all (suc f)) (let e : b ≡ 2 * (b / 2) = ground arith in e)
      ∙ pop_all_even (suc f) (b / 2) (omega arith)
      ∙ ap (map suc)
          (pop_all-keep n (suc f) (b / 2) (omega (arith, pow-suc 2 n)) (omega arith) (omega arith))
      ∙ sym (keep-range b n ∙ rw z)
]

-- The loop that pops the lowest square until the set is empty ends within 64 rounds, and visits
-- the squares of the set in ascending order, each once.
pub squares-keep-range : (b : ℕ) → b < 2 ^ 64 → squares b ≡ keep (bb_test b) (range 64)
squares-keep-range b h =
    unfold squares in
    pop_all-keep 64 64 b h h (omega arith)
    ∙ ap (λ p. keep p (range 64)) (sym (fun_ext (bb_test-test_bit b)))
