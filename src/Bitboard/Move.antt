-- ===== src/Bitboard/Move.antt =====
-- The encoding of a move in 16 bits (src/bitboard.c): from and to take 6 bits each, and the
-- promotion the 4 bits above.
use c_chess_cli.Common.{ℕ, ◌+◌, ◌*◌, ◌/◌, ◌%◌, ◌^◌, ◌<◌, bit_and, bit_or, ◌≡◌, arith, ◌∙◌}
use c_chess_cli.Bits.{bit_or_disjoint, bit_and_mask}

unfoldable pub move_build : ℕ → ℕ → ℕ → ℕ
move_build from to prom = bit_or (bit_or from (to * 2 ^ 6)) (prom * 2 ^ 12) % 2 ^ 16

unfoldable pub move_from : ℕ → ℕ
move_from m = bit_and m 0o77

unfoldable pub move_to : ℕ → ℕ
move_to m = bit_and (m / 2 ^ 6) 0o77

unfoldable pub move_prom : ℕ → ℕ
move_prom m = m / 2 ^ 12

fields_sum :
    (from to prom : ℕ)
    → from < 64
    → to < 64
    → prom < 16
    → bit_or (bit_or from (to * 2 ^ 6)) (prom * 2 ^ 12) ≡ from + to * 2 ^ 6 + prom * 2 ^ 12
fields_sum from to prom hf ht hp =
    rw (bit_or_disjoint 6 from to hf) (bit_or_disjoint 12 (from + to * 2 ^ 6) prom (omega arith))

-- A move is decoded into the squares and the promotion that it was built from, and different
-- moves have different encodings.
pub move_from-move_to-move_prom-move_build :
    (from to prom : ℕ)
    → from < 64
    → to < 64
    → prom < 16
    → (move_from (move_build from to prom) ≡ from)
      × (move_to (move_build from to prom) ≡ to)
      × (move_prom (move_build from to prom) ≡ prom)
unfolding move_build move_from move_to move_prom
move_from-move_to-move_prom-move_build from to prom hf ht hp =
    rw (fields_sum from to prom hf ht hp)
      (bit_and_mask 6 _ ∙ omega arith, bit_and_mask 6 _ ∙ omega arith, omega arith)

-- Every 16-bit word is the encoding of what it decodes to.
pub move_build-move_from-move_to-move_prom :
    (m : ℕ) → m < 2 ^ 16 → move_build (move_from m) (move_to m) (move_prom m) ≡ m
unfolding move_build move_from move_to move_prom
move_build-move_from-move_to-move_prom m h =
    rw (bit_and_mask 6 m, bit_and_mask 6 (m / 2 ^ 6))
      (rw
        (fields_sum (m % 2 ^ 6) (m / 2 ^ 6 % 2 ^ 6) (m / 2 ^ 12) (omega arith) (omega arith)
          (omega arith))
        (omega arith))
