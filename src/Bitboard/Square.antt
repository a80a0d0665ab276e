-- ===== src/Bitboard/Square.antt =====
-- Squares, ranks, files and colors (src/bitboard.h, src/bitboard.c). The assertions BOUNDS are
-- hypotheses of the theorems.
use c_chess_cli.Common.{
  ℕ, zero, suc, ◌+◌, ◌*◌, ◌-◌, ◌/◌, ◌%◌, ◌<◌, bit_xor, ◌≡◌, refl, arith, ◌==◌, ◌&&◌, true,
  holds_below, holds_below_sound, if◌then◌else◌,
}
use c_chess_cli.Common.Int.{ℤ, pos, negsuc, sub_ℕ}

abbrev pub nb_square : ℕ
nb_square = 64

abbrev pub white : ℕ
white = 0

abbrev pub black : ℕ
black = 1

abbrev pub knight : ℕ
knight = 0

abbrev pub bishop : ℕ
bishop = 1

abbrev pub rook : ℕ
rook = 2

abbrev pub queen : ℕ
queen = 3

abbrev pub king : ℕ
king = 4

abbrev pub pawn : ℕ
pawn = 5

-- Also what `pos_piece_on` says of an empty square, and the promotion of an ordinary move.
abbrev pub nb_piece : ℕ
nb_piece = 6

unfoldable pub opposite : ℕ → ℕ
opposite color = bit_xor color black

-- UP - color * (UP - DOWN)
unfoldable pub push_inc : ℕ → ℤ
push_inc color = sub_ℕ 8 (color * 16)

unfoldable pub square_from : ℕ → ℕ → ℕ
square_from rank file = 8 * rank + file

unfoldable pub rank_of : ℕ → ℕ
rank_of square = square / 8

unfoldable pub file_of : ℕ → ℕ
file_of square = square % 8

unfoldable pub relative_rank : ℕ → ℕ → ℕ
relative_rank color rank = bit_xor rank (7 * color)

-- Squares and pairs of a rank and a file correspond one to one.
pub square_from-rank_of-file_of :
    (rank file square : ℕ)
    → rank < 8
    → file < 8
    → square < 64
    → (square_from rank file < 64)
      × (rank_of (square_from rank file) ≡ rank)
      × (file_of (square_from rank file) ≡ file)
      × (rank_of square < 8)
      × (file_of square < 8)
      × (square_from (rank_of square) (file_of square) ≡ square)
unfolding square_from rank_of file_of
square_from-rank_of-file_of rank file square hr hf hs = omega arith

xor_table : holds_below 8 (λ r. bit_xor r 0 == r && bit_xor r 7 == 7 - r) ≡ true
unfolding holds_below
xor_table = refl

xor_rank : (rank : ℕ) → rank < 8 → (bit_xor rank 0 ≡ rank) × (bit_xor rank 7 ≡ 7 - rank)
xor_rank rank h =
    ground
      (arith, holds_below_sound 8 (λ r. bit_xor r 0 == r && bit_xor r 7 == 7 - r) rank xor_table)

-- The three functions written without a branch give, for both colors, what their comments say:
-- the other color, one rank up for white and one down for black, and the rank as that color
-- counts it.
pub branchless_color :
    (color rank : ℕ)
    → color < 2
    → rank < 8
    → (opposite color ≡ (if color == white then black else white))
      × (push_inc color ≡ (if color == white then pos 8 else negsuc 7))
      × (relative_rank color rank ≡ (if color == white then rank else 7 - rank))
unfolding opposite push_inc relative_rank
branchless_color zero rank hc hr = (refl, refl, (xor_rank rank hr).0)
branchless_color (suc zero) rank hc hr = (refl, refl, (xor_rank rank hr).1)
branchless_color (suc (suc color)) rank hc hr = absurd (omega arith)
