-- ===== src/Bitboard/Attacks/Leaper.antt =====
-- The tables of knight, king and pawn attacks, and those of rays and segments, as `bb_init` of
-- src/bitboard.c fills them.
use c_chess_cli.Common.{
  ℕ, zero, suc, ◌&&◌, List, [], ◌∷◌, map, ◌≡◌, refl, ◌==◌, if◌then◌else◌, update,
}
use c_chess_cli.Common.Int.{ℤ, pos, negsuc, pos_part, ◌+ℤ◌, neg}
use c_chess_cli.Bitboard.Square.{square_from, rank_of, file_of, white}
use c_chess_cli.Bitboard.Word.{bb_set, squares}
use c_chess_cli.Bitboard.Attacks.Slider.{Dir, minus1, in_range}

unfoldable pub safe_set_bit : ℕ → ℤ → ℤ → ℕ
unfolding bb_set square_from
safe_set_bit b rank file =
    if in_range rank && in_range file
    then bb_set b (square_from (pos_part rank) (pos_part file))
    else b

-- One leaper's table at one square, over its directions.
unfoldable pub leaps : List Dir → ℕ → ℕ → ℕ
unfolding safe_set_bit rank_of file_of
leaps [] square b = b
leaps (d ∷ ds) square b =
    leaps ds square (safe_set_bit b (pos (rank_of square) +ℤ d.0) (pos (file_of square) +ℤ d.1))

abbrev pub minus2 : ℤ
minus2 = negsuc 1

abbrev pub knight_dirs : List Dir
knight_dirs =
    (minus2, minus1)
    ∷ (minus2, pos 1)
    ∷ (minus1, minus2)
    ∷ (minus1, pos 2)
    ∷ (pos 1, minus2)
    ∷ (pos 1, pos 2)
    ∷ (pos 2, minus1)
    ∷ (pos 2, pos 1)
    ∷ []

abbrev pub king_dirs : List Dir
king_dirs =
    (minus1, minus1)
    ∷ (minus1, pos 0)
    ∷ (minus1, pos 1)
    ∷ (pos 0, minus1)
    ∷ (pos 0, pos 1)
    ∷ (pos 1, minus1)
    ∷ (pos 1, pos 0)
    ∷ (pos 1, pos 1)
    ∷ []

abbrev pub pawn_dirs : List Dir
pawn_dirs = (pos 1, minus1) ∷ (pos 1, pos 1) ∷ []

unfoldable pub knight_attacks : ℕ → ℕ
unfolding leaps
knight_attacks square = leaps knight_dirs square 0

unfoldable pub king_attacks : ℕ → ℕ
unfolding leaps
king_attacks square = leaps king_dirs square 0

-- Black's pawns go the other way: `rank - PawnDir[d][0], file - PawnDir[d][1]`.
unfoldable pub pawn_attacks : ℕ → ℕ → ℕ
unfolding leaps
pawn_attacks color square =
    leaps (if color == white then pawn_dirs else map (λ d. (neg d.0, neg d.1)) pawn_dirs) square 0

-- The rows `Segment[square]` and `Ray[square]`.
pub record Rays : Type 0 where
  pub segment : ℕ → ℕ
  pub ray : ℕ → ℕ

-- The walk in one direction, from the square itself; 8 rounds leave the board.
unfoldable pub walk : ℕ → ℤ → ℤ → Dir → ℕ → (ℕ → ℕ) → ℕ × (ℕ → ℕ)
unfolding bb_set square_from
walk zero rank file dir mask segment = (mask, segment)
walk (suc fuel) rank file dir mask segment =
    let s2 = square_from (pos_part rank) (pos_part file) in
    let mask' = bb_set mask s2 in
    let rest = walk fuel (rank +ℤ dir.0) (file +ℤ dir.1) dir mask' (update segment s2 mask') in
    if in_range rank && in_range file then rest else (mask, segment)

-- `while (sqs) Ray[square][bb_pop_lsb(&sqs)] = mask;`
unfoldable pub set_rays : List ℕ → ℕ → (ℕ → ℕ) → ℕ → ℕ
set_rays [] mask ray = ray
set_rays (s ∷ ss) mask ray = set_rays ss mask (update ray s mask)

unfoldable pub init_rays : List Dir → ℕ → Rays → Rays
unfolding walk set_rays squares rank_of file_of
init_rays [] square r = r
init_rays (d ∷ ds) square r =
    let (mask, segment) = walk 8 (pos (rank_of square)) (pos (file_of square)) d 0 r.segment in
    init_rays ds square (record { segment = segment; ray = set_rays (squares mask) mask r.ray })

unfoldable pub rays : ℕ → Rays
unfolding init_rays
rays square = init_rays king_dirs square (record { segment = λ _. 0; ray = λ _. 0 })

unfoldable pub segment : ℕ → ℕ → ℕ
unfolding rays
segment from to = (rays from).segment to

unfoldable pub ray : ℕ → ℕ → ℕ
unfolding rays
ray from to = (rays from).ray to

segment_a1_d4 : segment 0 27 ≡ 0x0000_0000_0804_0201
unfolding segment
segment_a1_d4 = refl

knight_a1 : knight_attacks 0 ≡ 0x0002_0400
unfolding knight_attacks
knight_a1 = refl
