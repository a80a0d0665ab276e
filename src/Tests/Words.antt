-- ===== src/Tests/Words.antt =====
-- The theorems on words, squares and moves (src/bitboard.c) at concrete inputs.
use c_chess_cli.Common.{
  ℕ, ◌+◌, ◌^◌, codes, ◌<◌, ◌≡◌, refl, arith, true, false, [], ◌∷◌, leb, keep, range, length,
}
use c_chess_cli.Bitboard.Square.{square_from}
use c_chess_cli.Bitboard.Print.{bb_print, print_ranks, put_crosses}
use c_chess_cli.Bitboard.Word.{bb_test, bb_lsb, bb_msb, bb_count, bb_several, squares}
use c_chess_cli.Bitboard.Word.Pop.{squares-keep-range}
use c_chess_cli.Bitboard.Word.Count.{bb_lsb-bb_msb, bb_count-bb_several-squares}
use c_chess_cli.Bitboard.Move.{
  move_build, move_from, move_to, move_prom, move_from-move_to-move_prom-move_build,
  move_build-move_from-move_to-move_prom,
}
use c_chess_cli.Position.Board.{side_hash}
use c_chess_cli.Position.Play.Gap.{side_hash_blind}

-- The squares b1, c1 and h8.
abbrev three_squares : ℕ
three_squares = 0x8000_0000_0000_0006

squares_run : squares three_squares ≡ 1 ∷ 2 ∷ 63 ∷ []
unfolding squares
squares_run = refl

squares-keep-range_example : squares three_squares ≡ keep (bb_test three_squares) (range 64)
squares-keep-range_example = squares-keep-range three_squares (omega arith)

bb_lsb-bb_msb_example :
    (bb_test three_squares (bb_lsb three_squares) ≡ true)
    × ((i : ℕ) → i < bb_lsb three_squares → bb_test three_squares i ≡ false)
    × (bb_lsb three_squares < 64)
    × (bb_test three_squares (bb_msb three_squares) ≡ true)
    × ((i : ℕ) → bb_msb three_squares < i → bb_test three_squares i ≡ false)
    × (bb_msb three_squares < 64)
bb_lsb-bb_msb_example = bb_lsb-bb_msb three_squares (omega arith) (omega arith)

bb_count-bb_several-squares_example :
    (bb_count three_squares ≡ length (squares three_squares))
    × (bb_several three_squares ≡ leb 2 (length (squares three_squares)))
bb_count-bb_several-squares_example = bb_count-bb_several-squares three_squares (omega arith)

-- e7e8 with a promotion to a queen.
promotion_run : move_build 52 60 3 ≡ 16180
unfolding move_build
promotion_run = refl

move_build_example :
    (move_from (move_build 52 60 3) ≡ 52)
    × (move_to (move_build 52 60 3) ≡ 60)
    × (move_prom (move_build 52 60 3) ≡ 3)
move_build_example =
    move_from-move_to-move_prom-move_build 52 60 3 (omega arith) (omega arith) (omega arith)

move_decode_example : move_build (move_from 16180) (move_to 16180) (move_prom 16180) ≡ 16180
move_decode_example = move_build-move_from-move_to-move_prom 16180 (omega arith)

-- The rook of h1 and an en passant square on e3, against no rights at all.
side_hash_blind_example : side_hash 1 0x80 20 ≡ side_hash 1 0 63
side_hash_blind_example =
    side_hash_blind 1 0x80 0 20 63 (omega arith) (omega arith) (omega arith) (omega arith)
      (omega arith) (omega arith) (omega arith) (omega arith)

-- The squares a1 and h8.
corners_run :
    bb_print (2 ^ 63 + 1)
    ≡ codes
        ". . . . . . . X\n. . . . . . . .\n. . . . . . . .\n. . . . . . . .\n. . . . . . . .\n. . . . . . . .\n. . . . . . . .\nX . . . . . . .\n\n"
unfolding bb_print print_ranks put_crosses bb_test square_from
corners_run = refl
