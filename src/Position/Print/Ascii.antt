-- ===== src/Position/Print/Ascii.antt =====
-- `pos_print` of src/position.c: a position in lines of text.
use c_chess_cli.Common.{
  ℕ, ◌*◌, List, [], ◌∷◌, ◌++◌, ◌==◌, if◌then◌else◌, set, range, reverse, codes,
}
use c_chess_cli.Bitboard.Square.{square_from}
use c_chess_cli.Bitboard.Word.{bb_test}
use c_chess_cli.Bitboard.Print.{empty_line}
use c_chess_cli.Position.State.{Position, pos_pieces, pos_color_on, pos_piece_on}
use c_chess_cli.Position.Notation.{Bytes, piece_label, pos_move_to_lan}
use c_chess_cli.Position.Print.{pos_get}

-- The label of the man on a square, `*` for the en passant square, or a dot.
unfoldable pub square_char : Position → ℕ → ℕ
square_char p square =
    if bb_test (pos_pieces p) square
    then piece_label (pos_color_on p square) (pos_piece_on p square)
    else if square == p.ep_square
    then 42
    else 46

unfoldable pub put_chars : Position → ℕ → List ℕ → Bytes → Bytes
unfolding square_char
put_chars p rank [] line = line
put_chars p rank (file ∷ files) line =
    put_chars p rank files (set line (2 * file) (square_char p (square_from rank file)))

unfoldable pub print_lines : Position → List ℕ → Bytes
unfolding put_chars
print_lines p [] = []
print_lines p (rank ∷ ranks) = put_chars p rank (range 8) empty_line ++ 10 ∷ print_lines p ranks

unfoldable pub pos_print : Position → Bytes
unfolding print_lines pos_get pos_move_to_lan
pos_print p =
    print_lines p (reverse (range 8))
    ++ pos_get p
    ++ codes "\nLast move: "
    ++ pos_move_to_lan p p.last_move
    ++ codes "\n"
