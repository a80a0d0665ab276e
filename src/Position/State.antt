-- ===== src/Position/State.antt =====
-- The struct Position of src/position.h, its queries, and the two functions that put a piece on a
-- square and take it away (src/position.c).
use c_chess_cli.Common.{
  ℕ, zero, suc, ◌+◌, bit_and, bit_or, bit_xor, Bool, ◌&&◌, ◌||◌, ◌==◌, leb, if◌then◌else◌, update,
}
use c_chess_cli.Bitboard.Square.{white, black, knight, rook, queen, king, pawn, nb_piece}
use c_chess_cli.Bitboard.Word.{bb_test, bb_set, bb_clear, bb_count, bb_lsb}
use c_chess_cli.Bitboard.Move.{move_from, move_to, move_prom}
use c_chess_cli.Position.Zobrist.{zobrist_key}

-- The two arrays are functions of the index.
pub record Position : Type 0 where
  pub by_color : ℕ → ℕ
  pub by_piece : ℕ → ℕ
  pub castle_rooks : ℕ
  pub key : ℕ
  pub attacked : ℕ
  pub checkers : ℕ
  pub pins : ℕ
  pub last_move : ℕ
  pub full_move : ℕ
  pub turn : ℕ
  pub ep_square : ℕ
  pub rule50 : ℕ
  pub chess960 : Bool

unfoldable pub clear_square : Position → ℕ → ℕ → ℕ → Position
unfolding bb_clear
clear_square pos color piece square = record pos {
  by_color = update pos.by_color color (bb_clear (pos.by_color color) square);
  by_piece = update pos.by_piece piece (bb_clear (pos.by_piece piece) square);
  key = bit_xor pos.key (zobrist_key color piece square);
}

unfoldable pub set_square : Position → ℕ → ℕ → ℕ → Position
unfolding bb_set
set_square pos color piece square = record pos {
  by_color = update pos.by_color color (bb_set (pos.by_color color) square);
  by_piece = update pos.by_piece piece (bb_set (pos.by_piece piece) square);
  key = bit_xor pos.key (zobrist_key color piece square);
}

unfoldable pub pos_pieces : Position → ℕ
pos_pieces pos = bit_or (pos.by_color white) (pos.by_color black)

unfoldable pub pos_pieces_cp : Position → ℕ → ℕ → ℕ
pos_pieces_cp pos color piece = bit_and (pos.by_color color) (pos.by_piece piece)

unfoldable pub pos_pieces_cpp : Position → ℕ → ℕ → ℕ → ℕ
pos_pieces_cpp pos color p1 p2 =
    bit_and (pos.by_color color) (bit_or (pos.by_piece p1) (pos.by_piece p2))

unfoldable pub pos_insufficient_material : Position → Bool
unfolding bb_count pos_pieces
pos_insufficient_material pos =
    leb (bb_count (pos_pieces pos)) 3
    && (pos.by_piece pawn == 0)
    && (pos.by_piece rook == 0)
    && (pos.by_piece queen == 0)

unfoldable pub pos_king_square : Position → ℕ → ℕ
unfolding bb_lsb pos_pieces_cp
pos_king_square pos color = bb_lsb (pos_pieces_cp pos color king)

unfoldable pub pos_color_on : Position → ℕ → ℕ
unfolding bb_test
pos_color_on pos square = if bb_test (pos.by_color white) square then white else black

-- The loop over the pieces, with `n` of them left from `piece` on.
unfoldable pub first_piece : (ℕ → ℕ) → ℕ → ℕ → ℕ → ℕ
unfolding bb_test
first_piece by_piece square zero piece = nb_piece
first_piece by_piece square (suc n) piece =
    let rest = first_piece by_piece square n (piece + 1) in
    if bb_test (by_piece piece) square then piece else rest

unfoldable pub pos_piece_on : Position → ℕ → ℕ
unfolding first_piece
pos_piece_on pos square = first_piece pos.by_piece square 6 knight

unfoldable pub pos_move_is_capture : Position → ℕ → Bool
unfolding bb_test move_to
pos_move_is_capture pos m = bb_test (pos.by_color (bit_xor pos.turn black)) (move_to m)

unfoldable pub pos_move_is_castling : Position → ℕ → Bool
unfolding bb_test move_to
pos_move_is_castling pos m = bb_test (pos.by_color pos.turn) (move_to m)

unfoldable pub pos_move_is_tactical : Position → ℕ → Bool
unfolding bb_test move_from move_to move_prom pos_pieces_cp
pos_move_is_tactical pos m =
    bb_test (bit_or (pos.by_color white) (pos.by_color black)) (move_to m)
    || (move_to m == pos.ep_square && bb_test (pos_pieces_cp pos pos.turn pawn) (move_from m))
    || leb (move_prom m) queen
