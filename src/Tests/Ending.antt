-- ===== src/Tests/Ending.antt =====
-- A sound position with three men, and a move in it.
use c_chess_cli.Common.{ℕ, zero, suc, inl, ◌+◌, ◌*◌, ◌^◌, ◌<◌, ◌≡◌, ◌≢◌, refl, arith, false, none}
use c_chess_cli.Position.State.{Position, set_square}
use c_chess_cli.Gen.Plays.{MayGo, IsCalm}
use c_chess_cli.Gen.Sound.{IsSound, pos_move-IsSound}
use c_chess_cli.Gen.{gen_all_moves}
use c_chess_cli.Game.{illegal_move}
use c_chess_cli.Position.Board.Rules.{Plays}
use c_chess_cli.Bitboard.Move.{move_prom}
use c_chess_cli.Bits.{test_bit-zero}
use c_chess_cli.Bitboard.Square.{white, black, king, pawn, rank_of}
use c_chess_cli.Position.Board.{Board, man, put, side_hash, Shows}
use c_chess_cli.Position.Board.Query.{set_square-Shows}
use c_chess_cli.Tests.Play.{no_men, no_men-IsConsistent}
use c_chess_cli.Bitboard.Attacks.Leaper.{king_attacks}
use c_chess_cli.Bitboard.Attacks.Slider.{file_mask}
use c_chess_cli.Bitboard.Attacks.Slider.{rank_mask}
use c_chess_cli.Bitboard.Move.{move_build}
use c_chess_cli.Bitboard.Move.{move_from}
use c_chess_cli.Bitboard.Move.{move_to}
use c_chess_cli.Bitboard.Square.{opposite}
use c_chess_cli.Bitboard.Square.{push_inc}
use c_chess_cli.Bitboard.Square.{relative_rank}
use c_chess_cli.Bitboard.Word.{bb_not}
use c_chess_cli.Bitboard.Word.{bb_shift}
use c_chess_cli.Bitboard.Word.{bb_test}
use c_chess_cli.Bitboard.Word.{squares}
use c_chess_cli.Gen.{double_pushes}
use c_chess_cli.Gen.{gen_castling_moves}
use c_chess_cli.Gen.{gen_pawn_moves}
use c_chess_cli.Gen.{gen_piece_moves}
use c_chess_cli.Gen.{left_captures}
use c_chess_cli.Gen.{non_promoting_pawns}
use c_chess_cli.Gen.{pin_allows}
use c_chess_cli.Gen.{push_castling}
use c_chess_cli.Gen.{push_pawns}
use c_chess_cli.Gen.{push_pieces}
use c_chess_cli.Gen.{push_promoting}
use c_chess_cli.Gen.{push_targets}
use c_chess_cli.Gen.{right_captures}
use c_chess_cli.Gen.{serialize_pawn_moves}
use c_chess_cli.Gen.{serialize_piece_moves}
use c_chess_cli.Gen.{single_pushes}
use c_chess_cli.Position.Play.{pos_move}
use c_chess_cli.Position.State.{pos_king_square}
use c_chess_cli.Position.State.{pos_piece_on}
use c_chess_cli.Position.State.{pos_pieces_cp}
use c_chess_cli.Position.State.{pos_pieces_cpp}
use c_chess_cli.Position.State.{pos_pieces}

-- The kings on e1 and e8 and a white pawn on e2, white to move.
abbrev pub two_kings : Position
two_kings = set_square (set_square no_men white king 4) black king 60

abbrev pub three_men : Position
three_men = set_square two_kings white pawn 12

abbrev pub pawn_ending : Position
pawn_ending = record three_men { attacked = 2 ^ 59 + 2 ^ 61 + 7 * 2 ^ 51 }

abbrev pub ending_board : Board
ending_board =
    put (put (put (λ _. none) 4 (man white king)) 60 (man black king)) 12 (man white pawn)

three_men-Shows : Shows (side_hash 0 0 64) three_men ending_board
three_men-Shows =
    let side = side_hash 0 0 64 in
    let b1 = put (λ _. none) 4 (man white king) in
    let first =
      set_square-Shows side no_men (λ _. none) white king 4 no_men-IsConsistent (omega arith)
        (omega arith) (omega arith) refl in
    let second =
      set_square-Shows side (set_square no_men white king 4) b1 black king 60 first (omega arith)
        (omega arith) (omega arith) refl in
    set_square-Shows side two_kings (put b1 60 (man black king)) white pawn 12 second (omega arith)
      (omega arith) (omega arith) refl

ending_kings : (c : ℕ) → c < 2 → (k : ℕ) × (ending_board k ≡ man c king)
ending_kings zero h = (4, refl)
ending_kings (suc zero) h = (60, refl)
ending_kings (suc (suc c)) h = absurd (omega arith)

pawn_ending-Shows : Shows (side_hash 0 0 64) pawn_ending ending_board
pawn_ending-Shows = record {
  colors = three_men-Shows.colors;
  pieces = three_men-Shows.pieces;
  men = three_men-Shows.men;
  within = three_men-Shows.within;
  hash = three_men-Shows.hash;
}

pub pawn_ending-IsSound : IsSound pawn_ending ending_board
unfolding set_square rank_of
pawn_ending-IsSound = record {
  shown = pawn_ending-Shows;
  turn_lt = omega arith;
  rooks_lt = omega arith;
  kings = ending_kings;
  one_king = λ c s t h h'. ground arith;
  pawns_inside = λ s c h. ground arith;
  passed = inl refl;
  rights = λ s h. absurd (ground (arith, test_bit-zero s));
}

pub no_king : (n : ℕ) → n ≡ 6 → n ≢ king
no_king n e = ground arith

-- The pawn goes from e2 to e4.
abbrev e2e4 : ℕ
e2e4 = 12 + 28 * 64 + 6 * 4096

e2e4_legal : illegal_move e2e4 (gen_all_moves pawn_ending) ≡ false
unfolding illegal_move set_square bb_not bb_shift bb_test double_pushes file_mask gen_castling_moves
    gen_pawn_moves gen_piece_moves king_attacks left_captures move_build non_promoting_pawns
    opposite pin_allows pos_king_square pos_pieces_cp pos_pieces_cpp push_castling push_inc
    push_pawns push_pieces push_promoting push_targets rank_mask relative_rank right_captures
    serialize_pawn_moves serialize_piece_moves single_pushes squares gen_all_moves pos_pieces
e2e4_legal = refl

e2e4_empty : pos_piece_on pawn_ending (move_to e2e4) ≡ 6
unfolding set_square move_to pos_piece_on bb_test
e2e4_empty = refl

pos_move-IsSound_example :
    (move_from e2e4 ≢ move_to e2e4)
    × MayGo pawn_ending ending_board (move_from e2e4) (move_to e2e4)
    × IsCalm ending_board pawn_ending.turn (move_from e2e4) (move_to e2e4)
    × ((b' : Board) × Plays ending_board pawn_ending.turn pawn_ending.ep_square
          (move_from e2e4)
          (move_to e2e4)
          (move_prom e2e4)
          b'
        × IsSound (pos_move pawn_ending e2e4) b')
pos_move-IsSound_example =
    pos_move-IsSound pawn_ending ending_board e2e4 pawn_ending-IsSound e2e4_legal
      (no_king _ e2e4_empty)
