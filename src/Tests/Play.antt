-- ===== src/Tests/Play.antt =====
-- The theorems on positions, moves and games at concrete inputs.
use c_chess_cli.Common.{
  map, keep, range, ◌&&◌, ◌++◌, ℕ, ◌+◌, ◌*◌, ◌≤◌, ◌<◌, ◌^◌, ◌≡◌, ◌≢◌, refl, sym, arith, false, [],
  ◌∷◌, ◌==◌, leb, if◌then◌else◌, some, none, inl, inr, update, bit_or, bit_and, length,
}
use c_chess_cli.Bits.{test_bit-zero, xor_zero}
use c_chess_cli.Bitboard.Square.{white, black, pawn, knight, king, rook, opposite, file_of, rank_of}
use c_chess_cli.Bitboard.Move.{move_from, move_to, move_prom}
use c_chess_cli.Position.State.{
  Position, set_square, pos_piece_on, pos_move_is_castling, pos_insufficient_material,
}
use c_chess_cli.Position.Board.{Board, man, put, side_hash, Shows, IsConsistent, board_hash}
use c_chess_cli.Position.Board.Query.{set_square-Shows, piece_code, pos_piece_on-piece_code}
use c_chess_cli.Position.Board.Rules.{Plays, officer}
use c_chess_cli.Position.Play.{pos_move}
use c_chess_cli.Position.Play.Key.{pos_move-IsConsistent}
use c_chess_cli.Position.Notation.{pos_move_to_lan, pos_lan_to_move, square_to_string, lan_to}
use c_chess_cli.Position.Notation.Lan.{IsPlain, pos_lan_to_move-pos_move_to_lan}
use c_chess_cli.Common.Int.{pos, offset}
use c_chess_cli.Bitboard.Square.{nb_piece}
use c_chess_cli.Bitboard.Word.{bb_test}
use c_chess_cli.Gen.{gen_all_moves, serialize_piece_moves, serialize_pawn_moves, pin_allows}
use c_chess_cli.Bitboard.Move.{move_build}
use c_chess_cli.Gen.Serialize.{serialize_moves-keep}
use c_chess_cli.Game.{
  game_apply_chess_rules, state_stalemate, state_checkmate, state_fifty_moves,
  state_insufficient_material, state_threefold, state_none,
}
use c_chess_cli.Game.Repetition.{count_repeats, game_apply_chess_rules-threefold}

-- A position with no men and white to move, and its key.
abbrev pub no_men : Position
no_men = record {
  by_color = λ _. 0;
  by_piece = λ _. 0;
  castle_rooks = 0;
  key = side_hash 0 0 64;
  attacked = 0;
  checkers = 0;
  pins = 0;
  last_move = 0;
  full_move = 1;
  turn = 0;
  ep_square = 64;
  rule50 = 0;
  chess960 = false;
}

empty_hash : board_hash 64 (λ _. none) ≡ 0
unfolding board_hash
empty_hash = refl

pub no_men-IsConsistent : IsConsistent no_men (λ _. none)
no_men-IsConsistent = record {
  colors = λ c s h. test_bit-zero s;
  pieces = λ p s h. test_bit-zero s;
  men = λ s. tt;
  within = λ s h. refl;
  hash = rw empty_hash (sym (xor_zero (side_hash 0 0 64)));
}

-- A white knight on b1 and a black pawn on c3.
abbrev two_men : Position
two_men = set_square (set_square no_men white knight 1) black pawn 18

abbrev two_board : Board
two_board = put (put (λ _. none) 1 (man white knight)) 18 (man black pawn)

two_men-Shows : Shows (side_hash 0 0 64) two_men two_board
two_men-Shows =
    set_square-Shows (side_hash 0 0 64) (set_square no_men white knight 1)
      (put (λ _. none) 1 (man white knight)) black pawn 18
      (set_square-Shows (side_hash 0 0 64) no_men (λ _. none) white knight 1 no_men-IsConsistent
        (omega arith) (omega arith) (omega arith) refl)
      (omega arith) (omega arith) (omega arith) refl

two_men-IsConsistent : IsConsistent two_men two_board
unfolding set_square
two_men-IsConsistent = two_men-Shows

piece_on_example : pos_piece_on two_men 18 ≡ piece_code (two_board 18)
piece_on_example = pos_piece_on-piece_code (side_hash 0 0 64) two_men two_board 18 two_men-Shows

-- The knight takes the pawn.
abbrev b1c3 : ℕ
b1c3 = 1 + 18 * 64 + 6 * 4096

abbrev taken_board : Board
taken_board = put (put two_board 1 none) 18 (man white knight)

b1c3-Plays :
    Plays two_board two_men.turn two_men.ep_square
      (move_from b1c3)
      (move_to b1c3)
      (move_prom b1c3)
      taken_board
unfolding move_from move_to set_square opposite
b1c3-Plays = officer knight (omega arith) refl (inr (pawn, refl)) refl

b1c3_apart : move_from b1c3 ≢ move_to b1c3
unfolding move_from move_to
b1c3_apart = ground arith

white_moves : two_men.turn < 2
unfolding set_square
white_moves = omega arith

no_rooks : two_men.castle_rooks < 2 ^ 64
unfolding set_square
no_rooks = omega arith

pos_move-IsConsistent_example :
    IsConsistent (pos_move two_men b1c3) taken_board
    × ((pos_move two_men b1c3).turn ≡ (if two_men.turn == white then black else white))
    × ((pos_move two_men b1c3).castle_rooks ≤ two_men.castle_rooks)
    × (bit_and two_men.castle_rooks (pos_move two_men b1c3).castle_rooks
        ≡ (pos_move two_men b1c3).castle_rooks)
pos_move-IsConsistent_example =
    pos_move-IsConsistent two_men two_board taken_board b1c3 two_men-IsConsistent white_moves
      no_rooks b1c3_apart b1c3-Plays

-- White's king on e1 and a rook on h1, in a game of ordinary chess.
abbrev castling_position : Position
castling_position = record no_men {
  by_color = update (λ _. 0) white 0x90;
  by_piece = update (update (λ _. 0) king 0x10) rook 0x80;
  castle_rooks = 0x80;
}

-- e1h1, which is written e1g1.
abbrev castle : ℕ
castle = 4 + 7 * 64 + 6 * 4096

castle_run : pos_move_to_lan castling_position castle ≡ 101 ∷ 49 ∷ 103 ∷ 49 ∷ []
unfolding pos_move_to_lan move_from move_to move_prom square_to_string file_of rank_of lan_to
    pos_move_is_castling
castle_run = refl

castle-IsPlain : IsPlain castling_position castle
unfolding pos_move_is_castling pos_piece_on move_from move_to
castle-IsPlain = record { castles = λ _. (refl, inl refl); walks = λ e. ground arith }

castle_fields :
    (move_prom castle ≤ 6)
    × (bit_or (bit_or (move_from castle) (move_to castle)) (move_prom castle) ≢ 0)
unfolding move_from move_to move_prom
castle_fields = (omega arith, ground arith)

pos_lan_to_move_example :
    pos_lan_to_move castling_position (pos_move_to_lan castling_position castle) ≡ some castle
pos_lan_to_move_example =
    pos_lan_to_move-pos_move_to_lan castling_position castle (omega arith) castle_fields.0
      castle_fields.1 (λ _. castle-IsPlain)

-- A game that stands still: the position repeats at the distances 4, 6 and 8.
abbrev still : Position
still = record castling_position { key = 0; rule50 = 9 }

repeats_run : count_repeats (λ _. still) 8 4 20 ≡ 3
unfolding count_repeats
repeats_run = refl

threefold_example : game_apply_chess_rules (λ _. still) 8 ≡ (
    if length (gen_all_moves still) == 0
    then if still.checkers == 0 then state_stalemate else state_checkmate
    else if leb 100 still.rule50
    then state_fifty_moves
    else if pos_insufficient_material still
    then state_insufficient_material
    else if leb 2 (count_repeats (λ _. still) 8 4 (2 * (still.rule50 + 1)))
    then state_threefold
    else state_none)
threefold_example = game_apply_chess_rules-threefold (λ _. still) 8

-- A piece of a1 with the targets b1 and c1, and the pawns of a2 and b2 going up; nothing is pinned.
serialize_moves-keep_example :
    (serialize_piece_moves 0 0 4 6 []
      ≡ []
        ++ map
            (λ to. move_build 0 to nb_piece)
            (keep (λ to. bb_test 6 to && pin_allows 0 4 0 to) (range 64)))
    × (serialize_pawn_moves 0x300 0 4 (pos 8) []
        ≡ []
          ++ map
              (λ s. move_build s (offset s (pos 8)) nb_piece)
              (keep (λ s. bb_test 0x300 s && pin_allows 0 4 s (offset s (pos 8))) (range 64)))
serialize_moves-keep_example =
    serialize_moves-keep 0 0 4 6 0x300 (pos 8) [] (omega arith) (omega arith)
