-- ===== src/Tests/Match.antt =====
-- The theorems on games and tournaments at concrete inputs.
use c_chess_cli.Common.{
  ℕ, zero, suc, ◌+◌, ◌-◌, ◌*◌, ◌<◌, ◌≡◌, ◌≢◌, refl, arith, true, false, [], ◌∷◌, ◌==◌,
  if◌then◌else◌, Option, some, none, length, codes,
}
use c_chess_cli.Str.{Bytes, str_tok, span, skip, mem}
use c_chess_cli.Jobs.{Job, job_queue_init, nth}
use c_chess_cli.Position.State.{Position, set_square}
use c_chess_cli.Position.Fen.{pos_set}
use c_chess_cli.Position.Fen.Placement.{
  rejected, set_placement, place_chars, place_char, place_piece,
}
use c_chess_cli.Position.Notation.{label_index}
use c_chess_cli.Game.Play.{Game, game_init, out_of_fuel as no_turn}
use c_chess_cli.Workers.{worker_init}
use c_chess_cli.Options.{engine_options_init}
use c_chess_cli.Options.Parse.{options_init}
use c_chess_cli.Game.{state_illegal_move}
use c_chess_cli.Game.Play.{Table, Playing, start, game_loop, game_play}
use c_chess_cli.Game.Play.Chess.{IsChess, KeepsKings, game_play-IsChess}
use c_chess_cli.Game.Play.Result.{white_engine, game_play-result}
use c_chess_cli.Game.{white_result}
use c_chess_cli.Bitboard.Square.{white, black}
use c_chess_cli.Position.Board.{Board}
use c_chess_cli.Game.Play.Ending.{game_loop-ends}
use c_chess_cli.Tests.Ending.{pawn_ending, ending_board, pawn_ending-IsSound, no_king}
use c_chess_cli.Tests.Dialogue.{whole, ten_ms, fish}
use c_chess_cli.Main.{opening_idx, white_idx, opening_loop, out_of_fuel}
use c_chess_cli.Main.Fair.{job_queue_init-repeat}
use c_chess_cli.Main.Opening.{opening_loop-rejected}
use c_chess_cli.Bitboard.Attacks.Leaper.{king_attacks}
use c_chess_cli.Bitboard.Attacks.Slider.{file_mask}
use c_chess_cli.Bitboard.Attacks.Slider.{rank_mask}
use c_chess_cli.Bitboard.Move.{move_build}
use c_chess_cli.Bitboard.Move.{move_from}
use c_chess_cli.Bitboard.Move.{move_to}
use c_chess_cli.Bitboard.Square.{opposite}
use c_chess_cli.Bitboard.Square.{push_inc}
use c_chess_cli.Bitboard.Square.{relative_rank}
use c_chess_cli.Bitboard.Word.{bb_not}
use c_chess_cli.Bitboard.Word.{bb_shift}
use c_chess_cli.Bitboard.Word.{bb_test}
use c_chess_cli.Bitboard.Word.{squares}
use c_chess_cli.Common.{str_eq}
use c_chess_cli.Gen.{double_pushes}
use c_chess_cli.Gen.{gen_castling_moves}
use c_chess_cli.Gen.{gen_pawn_moves}
use c_chess_cli.Gen.{gen_piece_moves}
use c_chess_cli.Gen.{left_captures}
use c_chess_cli.Gen.{non_promoting_pawns}
use c_chess_cli.Gen.{pin_allows}
use c_chess_cli.Gen.{push_castling}
use c_chess_cli.Gen.{push_pawns}
use c_chess_cli.Gen.{push_pieces}
use c_chess_cli.Gen.{push_promoting}
use c_chess_cli.Gen.{push_targets}
use c_chess_cli.Gen.{right_captures}
use c_chess_cli.Gen.{serialize_pawn_moves}
use c_chess_cli.Gen.{serialize_piece_moves}
use c_chess_cli.Gen.{single_pushes}
use c_chess_cli.Position.Notation.{is_square}
use c_chess_cli.Position.Notation.{lan_castling}
use c_chess_cli.Position.Notation.{lan_prom}
use c_chess_cli.Position.Notation.{pos_lan_to_move}
use c_chess_cli.Position.Play.{after_pawn}
use c_chess_cli.Position.Play.{capture_on}
use c_chess_cli.Position.Play.{end_turn}
use c_chess_cli.Position.Play.{finish}
use c_chess_cli.Position.Play.{move_any}
use c_chess_cli.Position.Play.{move_piece}
use c_chess_cli.Position.Play.{play}
use c_chess_cli.Position.Play.{pos_move}
use c_chess_cli.Position.Play.{set_ep_square}
use c_chess_cli.Position.State.{clear_square}
use c_chess_cli.Position.State.{pos_king_square}
use c_chess_cli.Position.State.{pos_piece_on}
use c_chess_cli.Position.State.{pos_pieces_cp}
use c_chess_cli.Position.State.{pos_pieces_cpp}
use c_chess_cli.Str.{str_prefix}
use c_chess_cli.Workers.{deadline_clear}
use c_chess_cli.Workers.{deadline_set}

-- Games 2 and 3 of two engines that play four games.
abbrev job_or : Option Job → Job
job_or none = record { ei = (0, 0); pair = 0; round = 0; game = 0; reverse = false }
job_or (some j) = j

abbrev job_number : ℕ → Option Job
job_number k = nth (job_queue_init 2 1 4 false).jobs k

two_jobs :
    (job_number 2 ≡ some (job_or (job_number 2))) × (job_number 3 ≡ some (job_or (job_number 3)))
unfolding job_queue_init
two_jobs = (refl, refl)

job_queue_init-repeat_example :
    ((job_or (job_number 2)).ei ≡ (job_or (job_number 3)).ei)
    × (opening_idx true (2 * 1) ≡ opening_idx true (2 * 1 + 1))
    × (white_idx 0 (job_or (job_number 3)).reverse
        ≡ 1 - white_idx 0 (job_or (job_number 2)).reverse)
job_queue_init-repeat_example =
    job_queue_init-repeat 2 1 2 1 0 false (job_or (job_number 2)) (job_or (job_number 3))
      (omega arith) two_jobs.0 two_jobs.1

-- A line that is no position.
abbrev bad_line : ℕ → Bytes
bad_line idx = codes "startpos"

bad_line_rejected : pos_set (bad_line (opening_idx true 4)) false ≡ rejected
unfolding pos_set set_placement place_chars str_tok span skip mem place_char place_piece label_index
bad_line_rejected = refl

opening_loop-rejected_example : opening_loop 1000 bad_line true 4 (game_init 0 4) ≡ out_of_fuel
opening_loop-rejected_example =
    opening_loop-rejected bad_line true 4 (game_init 0 4) 1000 bad_line_rejected

-- The first engine moves the pawn, and the second one answers with a move that is none.
abbrev talk : Table
unfolding worker_init
talk = record {
  worker = worker_init 0 [];
  ticks = 0;
  sent = λ _. [];
  lines = λ i.
      if i == 0
      then codes "readyok" ∷ codes "readyok" ∷ codes "bestmove e2e4" ∷ []
      else codes "readyok" ∷ codes "readyok" ∷ codes "bestmove a1a3" ∷ [];
}

abbrev no_move : Position → Bytes → ℕ
no_move p lan = 0

abbrev new_game : Game
new_game = record {
  names = λ _. [];
  vec_pos = λ _. pawn_ending;
  vec_info = [];
  vec_samples = [];
  round = 0;
  game = 0;
  ply = 0;
  state = 0;
}

abbrev the_match : Option (ℕ × Playing)
the_match =
    game_play whole ten_ms no_move (λ _. fish) (options_init whole) (λ _. engine_options_init)
      new_game talk false

-- The result with the variables at the end, if there are any.
abbrev match_value : Option (ℕ × Playing) → ℕ × Playing
match_value none = (
  0,
  start whole ten_ms no_move (λ _. fish) (options_init whole) (λ _. engine_options_init) new_game
      talk false,
)
match_value (some r) = r

-- The game ends with the illegal move, after one move that was played.
match_run :
    (the_match ≡ some ((match_value the_match).0, (match_value the_match).1))
    × ((match_value the_match).1.game.state ≡ state_illegal_move)
    × ((match_value the_match).1.game.ply ≡ 1)
    × ((match_value the_match).0 ≡ 2)
unfolding engine_options_init game_play mem options_init set_square skip span str_tok talk
    after_pawn bb_not bb_shift bb_test capture_on clear_square deadline_clear deadline_set
    double_pushes end_turn file_mask finish gen_castling_moves gen_pawn_moves gen_piece_moves
    is_square king_attacks lan_castling lan_prom left_captures move_any move_build move_from
    move_piece move_to non_promoting_pawns opposite pin_allows play pos_king_square pos_lan_to_move
    pos_move pos_piece_on pos_pieces_cp pos_pieces_cpp push_castling push_inc push_pawns push_pieces
    push_promoting push_targets rank_mask relative_rank right_captures serialize_pawn_moves
    serialize_piece_moves set_ep_square single_pushes squares str_eq str_prefix
match_run = (refl, refl, refl, refl)

-- The variables of the loop, before the engines are set up.
abbrev first_turn : Playing
first_turn =
    start whole ten_ms no_move (λ _. fish) (options_init whole) (λ _. engine_options_init) new_game
      talk true

first_turn_bounds :
    (first_turn.ei < 2)
    × (length (first_turn.table.lines 0) + length (first_turn.table.lines 1) < 7)
unfolding start talk
first_turn_bounds = (omega arith, omega arith)

game_loop-ends_example :
    game_loop whole ten_ms no_move
      (λ _. fish)
      (options_init whole)
      (λ _. engine_options_init)
      7
      first_turn
    ≢ no_turn
game_loop-ends_example =
    game_loop-ends whole ten_ms no_move (λ _. fish) (options_init whole) (λ _. engine_options_init)
      7 first_turn first_turn_bounds.0 first_turn_bounds.1

-- The move goes onto an empty square.
match_empty :
    pos_piece_on
      ((match_value the_match).1.game.vec_pos 0)
      (move_to ((match_value the_match).1.game.vec_pos (suc zero)).last_move)
    ≡ 6
unfolding engine_options_init game_play mem options_init set_square skip span str_tok talk
    after_pawn bb_not bb_shift bb_test capture_on clear_square deadline_clear deadline_set
    double_pushes end_turn file_mask finish gen_castling_moves gen_pawn_moves gen_piece_moves
    is_square king_attacks lan_castling lan_prom left_captures move_any move_build move_from
    move_piece move_to non_promoting_pawns opposite pin_allows play pos_king_square pos_lan_to_move
    pos_move pos_piece_on pos_pieces_cp pos_pieces_cpp push_castling push_inc push_pawns push_pieces
    push_promoting push_targets rank_mask relative_rank right_captures serialize_pawn_moves
    serialize_piece_moves set_ep_square single_pushes squares str_eq str_prefix
match_empty = refl

match_kings : KeepsKings (match_value the_match).1.game.vec_pos (match_value the_match).1.game.ply
match_kings zero h = no_king _ match_empty
match_kings (suc k) h = absurd (omega (arith, match_run.2))

game_play-IsChess_example :
    ((match_value the_match).1.game.vec_pos 0 ≡ new_game.vec_pos 0)
    × ((b : Board) × IsChess
          (match_value the_match).1.game.vec_pos
          (match_value the_match).1.game.ply
          b)
game_play-IsChess_example =
    game_play-IsChess whole ten_ms no_move (λ _. fish) (options_init whole)
      (λ _. engine_options_init) new_game talk false (match_value the_match).0
      (match_value the_match).1 ending_board match_run.0 pawn_ending-IsSound match_kings

game_play-result_example :
    let (result, p) = match_value the_match in
    (p.game.names white ≡ fish.name)
    × (p.game.names black ≡ fish.name)
    × (result ≡ (
        if white_engine pawn_ending false == 0
        then white_result p.game.state (p.game.vec_pos p.game.ply).turn
        else 2 - white_result p.game.state (p.game.vec_pos p.game.ply).turn))
game_play-result_example =
    game_play-result whole ten_ms no_move (λ _. fish) (options_init whole)
      (λ _. engine_options_init) new_game talk false (match_value the_match).0
      (match_value the_match).1 ending_board match_run.0 pawn_ending-IsSound match_kings
