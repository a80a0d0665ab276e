-- ===== src/Game.antt =====
-- src/game.h and src/game.c: the rules that end a game, and its result. The vector of positions is
-- a function of the ply.
pub mod Repetition
pub mod Outcome
pub mod Clock
pub mod Judge
pub mod Sampling
pub mod Play
pub mod Export
use c_chess_cli.Common.{
  ℕ, zero, suc, ◌+◌, ◌-◌, ◌*◌, ◌/◌, ◌≤◌, Bool, true, false, not, ◌&&◌, ◌||◌, List, [], ◌∷◌, ◌++◌,
  ◌==◌, ltb, leb, if◌then◌else◌, update, length,
}
use c_chess_cli.Common.Int.{ℤ, pos, negsuc, neg, ltℤb}
use c_chess_cli.Bitboard.Square.{white}
use c_chess_cli.Position.State.{Position, pos_insufficient_material}
use c_chess_cli.Position.Notation.{Bytes, pos_move_to_lan}
use c_chess_cli.Position.Print.{pos_get}
use c_chess_cli.Gen.{gen_all_moves}

-- The states of the enumeration, in its order.
abbrev pub state_none : ℕ
state_none = 0

abbrev pub state_checkmate : ℕ
state_checkmate = 1

abbrev pub state_time_loss : ℕ
state_time_loss = 2

abbrev pub state_illegal_move : ℕ
state_illegal_move = 3

abbrev pub state_resign : ℕ
state_resign = 4

abbrev pub state_separator : ℕ
state_separator = 5

abbrev pub state_stalemate : ℕ
state_stalemate = 6

abbrev pub state_threefold : ℕ
state_threefold = 7

abbrev pub state_fifty_moves : ℕ
state_fifty_moves = 8

abbrev pub state_insufficient_material : ℕ
state_insufficient_material = 9

abbrev pub state_draw_adjudication : ℕ
state_draw_adjudication = 10

abbrev pub result_loss : ℕ
result_loss = 0

abbrev pub result_draw : ℕ
result_draw = 1

abbrev pub result_win : ℕ
result_win = 2

-- The loop over the positions at the distances `i`, `i + 2`, ... with `repetitions` found before.
-- It ends when `i` exceeds the rule50 counter, so that many turns are enough.
unfoldable pub scan : ℕ → (ℕ → Position) → ℕ → ℕ → ℕ → Bool
scan zero positions ply i repetitions = false
scan (suc fuel) positions ply i repetitions =
    let here = positions ply in
    let same = (positions (ply - i)).key == here.key in
    let found = if same then repetitions + 1 else repetitions in
    let rest = scan fuel positions ply (i + 2) found in
    if leb i here.rule50 && leb i ply then (same && leb 3 found) || rest else false

unfoldable pub game_apply_chess_rules : (ℕ → Position) → ℕ → ℕ
unfolding scan gen_all_moves pos_insufficient_material
game_apply_chess_rules positions ply =
    let here = positions ply in
    if length (gen_all_moves here) == 0
    then if here.checkers == 0 then state_stalemate else state_checkmate
    else if leb 100 here.rule50
    then state_fifty_moves
    else if pos_insufficient_material here
    then state_insufficient_material
    else if scan (here.rule50 + 1) positions ply 4 1
    then state_threefold
    else state_none

unfoldable pub illegal_move : ℕ → List ℕ → Bool
illegal_move move [] = true
illegal_move move (m ∷ moves) = if m == move then false else illegal_move move moves

-- The moves from `ply0 + 1` on, `n` of them.
unfoldable pub moves_text : (ℕ → Position) → ℕ → ℕ → Bytes
moves_text positions ply zero = []
moves_text positions ply (suc n) =
    32 ∷ pos_move_to_lan (positions ply) (positions (ply + 1)).last_move
    ++ moves_text positions (ply + 1) n

abbrev position_fen : Bytes
position_fen = 112 ∷ 111 ∷ 115 ∷ 105 ∷ 116 ∷ 105 ∷ 111 ∷ 110 ∷ 32 ∷ 102 ∷ 101 ∷ 110 ∷ 32 ∷ []

abbrev moves_word : Bytes
moves_word = 32 ∷ 109 ∷ 111 ∷ 118 ∷ 101 ∷ 115 ∷ []

unfoldable pub uci_position_command : (ℕ → Position) → ℕ → Bytes
unfolding moves_text pos_get
uci_position_command positions ply =
    let ply0 = ply - (positions ply).rule50 in
    (position_fen ++ pos_get (positions ply0))
    ++ (if ltb ply0 ply then moves_word ++ moves_text positions ply0 (ply - ply0) else [])

-- The result from white's point of view, and that of a sample.
unfoldable pub white_result : ℕ → ℕ → ℕ
white_result state turn =
    if ltb state state_separator
    then if turn == white then result_loss else result_win
    else result_draw

unfoldable pub sample_result : ℕ → ℕ → ℕ
sample_result wpov turn = if turn == white then wpov else 2 - wpov

-- What `game_play` returns: the result from the first engine's point of view.
unfoldable pub engine_result : ℕ → ℕ → ℕ
engine_result state ei =
    if ltb state state_separator then if ei == 0 then result_loss else result_win else result_draw

abbrev pub white_won : Bytes
white_won = 49 ∷ 45 ∷ 48 ∷ []

abbrev pub black_won : Bytes
black_won = 48 ∷ 45 ∷ 49 ∷ []

abbrev pub drawn_game : Bytes
drawn_game = 49 ∷ 47 ∷ 50 ∷ 45 ∷ 49 ∷ 47 ∷ 50 ∷ []

-- The result text of `game_decode_state`.
unfoldable pub decode_result : ℕ → ℕ → Bytes
decode_result state turn =
    if state == state_none
    then 42 ∷ []
    else if (state == state_checkmate || state == state_illegal_move)
        || (state == state_resign || state == state_time_loss)
    then if turn == white then black_won else white_won
    else drawn_game
