-- ===== src/Game/Clock.antt =====
-- The clocks of src/game.c: the time that an engine gets for a move, and the command `go`.
pub mod Refill
use c_chess_cli.Common.{
  ℕ, ◌+◌, ◌/◌, ◌%◌, bit_xor, Bool, true, not, ◌&&◌, ◌||◌, List, [], ◌∷◌, ◌++◌, codes, ◌==◌, ltb,
  if◌then◌else◌, update,
}
use c_chess_cli.Common.Int.{ℤ, pos, negsuc, ◌+ℤ◌, ◌-ℤ◌, pos_part, neg_part}
use c_chess_cli.Bitboard.Square.{black}
use c_chess_cli.Str.{Bytes}
use c_chess_cli.Workers.{fmt_int}
use c_chess_cli.Options.{EngineOptions}

abbrev pub is_set : ℤ → Bool
is_set (pos n) = not (n == 0)
is_set (negsuc n) = true

-- `(ply / 2) % movestogo`, which has no sign, for a number of moves other than 0.
unfoldable pub moves_done : ℕ → ℤ → ℕ
moves_done ply movestogo = (ply / 2) % (pos_part movestogo + neg_part movestogo)

-- `INT64_MAX / 2`
abbrev pub no_limit : ℤ
no_limit = pos 4611686018427387903

-- The time that the engine with the move has left when it is asked.
unfoldable pub prepare_time : EngineOptions → ℕ → ℤ → ℤ
unfolding moves_done
prepare_time eo ply time_left =
    if is_set eo.movetime
    then eo.movetime
    else if is_set eo.time || is_set eo.increment
    then (let left = time_left +ℤ eo.increment in
        if is_set eo.movestogo && (ltb 1 ply && (moves_done ply eo.movestogo == 0))
        then left +ℤ eo.time
        else left)
    else no_limit

abbrev field : List ℕ → ℤ → Bytes
field name value = if is_set value then name ++ fmt_int value else []

-- The limits and the clocks of the command. `turn` is the side to move, and engine `ei` has the
-- move.
unfoldable pub go_limits : (ℕ → EngineOptions) → ℕ → ℕ → (ℕ → ℤ) → Bytes
unfolding fmt_int
go_limits eo ei turn time_left =
    let mine = eo ei in
    let first = bit_xor ei turn in
    let second = bit_xor (bit_xor ei turn) black in
    codes "go"
    ++ field (codes " nodes ") mine.nodes
    ++ field (codes " depth ") mine.depth
    ++ field (codes " movetime ") mine.movetime
    ++ (if is_set mine.time || is_set mine.increment
        then codes " wtime "
          ++ fmt_int (time_left first)
          ++ codes " winc "
          ++ fmt_int (eo first).increment
          ++ codes " btime "
          ++ fmt_int (time_left second)
          ++ codes " binc "
          ++ fmt_int (eo second).increment
        else [])

unfoldable pub uci_go_command : (ℕ → EngineOptions) → ℕ → ℕ → ℕ → (ℕ → ℤ) → Bytes
unfolding go_limits moves_done fmt_int
uci_go_command eo ei ply turn time_left =
    let mine = eo ei in
    go_limits eo ei turn time_left
    ++ (if is_set mine.movestogo
        then codes " movestogo " ++ fmt_int (mine.movestogo -ℤ pos (moves_done ply mine.movestogo))
        else [])
