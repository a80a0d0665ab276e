-- ===== src/Game/Export.antt =====
-- The texts of a game that src/game.c writes: the reason of its end, the PGN text, and the samples.
use c_chess_cli.Common.{
  ℕ, zero, suc, ◌+◌, ◌-◌, ◌/◌, ◌%◌, ◌^◌, Bool, ◌&&◌, ◌||◌, List, [], ◌∷◌, ◌++◌, codes, get_or, take,
  ◌*◌, ◌==◌, if◌then◌else◌, tab,
}
use c_chess_cli.Common.Int.{ℤ, pos, negsuc, ◌-ℤ◌}
use c_chess_cli.Bitboard.Square.{white, black}
use c_chess_cli.Str.{Bytes, do_fmt_u}
use c_chess_cli.Workers.{fmt_int}
use c_chess_cli.Engine.Info.{Info}
use c_chess_cli.Position.Notation.{pos_move_to_san}
use c_chess_cli.Position.Print.{pos_get, PackedPos, pos_pack}
use c_chess_cli.Game.{
  state_none, state_checkmate, state_stalemate, state_threefold, state_fifty_moves,
  state_insufficient_material, state_illegal_move, state_draw_adjudication, state_resign,
  decode_result,
}
use c_chess_cli.Game.Sampling.{Sample, is_mating, is_mated}
use c_chess_cli.Game.Play.{Game, no_info}

-- The text of `reason` of `game_decode_state`, for a state of the enumeration.
unfoldable pub decode_reason : ℕ → Bytes
decode_reason state =
    if state == state_none
    then codes "unterminated"
    else if state == state_checkmate
    then codes "checkmate"
    else if state == state_stalemate
    then codes "stalemate"
    else if state == state_threefold
    then codes "3-fold repetition"
    else if state == state_fifty_moves
    then codes "50 moves rule"
    else if state == state_insufficient_material
    then codes "insufficient material"
    else if state == state_illegal_move
    then codes "rules infraction"
    else if state == state_draw_adjudication
    then codes "adjudication"
    else if state == state_resign
    then codes "adjudication"
    else codes "time forfeit"

-- `M3`, `-M3` or the score.
unfoldable pub score_text : ℤ → Bytes
unfolding is_mating is_mated fmt_int
score_text score =
    if is_mating score
    then codes "M" ++ fmt_int (pos 32767 -ℤ score)
    else if is_mated score
    then codes "-M" ++ fmt_int (score -ℤ negsuc 32767)
    else fmt_int score

unfoldable pub pgn_comment : ℕ → Info → Bytes
unfolding score_text
pgn_comment verbosity info =
    let text = codes " {" ++ score_text info.score ++ codes "/" ++ fmt_int info.depth in
    if verbosity == 2
    then text ++ codes "}"
    else if verbosity == 3
    then text ++ codes " " ++ fmt_int info.time ++ codes "ms}"
    else []

abbrev plies_per_line : ℕ → ℕ
plies_per_line verbosity = if verbosity == 2 then 6 else if verbosity == 3 then 5 else 16

-- The body of the loop over the moves, for the move that leads to the position at `ply`.
unfoldable pub pgn_move : Game → ℕ → ℕ → Bytes
unfolding pgn_comment pos_move_to_san do_fmt_u
pgn_move g verbosity ply =
    let before = g.vec_pos (ply - 1) in
    let here = g.vec_pos ply in
    (if (before.turn == white) || (ply == 1)
      then do_fmt_u before.full_move ++ (if before.turn == white then codes ". " else codes "... ")
      else [])
    ++ pos_move_to_san before here.last_move
    ++ (if here.checkers == 0
        then []
        else if (ply == g.ply) && (g.state == state_checkmate)
        then codes "#"
        else codes "+")
    ++ pgn_comment verbosity (get_or g.vec_info (ply - 1) no_info)
    ++ (if ply % plies_per_line verbosity == 0 then codes "\n" else codes " ")

-- `n` moves from `ply` on.
unfoldable pub pgn_moves : Game → ℕ → ℕ → ℕ → Bytes
unfolding pgn_move
pgn_moves g verbosity ply zero = []
pgn_moves g verbosity ply (suc n) = pgn_move g verbosity ply ++ pgn_moves g verbosity (ply + 1) n

abbrev tag : Bytes → Bytes → Bytes
tag name value = codes "[" ++ name ++ codes " \"" ++ value ++ codes "\"]\n"

-- The verbosity is not negative.
unfoldable pub game_export_pgn : Game → ℕ → Bytes
unfolding pgn_moves decode_reason decode_result pos_get
game_export_pgn g verbosity =
    let first = g.vec_pos 0 in
    let result = decode_result g.state (g.vec_pos g.ply).turn in
    tag (codes "Round") (do_fmt_u (g.round + 1) ++ codes "." ++ do_fmt_u (g.game + 1))
    ++ tag (codes "White") (g.names white)
    ++ tag (codes "Black") (g.names black)
    ++ tag (codes "Result") result
    ++ tag (codes "Termination") (decode_reason g.state)
    ++ tag (codes "FEN") (pos_get first)
    ++ (if first.chess960 then codes "[Variant \"Chess960\"]\n" else [])
    ++ tag (codes "PlyCount") (do_fmt_u g.ply)
    ++ (if verbosity == 0 then [] else codes "\n" ++ pgn_moves g verbosity 1 g.ply)
    ++ result
    ++ codes "\n\n"

unfoldable pub game_export_samples_csv : List Sample → Bytes
unfolding pos_get fmt_int do_fmt_u
game_export_samples_csv [] = []
game_export_samples_csv (s ∷ samples) =
    pos_get s.position
    ++ codes ","
    ++ fmt_int s.score
    ++ codes ","
    ++ do_fmt_u s.result
    ++ codes "\n"
    ++ game_export_samples_csv samples

-- The bytes of a number, the least one first, as the machine stores it.
unfoldable pub bytes_of : ℕ → ℕ → Bytes
bytes_of zero n = []
bytes_of (suc k) n = n % 256 ∷ bytes_of k (n / 256)

-- An `int` of 32 bits.
unfoldable pub int_bytes : ℤ → Bytes
unfolding bytes_of
int_bytes (pos n) = bytes_of 4 (n % 2 ^ 32)
int_bytes (negsuc n) = bytes_of 4 (2 ^ 32 - 1 - n % 2 ^ 32)

-- A `PackedPos`, as the machine stores it, and the first bytes of it that are written.
unfoldable pub packed_bytes : PackedPos × ℕ → Bytes
unfolding bytes_of
packed_bytes (packed, size) =
    take size
      (bytes_of 8 packed.occ ++ (packed.turn + 2 * packed.rule50) ∷ tab packed.packed_pieces 16)

unfoldable pub game_export_samples_bin : List Sample → Bytes
unfolding packed_bytes pos_pack int_bytes
game_export_samples_bin [] = []
game_export_samples_bin (s ∷ samples) =
    packed_bytes (pos_pack s.position)
    ++ int_bytes s.score
    ++ int_bytes (pos s.result)
    ++ game_export_samples_bin samples

unfoldable pub game_export_samples : List Sample → Bool → Bytes
unfolding game_export_samples_bin game_export_samples_csv
game_export_samples samples bin =
    if bin then game_export_samples_bin samples else game_export_samples_csv samples
