-- ===== src/Gen.antt =====
-- src/gen.c: the legal moves of a position, in the order in which the code pushes them.
pub mod Serialize
pub mod Plays
pub mod Sound
use c_chess_cli.Common.{
  ℕ, bit_and, bit_or, Bool, true, false, not, ◌&&◌, ◌||◌, List, [], ◌∷◌, ◌++◌, ◌==◌, leb, ltb,
  if◌then◌else◌,
}
use c_chess_cli.Common.Int.{ℤ, pos, ◌+ℤ◌, double, neg, offset}
use c_chess_cli.Bitboard.Square.{
  knight, bishop, rook, queen, pawn, nb_piece, nb_square, opposite, push_inc, square_from, rank_of,
  relative_rank,
}
use c_chess_cli.Bitboard.Word.{
  bb_not, bb_test, bb_clear, bb_set, bb_several, bb_count, bb_lsb, bb_shift, squares,
}
use c_chess_cli.Bitboard.Move.{move_build}
use c_chess_cli.Bitboard.Attacks.Slider.{
  bb_bishop_attacks, bb_rook_attacks, rank_mask, file_mask, minus1,
}
use c_chess_cli.Bitboard.Attacks.Leaper.{knight_attacks, king_attacks, pawn_attacks, segment, ray}
use c_chess_cli.Position.State.{
  Position, pos_pieces, pos_pieces_cp, pos_pieces_cpp, pos_king_square, pos_piece_on,
}

abbrev pub Moves : Type 0
Moves = List ℕ

-- `while (targets) vec_push(moves, ...)`, over the squares that the loop pops.
unfoldable pub push_targets : ℕ → ℕ → List ℕ → Moves → Moves
push_targets from prom [] moves = moves
push_targets from prom (to ∷ tos) moves =
    push_targets from prom tos (moves ++ move_build from to prom ∷ [])

unfoldable pub serialize_piece_moves : ℕ → ℕ → ℕ → ℕ → Moves → Moves
serialize_piece_moves from pins king_sq targets moves =
    push_targets from nb_piece
      (squares (if bb_test pins from then bit_and targets (ray king_sq from) else targets)) moves

-- A pinned piece may move only along the ray of its pin.
unfoldable pub pin_allows : ℕ → ℕ → ℕ → ℕ → Bool
pin_allows pins king_sq from to = not (bb_test pins from) || bb_test (ray king_sq from) to

unfoldable pub push_pawns : List ℕ → ℕ → ℕ → ℤ → Moves → Moves
push_pawns [] pins king_sq shift moves = moves
push_pawns (from ∷ froms) pins king_sq shift moves = push_pawns froms pins king_sq shift (
    if pin_allows pins king_sq from (offset from shift)
    then moves ++ move_build from (offset from shift) nb_piece ∷ []
    else moves)

unfoldable pub serialize_pawn_moves : ℕ → ℕ → ℕ → ℤ → Moves → Moves
serialize_pawn_moves pawns pins king_sq shift moves =
    push_pawns (squares pawns) pins king_sq shift moves

-- The pawns that make the four kinds of normal moves.
unfoldable pub non_promoting_pawns : Position → ℕ
non_promoting_pawns p =
    bit_and (pos_pieces_cp p p.turn pawn) (bb_not (rank_mask (relative_rank p.turn 6)))

unfoldable pub left_captures : Position → ℕ → ℕ
left_captures p capturable =
    bit_and (bit_and (non_promoting_pawns p) (bb_not (file_mask 0)))
      (bb_shift capturable (neg (push_inc p.turn +ℤ minus1)))

unfoldable pub right_captures : Position → ℕ → ℕ
right_captures p capturable =
    bit_and (bit_and (non_promoting_pawns p) (bb_not (file_mask 7)))
      (bb_shift capturable (neg (push_inc p.turn +ℤ pos 1)))

unfoldable pub single_pushes : Position → ℕ → ℕ
single_pushes p filter =
    bit_and (non_promoting_pawns p)
      (bb_shift (bit_and (bb_not (pos_pieces p)) filter) (neg (push_inc p.turn)))

unfoldable pub double_pushes : Position → ℕ → ℕ
double_pushes p filter =
    bit_and
      (bit_and (bit_and (non_promoting_pawns p) (rank_mask (relative_rank p.turn 1)))
        (bb_shift (bb_not (pos_pieces p)) (neg (push_inc p.turn))))
      (bb_shift (bit_and (bb_not (pos_pieces p)) filter) (neg (double (push_inc p.turn))))

-- Does an en passant capture leave the king safe from sliders?
unfoldable pub en_passant_is_safe : Position → ℕ → Bool
en_passant_is_safe p from =
    let us = p.turn in
    let them = opposite us in
    let king_sq = pos_king_square p us in
    let occ =
      bb_clear (bb_set (bb_clear (pos_pieces p) from) p.ep_square)
        (offset p.ep_square (push_inc them)) in
    (bit_and (bb_rook_attacks king_sq occ) (pos_pieces_cpp p them rook queen) == 0)
    && (bit_and (bb_bishop_attacks king_sq occ) (pos_pieces_cpp p them bishop queen) == 0)

unfoldable pub push_en_passant : Position → List ℕ → Moves → Moves
push_en_passant p [] moves = moves
push_en_passant p (from ∷ froms) moves = push_en_passant p froms (
    if en_passant_is_safe p from then moves ++ move_build from p.ep_square nb_piece ∷ [] else moves)

unfoldable pub push_promotions : Position → ℕ → List ℕ → Moves → Moves
push_promotions p from [] moves = moves
push_promotions p from (to ∷ tos) moves = push_promotions p from tos (
    if pin_allows p.pins (pos_king_square p p.turn) from to
    then moves
      ++ move_build from to queen
        ∷ move_build from to rook
        ∷ move_build from to bishop
        ∷ move_build from to knight
        ∷ []
    else moves)

unfoldable pub promotion_targets : Position → ℕ → ℕ → ℕ
promotion_targets p filter from =
    let captures =
      bit_and (pawn_attacks p.turn from) (bit_and (p.by_color (opposite p.turn)) filter) in
    let to = offset from (push_inc p.turn) in
    if bb_test (bit_and filter (bb_not (pos_pieces p))) to then bb_set captures to else captures

unfoldable pub push_promoting : Position → ℕ → List ℕ → Moves → Moves
push_promoting p filter [] moves = moves
push_promoting p filter (from ∷ froms) moves =
    push_promoting p filter froms
      (push_promotions p from (squares (promotion_targets p filter from)) moves)

unfoldable pub gen_pawn_moves : Position → Moves → ℕ → Moves
gen_pawn_moves p moves filter =
    let us = p.turn in
    let them = opposite us in
    let king_sq = pos_king_square p us in
    let push = push_inc us in
    let capturable = bit_and (p.by_color them) filter in
    let m1 =
      serialize_pawn_moves (left_captures p capturable) p.pins king_sq (push +ℤ minus1) moves in
    let m2 = serialize_pawn_moves (right_captures p capturable) p.pins king_sq (push +ℤ pos 1) m1 in
    let m3 = serialize_pawn_moves (single_pushes p filter) p.pins king_sq push m2 in
    let m4 = serialize_pawn_moves (double_pushes p filter) p.pins king_sq (double push) m3 in
    let m5 =
      if p.ep_square == nb_square
      then m4
      else push_en_passant p
          (squares (bit_and (pawn_attacks them p.ep_square) (non_promoting_pawns p))) m4 in
    push_promoting p filter
      (squares (bit_and (pos_pieces_cp p us pawn) (rank_mask (relative_rank us 6)))) m5

-- The loop over the pieces of one kind, with their attacks.
unfoldable pub push_pieces : Position → (ℕ → ℕ) → ℕ → List ℕ → Moves → Moves
push_pieces p attacks filter [] moves = moves
push_pieces p attacks filter (from ∷ froms) moves = push_pieces p attacks filter froms (
    serialize_piece_moves from p.pins (pos_king_square p p.turn) (bit_and (attacks from) filter)
      moves)

unfoldable pub gen_piece_moves : Position → Moves → ℕ → Bool → Moves
gen_piece_moves p moves filter king_moves =
    let us = p.turn in
    let king_sq = pos_king_square p us in
    let m1 =
      if king_moves
      then serialize_piece_moves king_sq p.pins king_sq
          (bit_and (bit_and (king_attacks king_sq) filter) (bb_not p.attacked)) moves
      else moves in
    let m2 = push_pieces p knight_attacks filter (squares (pos_pieces_cp p us knight)) m1 in
    let m3 =
      push_pieces p (λ s. bb_rook_attacks s (pos_pieces p)) filter
        (squares (pos_pieces_cpp p us rook queen)) m2 in
    push_pieces p (λ s. bb_bishop_attacks s (pos_pieces p)) filter
      (squares (pos_pieces_cpp p us bishop queen)) m3

unfoldable pub can_castle : Position → ℕ → ℕ → Bool
can_castle p king_sq rook_sq =
    let kto = square_from (rank_of rook_sq) (if ltb king_sq rook_sq then 6 else 2) in
    let rto = square_from (rank_of rook_sq) (if ltb king_sq rook_sq then 5 else 3) in
    (bb_count (bit_and (bit_or (segment king_sq kto) (segment rook_sq rto)) (pos_pieces p)) == 2)
    && ((bit_and p.attacked (segment king_sq kto) == 0) && not (bb_test p.pins rook_sq))

unfoldable pub push_castling : Position → ℕ → List ℕ → Moves → Moves
push_castling p king_sq [] moves = moves
push_castling p king_sq (rook_sq ∷ rooks) moves = push_castling p king_sq rooks (
    if can_castle p king_sq rook_sq
    then moves ++ move_build king_sq rook_sq nb_piece ∷ []
    else moves)

unfoldable pub gen_castling_moves : Position → Moves → Moves
gen_castling_moves p moves =
    push_castling p (pos_king_square p p.turn)
      (squares (bit_and p.castle_rooks (p.by_color p.turn))) moves

-- The squares on which a piece other than the king can answer a single check.
unfoldable pub escape_targets : Position → ℕ
escape_targets p =
    let checker = bb_lsb p.checkers in
    let piece = pos_piece_on p checker in
    if leb bishop piece && leb piece queen
    then segment (pos_king_square p p.turn) checker
    else p.checkers

unfoldable pub gen_check_escapes : Position → Moves → Moves
gen_check_escapes p moves =
    let king_sq = pos_king_square p p.turn in
    let ours = p.by_color p.turn in
    let m1 =
      serialize_piece_moves king_sq p.pins king_sq
        (bit_and (bit_and (king_attacks king_sq) (bb_not ours)) (bb_not p.attacked)) moves in
    let targets = escape_targets p in
    let m2 = gen_piece_moves p m1 (bit_and targets (bb_not ours)) false in
    let targets' =
      if pos_piece_on p (bb_lsb p.checkers) == pawn && ltb p.ep_square nb_square
      then bb_set targets p.ep_square
      else targets in
    if bb_several p.checkers then m1 else gen_pawn_moves p m2 targets'

-- `vec_clear` empties the vector that the caller passes.
unfoldable pub gen_all_moves : Position → Moves
gen_all_moves p =
    let others = bb_not (p.by_color p.turn) in
    let m1 = gen_pawn_moves p [] others in
    let m2 = gen_piece_moves p m1 others true in
    if p.checkers == 0 then gen_castling_moves p m2 else gen_check_escapes p []
