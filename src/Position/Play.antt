-- ===== src/Position/Play.antt =====
-- `finish` and `pos_move` of src/position.c. The parts of `pos_move` follow its branches.
pub mod Effect
pub mod Refines
pub mod Rooks
pub mod Key
pub mod Gap
pub mod Rights
use c_chess_cli.Common.{
  ℕ, ◌+◌, ◌*◌, ◌%◌, ◌^◌, bit_and, bit_or, bit_xor, Bool, not, ◌&&◌, ◌||◌, List, [], ◌∷◌, ◌==◌, leb,
  ltb, if◌then◌else◌,
}
use c_chess_cli.Common.Int.{ℤ, pos, negsuc, ◌+ℤ◌, double, neg, offset, is_offset}
use c_chess_cli.Bitboard.Square.{
  white, black, knight, bishop, rook, queen, king, pawn, nb_piece, nb_square, opposite, push_inc,
  square_from, rank_of,
}
use c_chess_cli.Bitboard.Word.{bb_not, bb_test, bb_clear, bb_several, bb_shift, squares}
use c_chess_cli.Bitboard.Move.{move_from, move_to, move_prom}
use c_chess_cli.Bitboard.Attacks.Slider.{bb_bishop_attacks, bb_rook_attacks, rank_mask, file_mask}
use c_chess_cli.Bitboard.Attacks.Leaper.{knight_attacks, king_attacks, pawn_attacks, segment}
use c_chess_cli.Position.Zobrist.{zobrist_castling, zobrist_en_passant, zobrist_turn}
use c_chess_cli.Position.State.{
  Position, clear_square, set_square, pos_pieces, pos_pieces_cp, pos_pieces_cpp, pos_king_square,
  pos_color_on, pos_piece_on,
}

-- The loop over the pinners.
unfoldable pub pins_of : Position → ℕ → ℕ → List ℕ → ℕ → ℕ
unfolding segment pos_pieces bb_clear bb_several
pins_of p us king_sq [] pins = pins
pins_of p us king_sq (pinner ∷ pinners) pins =
    let skewered =
      bb_clear (bb_clear (bit_and (segment king_sq pinner) (pos_pieces p)) king_sq) pinner in
    pins_of p us king_sq pinners (
      if not (bb_several skewered) && not (bit_and skewered (p.by_color us) == 0)
      then bit_or pins skewered
      else pins)

-- `while (movers) attacked |= attacks(bb_pop_lsb(&movers));`
unfoldable pub union_attacks : (ℕ → ℕ) → List ℕ → ℕ → ℕ
union_attacks attacks [] b = b
union_attacks attacks (s ∷ ss) b = union_attacks attacks ss (bit_or b (attacks s))

unfoldable pub pins_for : Position → ℕ
unfolding pins_of pos_pieces_cpp bb_rook_attacks bb_bishop_attacks pos_king_square squares opposite
pins_for p =
    let us = p.turn in
    let them = opposite us in
    let king_sq = pos_king_square p us in
    let pinners =
      bit_or (bit_and (pos_pieces_cpp p them rook queen) (bb_rook_attacks king_sq 0))
        (bit_and (pos_pieces_cpp p them bishop queen) (bb_bishop_attacks king_sq 0)) in
    pins_of p us king_sq (squares pinners) 0

unfoldable pub attacked_by : Position → ℕ → ℕ
unfolding union_attacks king_attacks knight_attacks pos_king_square pos_pieces pos_pieces_cp
    pos_pieces_cpp bb_shift bb_not file_mask push_inc bb_rook_attacks bb_bishop_attacks squares
    opposite
attacked_by p them =
    let pawns = pos_pieces_cp p them pawn in
    let occ = bit_xor (pos_pieces p) (pos_pieces_cp p (opposite them) king) in
    let kings = king_attacks (pos_king_square p them) in
    let knights = union_attacks knight_attacks (squares (pos_pieces_cp p them knight)) kings in
    let left =
      bit_or knights
        (bb_shift (bit_and pawns (bb_not (file_mask 0))) (push_inc them +ℤ negsuc 0)) in
    let right =
      bit_or left (bb_shift (bit_and pawns (bb_not (file_mask 7))) (push_inc them +ℤ pos 1)) in
    let rooks =
      union_attacks (λ s. bb_rook_attacks s occ) (squares (pos_pieces_cpp p them rook queen))
        right in
    union_attacks (λ s. bb_bishop_attacks s occ) (squares (pos_pieces_cpp p them bishop queen))
      rooks

unfoldable pub checkers_of : Position → ℕ → ℕ
unfolding pos_pieces pos_pieces_cp pos_pieces_cpp pawn_attacks knight_attacks bb_rook_attacks
    bb_bishop_attacks opposite
checkers_of p king_sq =
    let us = p.turn in
    let them = opposite us in
    bit_or
      (bit_or
        (bit_or (bit_and (pos_pieces_cp p them pawn) (pawn_attacks us king_sq))
          (bit_and (pos_pieces_cp p them knight) (knight_attacks king_sq)))
        (bit_and (pos_pieces_cpp p them rook queen) (bb_rook_attacks king_sq (pos_pieces p))))
      (bit_and (pos_pieces_cpp p them bishop queen) (bb_bishop_attacks king_sq (pos_pieces p)))

-- Computes the three sets that depend on the side to move.
unfoldable pub finish : Position → Position
unfolding pins_for attacked_by checkers_of pos_king_square bb_test opposite
finish p =
    let king_sq = pos_king_square p p.turn in
    let attacked = attacked_by p (opposite p.turn) in
    record p {
      pins = pins_for p;
      attacked = attacked;
      checkers = if bb_test attacked king_sq then checkers_of p king_sq else 0;
    }

-- A piece on the `to` square is taken off, be it an enemy or the rook of a castling move.
unfoldable pub capture_on : Position → ℕ → Position
capture_on p to =
    let capture = pos_piece_on p to in
    let q = clear_square (record p { rule50 = 0 }) (pos_color_on p to) capture to in
    if capture == nb_piece
    then p
    else record q { castle_rooks = bit_and q.castle_rooks (bb_not (2 ^ to)) }

unfoldable pub move_piece : Position → ℕ → ℕ → ℕ → ℕ → Position
move_piece p us piece from to = set_square (clear_square p us piece from) us piece to

-- A double push leaves an en passant square, if an enemy pawn can capture there.
unfoldable pub set_ep_square : Position → ℕ → ℕ → ℕ → Position
set_ep_square p us from to =
    let push = push_inc us in
    let capturers =
      bit_and (pawn_attacks us (offset from push)) (pos_pieces_cp p (opposite us) pawn) in
    if is_offset to from (double push) && not (capturers == 0)
    then record p { ep_square = offset from push % 2 ^ 8 }
    else p

-- What `pos_move` does after moving a pawn.
unfoldable pub after_pawn : Position → ℕ → ℕ → ℕ → ℕ → ℕ → Position
after_pawn p ep_before us from to prom =
    let p1 = set_ep_square (record p { rule50 = 0 }) us from to in
    if to == ep_before
    then clear_square p1 (opposite us) pawn (offset to (neg (push_inc us)))
    else if rank_of to == 7 || rank_of to == 0
    then set_square (clear_square p1 us pawn to) us prom to
    else p1

-- What `pos_move` does after moving a king: a move onto an own piece is a castling.
unfoldable pub after_king : Position → ℕ → ℕ → ℕ → ℕ → Position
after_king p ours us from to =
    let p1 : Position = record p {
      castle_rooks = bit_and p.castle_rooks (bb_not (rank_mask (us * 7)));
    } in
    let rank = rank_of from in
    let p2 =
      set_square
        (set_square (clear_square p1 us king to) us king
          (square_from rank (if ltb from to then 6 else 2)))
        us rook (square_from rank (if ltb from to then 5 else 3)) in
    if bb_test ours to then p2 else p1

unfoldable pub move_any : Position → Position → ℕ → ℕ → ℕ → ℕ → Position
move_any before p piece from to prom =
    let us = before.turn in
    let moved = move_piece p us piece from to in
    if leb piece queen
    then record moved { castle_rooks = bit_and moved.castle_rooks (bb_not (2 ^ from)) }
    else if piece == pawn
    then after_pawn moved before.ep_square us from to prom
    else if piece == king
    then after_king moved (before.by_color us) us from to
    else moved

-- The side to move, the key, the move number and the last move.
unfoldable pub end_turn : Position → Position → ℕ → Position
end_turn before p m =
    let them = opposite before.turn in
    record p {
      turn = them;
      key =
          bit_xor
            (bit_xor (bit_xor p.key zobrist_turn)
              (bit_xor (zobrist_en_passant before.ep_square) (zobrist_en_passant p.ep_square)))
            (zobrist_castling (bit_xor before.castle_rooks p.castle_rooks));
      full_move = (p.full_move + (if them == white then 1 else 0)) % 2 ^ 16;
      last_move = m;
    }

-- Everything that `pos_move` does before it calls `finish`.
unfoldable pub play : Position → ℕ → Position
play before m =
    let from = move_from m in
    let to = move_to m in
    let p0 : Position = record before {
      rule50 = (before.rule50 + 1) % 2 ^ 8;
      ep_square = nb_square;
    } in
    let piece = pos_piece_on p0 from in
    end_turn before (move_any before (capture_on p0 to) piece from to (move_prom m)) m

unfoldable pub pos_move : Position → ℕ → Position
pos_move before m = finish (play before m)
