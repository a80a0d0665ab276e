-- ===== src/Position/Fen/Verify.antt =====
-- What `pos_set` of src/position.c verifies before it accepts a position.
use c_chess_cli.Common.{ℕ, bit_and, bit_or, Bool, not, ◌&&◌, ◌||◌, ◌==◌, leb, if◌then◌else◌}
use c_chess_cli.Common.Int.{neg, offset}
use c_chess_cli.Bitboard.Square.{
  white, black, knight, bishop, rook, queen, king, pawn, nb_square, rank_of, push_inc,
}
use c_chess_cli.Bitboard.Word.{bb_not, bb_test, bb_count, bb_lsb, bb_msb}
use c_chess_cli.Bitboard.Attacks.Slider.{rank_mask, file_mask}
use c_chess_cli.Bitboard.Attacks.Leaper.{segment}
use c_chess_cli.Position.State.{Position, pos_pieces, pos_pieces_cp, pos_pieces_cpp}
use c_chess_cli.Position.Play.{finish}
use c_chess_cli.Position.Fen.Placement.{Outcome, ok, rejected}

unfoldable pub counts_ok : Position → ℕ → Bool
counts_ok p color =
    leb (bb_count (pos_pieces_cpp p color knight pawn)) 10
    && (leb (bb_count (pos_pieces_cpp p color bishop pawn)) 10
        && (leb (bb_count (pos_pieces_cpp p color rook pawn)) 10
            && (leb (bb_count (pos_pieces_cpp p color queen pawn)) 9
                && (leb (bb_count (pos_pieces_cp p color pawn)) 8
                    && ((bb_count (pos_pieces_cp p color king) == 1)
                        && leb (bb_count (p.by_color color)) 16)))))

unfoldable pub pawns_ok : Position → Bool
pawns_ok p = bit_and (p.by_piece pawn) (bit_or (rank_mask 0) (rank_mask 7)) == 0

unfoldable pub castling_side_ok : Position → ℕ → Bool
castling_side_ok p color =
    let b = bit_and p.castle_rooks (p.by_color color) in
    let kings = pos_pieces_cp p color king in
    if bb_count b == 2
    then not (bit_and (segment (bb_lsb b) (bb_msb b)) kings == 0)
    else if bb_count b == 1
    then bit_and kings (bit_or (file_mask 0) (file_mask 7)) == 0
    else b == 0

unfoldable pub castling_ok : Position → Bool
castling_ok p =
    let home =
      bit_or (bit_and (rank_mask 0) (pos_pieces_cp p white rook))
        (bit_and (rank_mask 7) (pos_pieces_cp p black rook)) in
    (p.castle_rooks == 0)
    || ((bit_and p.castle_rooks (bb_not home) == 0)
        && (castling_side_ok p white && castling_side_ok p black))

unfoldable pub en_passant_ok : Position → Bool
en_passant_ok p =
    let ep = p.ep_square in
    let rank = rank_of ep in
    let color = if rank == 2 then white else black in
    let bad =
      (color == p.turn)
      || (bb_test (pos_pieces p) ep
          || (not (rank == 2 || rank == 5)
              || (not (bb_test (pos_pieces_cp p color pawn) (offset ep (push_inc color)))
                  || bb_test (pos_pieces p) (offset ep (neg (push_inc color)))))) in
    (ep == nb_square) || not bad

unfoldable pub verify : Position → Outcome Position
verify p =
    if (counts_ok p white && counts_ok p black)
      && (pawns_ok p && (castling_ok p && en_passant_ok p))
    then ok (finish p)
    else rejected
