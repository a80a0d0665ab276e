-- ===== src/Position/Play/Refines.antt =====
-- The refinement: a move of `Plays` turns the position of one board into a position of
-- the board that it gives.
use c_chess_cli.Common.{ℕ, ◌<◌, ◌≡◌, ◌≢◌, refl, sym, ap, ◌∙◌, arith, true, false, leb, none}
use c_chess_cli.Bitboard.Square.{king, pawn, rook, opposite, square_from, branchless_color}
use c_chess_cli.Bitboard.Word.{bb_test}
use c_chess_cli.Position.State.{Position}
use c_chess_cli.Position.Board.{man, Board, Shows, put, has_color}
use c_chess_cli.Position.Board.Query.{piece_code, Represents-ext}
use c_chess_cli.Position.Board.Rules.{
  Plays, officer, king_step, castling, pawn_step, en_passant, promotion, moved, IsFree,
  castled_king, castled_rook,
}
use c_chess_cli.Position.Play.{capture_on, move_piece, move_any}
use c_chess_cli.Position.Play.Effect.{
  capture_on-Shows, move_piece-Shows, after_pawn_step, after_pawn_en_passant, after_pawn_promotion,
  after_king_step, after_king_castling,
}

opposite_ne : (us : ℕ) → us < 2 → opposite us ≢ us
opposite_ne us h = ground (arith, branchless_color us 0 h)

castled_ne : (from to : ℕ) → castled_king from to ≢ castled_rook from to
unfolding square_from
castled_ne from to = ground arith

module _ (side : ℕ) (before p : Position) (b : Board) (from to prom : ℕ) (r : Shows side p b)
    (hu : before.turn < 2) (ht : to < 64) (apart : from ≢ to) where
  -- The board once the captured man is gone and the moving one has arrived.
  arrived :
      (piece : ℕ)
      → piece < 6
      → b from ≡ man before.turn piece
      → Shows side
          (move_piece (capture_on p to) before.turn piece from to)
          (moved b from to (man before.turn piece))
  arrived piece hp e =
      Represents-ext (moved (put b to none) from to (man before.turn piece)) _ (λ s. ground arith)
        (move_piece-Shows side (capture_on p to) (put b to none) before.turn piece from to
          (capture_on-Shows side p b to (b to) refl r) hu hp ht (ground arith) (ground arith))

  own_on_free : IsFree b before.turn to → has_color (b to) before.turn ≡ false
  own_on_free free = ground (arith, opposite_ne before.turn hu)

  move_any_officer :
      (piece : ℕ)
      → piece < 4
      → b from ≡ man before.turn piece
      → Shows side
          (move_any before (capture_on p to) piece from to prom)
          (moved b from to (man before.turn piece))
  unfolding move_any
  move_any_officer piece hp e =
      let small : leb piece 3 ≡ true = ground arith in rw small (arrived piece (omega arith) e)

  module _
      (ours : (s : ℕ) → bb_test (before.by_color before.turn) s ≡ has_color (b s) before.turn) where
    move_any-king :
        b from ≡ man before.turn king
        → IsFree b before.turn to
        → Shows side
            (move_any before (capture_on p to) king from to prom)
            (moved b from to (man before.turn king))
    unfolding move_any
    move_any-king e free =
        after_king_step side _ b (before.by_color before.turn) before.turn from to hu ht
          (ours to ∙ own_on_free free) (arrived king (omega arith) e)

    move_any_castling :
        b from ≡ man before.turn king
        → b to ≡ man before.turn rook
        → moved b from to none (castled_king from to) ≡ none
        → moved b from to none (castled_rook from to) ≡ none
        → castled_king from to < 64
        → castled_rook from to < 64
        → Shows side (move_any before (capture_on p to) king from to prom) (
            put
              (put (moved b from to none) (castled_king from to) (man before.turn king))
              (castled_rook from to)
              (man before.turn rook))
    unfolding move_any
    move_any_castling e e' ek er hk hr =
        after_king_castling side _ b (before.by_color before.turn) before.turn from to hu ht
          (ours to ∙ ground arith) (arrived king (omega arith) e) ek er hk hr (castled_ne from to)

    -- Each case of `Plays`, for the part of `pos_move` that the case reaches.
    pub move_any-Plays :
        (piece : ℕ) (b' : Board)
        → piece_code (b from) ≡ piece
        → Plays b before.turn before.ep_square from to prom b'
        → Shows side (move_any before (capture_on p to) piece from to prom) b'
    move_any-Plays piece b' code (officer k hk e free eb) =
        let same : piece ≡ k = sym code ∙ ap piece_code e in rw (same, eb) (move_any_officer k hk e)
    move_any-Plays piece b' code (king_step e free eb) =
        rw (sym code ∙ ap piece_code e, eb) (move_any-king e free)
    move_any-Plays piece b' code (castling e e' ek er hk hr eb) =
        rw (sym code ∙ ap piece_code e, eb) (move_any_castling e e' ek er hk hr)
    move_any-Plays piece b' code (pawn_step e free ne n7 n0 eb) =
        rw (sym code ∙ ap piece_code e, eb)
          (unfold move_any in
            (after_pawn_step side _ b before.ep_square before.turn from to prom hu ht
              (arrived pawn (omega arith) e) ne n7 n0))
    move_any-Plays piece b' code (en_passant e empty is_ep held eb) =
        rw (sym code ∙ ap piece_code e, eb)
          (unfold move_any in
            (after_pawn_en_passant side _ b before.ep_square before.turn from to prom hu ht
              (arrived pawn (omega arith) e) _ refl is_ep (ground arith)
              (ground (arith, opposite_ne before.turn hu)) held))
    move_any-Plays piece b' code (promotion e free ne last hp eb) =
        rw (sym code ∙ ap piece_code e, eb)
          (unfold move_any in
            (after_pawn_promotion side _ b before.ep_square before.turn from to prom hu ht
              (arrived pawn (omega arith) e) ne last hp))
