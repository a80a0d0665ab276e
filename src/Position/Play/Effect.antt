-- ===== src/Position/Play/Effect.antt =====
-- `pos_move` does to the board what `Plays` says, whatever kind of move it is.
use c_chess_cli.Common.{
  ℕ, ◌/◌, ◌^◌, ◌<◌, ◌≡◌, ◌≢◌, refl, ap, subst, ◌∙◌, arith, true, false, ◌||◌, ◌==◌, Option, none,
  some, ==_ne, if_same,
}
use c_chess_cli.Common.Int.{neg, offset}
use c_chess_cli.Bits.{bit_and_mask}
use c_chess_cli.Bitboard.Square.{king, pawn, rook, opposite, push_inc, rank_of}
use c_chess_cli.Bitboard.Word.{bb_test}
use c_chess_cli.Bitboard.Move.{move_to}
use c_chess_cli.Position.State.{Position, clear_square, set_square, pos_color_on, pos_piece_on}
use c_chess_cli.Position.Board.{Man, man, Board, put, IsMan, Shows}
use c_chess_cli.Position.Board.Query.{
  piece_code, Represents-ext, pos_piece_on-piece_code, pos_color_on_lem, set_square-Shows,
  clear_square-Shows,
}
use c_chess_cli.Position.Board.Rules.{moved, castled_king, castled_rook, IsLastRank}
use c_chess_cli.Position.Play.{capture_on, move_piece, set_ep_square, after_pawn, after_king}

pub move_to-lt : (m : ℕ) → move_to m < 64
unfolding move_to
move_to-lt m = omega (arith, bit_and_mask 6 (m / 2 ^ 6))

capture_on_empty :
    (side : ℕ) (p : Position) (b : Board) (to : ℕ)
    → Shows side p b
    → b to ≡ none
    → capture_on p to ≡ p
capture_on_empty side p b to r e =
    let code : pos_piece_on p to ≡ 6 = pos_piece_on-piece_code side p b to r ∙ ap piece_code e in
    unfold capture_on in rw code

capture_on_arrays :
    (p : Position) (to k c : ℕ)
    → pos_piece_on p to ≡ k
    → pos_color_on p to ≡ c
    → k < 6
    → ((capture_on p to).by_color ≡ (clear_square p c k to).by_color)
      × ((capture_on p to).by_piece ≡ (clear_square p c k to).by_piece)
      × ((capture_on p to).key ≡ (clear_square p c k to).key)
unfolding capture_on clear_square
capture_on_arrays p to k c code color h =
    let ne : (k == 6) ≡ false = ground arith in rw (code, color, ne) (refl, refl, refl)

capture_on_held :
    (side : ℕ) (p : Position) (b : Board) (to : ℕ) (m : Man)
    → Shows side p b
    → b to ≡ some m
    → Shows side (capture_on p to) (put b to none)
capture_on_held side p b to m r e =
    let arrays =
      capture_on_arrays p to m.piece m.color
        (pos_piece_on-piece_code side p b to r ∙ ap piece_code e)
        (pos_color_on_lem side p b to m r e) (subst IsMan e (r.men to)).1 in
    rw (arrays.0, arrays.1, arrays.2) (clear_square-Shows side p b m.color m.piece to r e)

-- Whatever stood on the `to` square is gone.
pub capture_on-Shows :
    (side : ℕ) (p : Position) (b : Board) (to : ℕ) (x : Option Man)
    → b to ≡ x
    → Shows side p b
    → Shows side (capture_on p to) (put b to none)
capture_on-Shows side p b to none e r =
    rw (capture_on_empty side p b to r e) (Represents-ext b (put b to none) (λ s. ground arith) r)
capture_on-Shows side p b to (some m) e r = capture_on_held side p b to m r e

pub move_piece-Shows :
    (side : ℕ) (p : Position) (b : Board) (us piece from to : ℕ)
    → Shows side p b
    → us < 2
    → piece < 6
    → to < 64
    → b from ≡ man us piece
    → b to ≡ none
    → Shows side (move_piece p us piece from to) (moved b from to (man us piece))
unfolding move_piece
move_piece-Shows side p b us piece from to r hu hp ht e e' =
    set_square-Shows side (clear_square p us piece from) (put b from none) us piece to
      (clear_square-Shows side p b us piece from r e) hu hp ht (ground arith)

set_ep_square_arrays :
    (p : Position) (us from to : ℕ)
    → ((set_ep_square p us from to).by_color ≡ p.by_color)
      × ((set_ep_square p us from to).by_piece ≡ p.by_piece)
      × ((set_ep_square p us from to).key ≡ p.key)
unfolding set_ep_square
set_ep_square_arrays p us from to = (
  if_same (λ (q : Position). q.by_color) _ _ _ refl,
  if_same (λ (q : Position). q.by_piece) _ _ _ refl,
  if_same (λ (q : Position). q.key) _ _ _ refl,
)

module _ (side : ℕ) (p : Position) (b : Board) (ep us from to prom : ℕ) (hu : us < 2) (ht : to < 64)
    (r : Shows side p (moved b from to (man us pawn))) where
  with_ep :
      Shows side
        (set_ep_square (record p { rule50 = 0 }) us from to)
        (moved b from to (man us pawn))
  with_ep =
      let e = set_ep_square_arrays (record p { rule50 = 0 }) us from to in rw (e.0, e.1, e.2) r

  pub after_pawn_step :
      to ≢ ep
      → rank_of to ≢ 7
      → rank_of to ≢ 0
      → Shows side (after_pawn p ep us from to prom) (moved b from to (man us pawn))
  unfolding after_pawn
  after_pawn_step n n7 n0 = rw (==_ne to ep n, ==_ne _ 7 n7, ==_ne _ 0 n0) with_ep

  pub after_pawn_en_passant :
      (victim : ℕ)
      → victim ≡ offset to (neg (push_inc us))
      → to ≡ ep
      → victim ≢ to
      → victim ≢ from
      → b victim ≡ man (opposite us) pawn
      → Shows side
          (after_pawn p ep us from to prom)
          (put (moved b from to (man us pawn)) victim none)
  unfolding after_pawn
  after_pawn_en_passant victim ev e nt nf held =
      let hit : (to == ep) ≡ true = ground arith in
      rw (hit, ← ev)
        (clear_square-Shows side _ (moved b from to (man us pawn)) (opposite us) pawn victim with_ep
          (ground arith))

  promoted :
      prom < 4
      → Shows side
          (set_square
            (clear_square (set_ep_square (record p { rule50 = 0 }) us from to) us pawn to)
            us
            prom
            to)
          (moved b from to (man us prom))
  promoted hp =
      Represents-ext (put (put (moved b from to (man us pawn)) to none) to (man us prom)) _
        (λ s. ground arith)
        (set_square-Shows side _ (put (moved b from to (man us pawn)) to none) us prom to
          (clear_square-Shows side _ (moved b from to (man us pawn)) us pawn to with_ep
            (ground arith))
          hu (omega arith) ht (ground arith))

  pub after_pawn_promotion :
      to ≢ ep
      → IsLastRank to
      → prom < 4
      → Shows side (after_pawn p ep us from to prom) (moved b from to (man us prom))
  unfolding after_pawn
  after_pawn_promotion n last hp =
      let hit : (rank_of to == 7 || rank_of to == 0) ≡ true = ground arith in
      rw (==_ne to ep n, hit) (promoted hp)

-- The king lands, and so does the rook if the move is a castling.
module _ (side : ℕ) (p : Position) (b : Board) (ours us from to : ℕ) (hu : us < 2)
    (ht : to < 64) where
  pub after_king_step :
      bb_test ours to ≡ false
      → Shows side p (moved b from to (man us king))
      → Shows side (after_king p ours us from to) (moved b from to (man us king))
  unfolding after_king
  after_king_step h r = rw h r

  pub after_king_castling :
      bb_test ours to ≡ true
      → Shows side p (moved b from to (man us king))
      → moved b from to none (castled_king from to) ≡ none
      → moved b from to none (castled_rook from to) ≡ none
      → castled_king from to < 64
      → castled_rook from to < 64
      → castled_king from to ≢ castled_rook from to
      → Shows side (after_king p ours us from to) (
          put
            (put (moved b from to none) (castled_king from to) (man us king))
            (castled_rook from to)
            (man us rook))
  unfolding after_king
  after_king_castling h r ek er hk hr ne = rw h (
      set_square-Shows side _ (put (moved b from to none) (castled_king from to) (man us king)) us
        rook (castled_rook from to)
        (set_square-Shows side _ (moved b from to none) us king (castled_king from to)
          (Represents-ext (put (moved b from to (man us king)) to none) _ (λ s. ground arith)
            (clear_square-Shows side _ (moved b from to (man us king)) us king to r (ground arith)))
          hu (omega arith) hk ek)
        hu (omega arith) hr (ground arith))
