-- ===== src/Gen/Plays/Pawns.antt =====
-- The moves of the pawns that do not promote.
use c_chess_cli.Common.{
  true, ℕ, ◌^◌, ◌<◌, ◌≡◌, ◌≢◌, refl, arith, List, [], ◌∷◌, All, All-mono, All-append, bit_and,
  if_both, inl, inr,
}
use c_chess_cli.Common.Int.{ℤ, offset}
use c_chess_cli.Bitboard.Square.{pawn, nb_piece, opposite, rank_of, relative_rank}
use c_chess_cli.Bitboard.Word.{bb_not, squares}
use c_chess_cli.Bitboard.Word.Members.{IsIn, squares-IsIn, not_in, and_both, bit_and-lt}
use c_chess_cli.Bitboard.Ranks.{
  test_bit-rank_mask, IsAhead, IsAhead-single, IsAhead-inside, relative_rank-lt,
}
use c_chess_cli.Bitboard.Move.{move_build}
use c_chess_cli.Bitboard.Attacks.Slider.{rank_mask}
use c_chess_cli.Position.State.{Position, pos_pieces_cp}
use c_chess_cli.Position.Board.{man, Board}
use c_chess_cli.Position.Board.Rules.{pawn_step, IsFree, moved}
use c_chess_cli.Gen.{Moves, pin_allows, push_pawns, serialize_pawn_moves, non_promoting_pawns}
use c_chess_cli.Position.Board.Rules.Goes.{pawn_capture, is_pawn_capture}
use c_chess_cli.Gen.Plays.{
  IsCalm, MayGo, IsPlayable, IsRuled, IsRuled-build, opposite-ne, piece_of, pieces_cp-lt, enemy_of,
}

module _ {p : Position} {b : Board} (v : IsPlayable p b) where
  -- A pawn that is not about to promote.
  pub record IsPawn (s : ℕ) : Type 0 where
    pub here : b s ≡ man p.turn pawn
    pub below : s < 64
    pub off_last : rank_of s ≢ relative_rank p.turn 6

  pub non_promoting-lt : non_promoting_pawns p < 2 ^ 64
  unfolding non_promoting_pawns
  non_promoting-lt =
      bit_and-lt _ (bb_not (rank_mask (relative_rank p.turn 6)))
        (pieces_cp-lt v p.turn pawn v.turn_lt)

  pub non_promoting-IsPawn : (s : ℕ) → IsIn (non_promoting_pawns p) s → IsPawn s
  unfolding non_promoting_pawns
  non_promoting-IsPawn s (t, l) =
      let (x, y) =
        and_both (pos_pieces_cp p p.turn pawn) (bb_not (rank_mask (relative_rank p.turn 6))) s t in
      record {
        here = piece_of v p.turn pawn s v.turn_lt (omega arith) x;
        below = l;
        off_last = ground (
          arith,
          not_in (rank_mask (relative_rank p.turn 6)) s y l,
          test_bit-rank_mask (relative_rank p.turn 6) s
              (relative_rank-lt p.turn 6 v.turn_lt (omega arith)) l,
        );
      }

  -- An enemy's man is not on the en passant square, which is empty.
  pub enemy-ne-ep : (t k : ℕ) → t < 64 → b t ≡ man (opposite p.turn) k → t ≢ p.ep_square
  enemy-ne-ep t k l e = elim (v.passed) [
    | inl none_there ↦ ground arith
    | inr there ↦ let empty = there.empty in ground arith
  ]

  pub step-IsRuled :
      (from to : ℕ)
      → IsPawn from
      → to < 64
      → IsFree b p.turn to
      → to ≢ p.ep_square
      → (rank_of to ≢ 7) × (rank_of to ≢ 0)
      → IsCalm b p.turn from to
      → MayGo p b from to
      → IsRuled p b (move_build from to nb_piece)
  step-IsRuled from to q l free ne (n7, n0) calm goes =
      let here = q.here in
      IsRuled-build p b from to nb_piece (moved b from to (man p.turn pawn)) q.below l (omega arith)
        (ground (arith, opposite-ne v)) calm goes (pawn_step here free ne n7 n0 refl)

  pub inside :
      (from to : ℕ) → IsPawn from → IsAhead p.turn 1 from to → (rank_of to ≢ 7) × (rank_of to ≢ 0)
  inside from to q a =
      let (n0, n7) = v.pawns_inside from p.turn q.here in
      IsAhead-inside p.turn from to v.turn_lt q.below n0 n7 q.off_last a

  -- A capture to a square one rank ahead.
  pub capture-IsRuled :
      (from to cap_set : ℕ)
      → IsPawn from
      → IsIn (bit_and (p.by_color (opposite p.turn)) cap_set) to
      → IsAhead p.turn 1 from to
      → is_pawn_capture p.turn from to ≡ true
      → IsRuled p b (move_build from to nb_piece)
  capture-IsRuled from to cap_set q (t, l) a beside =
      let here = q.here in
      let (k, e) = enemy_of v to (and_both (p.by_color (opposite p.turn)) cap_set to t).0 in
      step-IsRuled from to q l (inr (k, e)) (enemy-ne-ep to k l e) (inside from to q a)
        (λ is_pawn far. absurd (IsAhead-single p.turn from to v.turn_lt a far))
        (pawn_capture here (inl (k, e)) beside)

  push_pawns-All :
      (froms : List ℕ) (king_sq : ℕ) (shift : ℤ) (moves : Moves)
      → All (λ s. IsRuled p b (move_build s (offset s shift) nb_piece)) froms
      → All (IsRuled p b) moves
      → All (IsRuled p b) (push_pawns froms p.pins king_sq shift moves)
  unfolding push_pawns
  push_pawns-All [] king_sq shift moves h k = k
  push_pawns-All (s ∷ froms) king_sq shift moves h k = push_pawns-All froms king_sq shift _ h.1 (
      if_both (All (IsRuled p b)) (pin_allows p.pins king_sq s (offset s shift)) _ moves
        (All-append (IsRuled p b) moves _ k (h.0, tt)) k)

  pub serialize_pawn_moves-All :
      (pawns king_sq : ℕ) (shift : ℤ) (moves : Moves)
      → pawns < 2 ^ 64
      → ((s : ℕ) → IsIn pawns s → IsRuled p b (move_build s (offset s shift) nb_piece))
      → All (IsRuled p b) moves
      → All (IsRuled p b) (serialize_pawn_moves pawns p.pins king_sq shift moves)
  unfolding serialize_pawn_moves
  serialize_pawn_moves-All pawns king_sq shift moves l f h =
      push_pawns-All (squares pawns) king_sq shift moves
        (All-mono (IsIn pawns) (λ s. IsRuled p b (move_build s (offset s shift) nb_piece))
          (squares pawns) f (squares-IsIn pawns l))
        h
