-- ===== src/Gen/Plays/Generated.antt =====
-- All generated moves, and the position that comes of one.
use c_chess_cli.Common.{
  ℕ, ◌^◌, ◌<◌, ◌≡◌, arith, true, false, ◌==◌, [], ◌∷◌, All, All-mono, Bool-cases, bit_and,
  if◌then◌else◌, if_both, subst, ==_iff, inl, inr,
}
use c_chess_cli.Common.Int.{pos, double, ◌+ℤ◌}
use c_chess_cli.Bitboard.Square.{nb_square, opposite, push_inc}
use c_chess_cli.Bitboard.Word.{bb_not, bb_several, squares}
use c_chess_cli.Bitboard.Word.Members.{
  IsIn, squares-IsIn, and_both, bit_and-lt, bit_and-lt_right, bb_not-lt,
}
use c_chess_cli.Bitboard.Ranks.{IsAhead, takers_near}
use c_chess_cli.Bitboard.Attacks.Slider.{minus1}
use c_chess_cli.Bitboard.Attacks.Leaper.{pawn_attacks}
use c_chess_cli.Position.State.{Position, pos_king_square}
use c_chess_cli.Position.Board.{Board}
use c_chess_cli.Gen.{
  Moves, left_captures, right_captures, single_pushes, double_pushes, non_promoting_pawns,
  gen_pawn_moves, gen_check_escapes, gen_all_moves, escape_targets, push_en_passant,
}
use c_chess_cli.Game.{illegal_move}
use c_chess_cli.Position.Board.Rules.Goes.{is_pawn_capture, pawn_attacks_lem, capture_back}
use c_chess_cli.Gen.Plays.{opposite-lt, IsPlayable, IsRuled, color-lt, IsFree-of}
use c_chess_cli.Gen.Plays.Pieces.{IsFilter, IsFilter-and_right, king_moves-All, gen_piece_moves-All}
use c_chess_cli.Gen.Plays.Pawns.{
  IsPawn, non_promoting-lt, non_promoting-IsPawn, serialize_pawn_moves-All,
}
use c_chess_cli.Gen.Plays.Steps.{
  left-IsRuled, right-IsRuled, single-IsRuled, double-IsRuled, push_en_passant-All,
}
use c_chess_cli.Gen.Plays.Promotions.{promoting-All}
use c_chess_cli.Gen.Plays.Castling.{gen_castling_moves-All}

module _ {p : Position} {b : Board} (v : IsPlayable p b) where
  pawns-lt : (x : ℕ) → bit_and (non_promoting_pawns p) x < 2 ^ 64
  pawns-lt x = bit_and-lt (non_promoting_pawns p) x (non_promoting-lt v)

  en_passants-All :
      (moves : Moves)
      → All (IsRuled p b) moves
      → All (IsRuled p b) (
          if p.ep_square == nb_square
          then moves
          else push_en_passant p
              (squares
                (bit_and (pawn_attacks (opposite p.turn) p.ep_square) (non_promoting_pawns p)))
              moves)
  en_passants-All moves h = elim (v.passed) [
    | inl none_there ↦ let e : (p.ep_square == nb_square) ≡ true = ground arith in rw e h
    | inr there ↦
        let takers = bit_and (pawn_attacks (opposite p.turn) p.ep_square) (non_promoting_pawns p) in
        if_both (All (IsRuled p b)) (p.ep_square == nb_square) moves _ h (
          push_en_passant-All v (squares takers) moves there
            (All-mono (IsIn takers)
              (λ s.
                IsPawn v s
                × ¬ (IsAhead p.turn 2 s p.ep_square)
                × (is_pawn_capture p.turn s p.ep_square ≡ true))
              (squares takers)
              (λ s t.
                let (x, y) =
                  and_both (pawn_attacks (opposite p.turn) p.ep_square) (non_promoting_pawns p) s
                    t.0 in
                (
                  non_promoting-IsPawn v s (y, t.1),
                  takers_near p.turn p.ep_square s v.turn_lt there.on_board t.1 there.on_rank x,
                  capture_back p.turn s p.ep_square v.turn_lt (
                      pawn_attacks_lem (opposite p.turn) p.ep_square s (opposite-lt v)
                        there.on_board t.1 x),
                ))
              (squares-IsIn takers (bit_and-lt_right _ _ (non_promoting-lt v))))
            h)
  ]

  sets-lt :
      (them filter : ℕ)
      → (left_captures p them < 2 ^ 64)
        × (right_captures p them < 2 ^ 64)
        × (single_pushes p filter < 2 ^ 64)
        × (double_pushes p filter < 2 ^ 64)
  unfolding left_captures right_captures single_pushes double_pushes
  sets-lt them filter = (
    bit_and-lt _ _ (pawns-lt _),
    bit_and-lt _ _ (pawns-lt _),
    pawns-lt _,
    bit_and-lt _ _ (bit_and-lt _ _ (pawns-lt _)),
  )

  gen_pawn_moves-All :
      (moves : Moves) (filter : ℕ)
      → All (IsRuled p b) moves
      → All (IsRuled p b) (gen_pawn_moves p moves filter)
  unfolding gen_pawn_moves
  gen_pawn_moves-All moves filter h =
      let king_sq = pos_king_square p p.turn in
      let push = push_inc p.turn in
      let them = bit_and (p.by_color (opposite p.turn)) filter in
      let (l1, l2, l3, l4) = sets-lt them filter in
      let h1 =
        serialize_pawn_moves-All v (left_captures p them) king_sq (push +ℤ minus1) moves l1
          (left-IsRuled v filter) h in
      let h2 =
        serialize_pawn_moves-All v (right_captures p them) king_sq (push +ℤ pos 1) _ l2
          (right-IsRuled v filter) h1 in
      let h3 =
        serialize_pawn_moves-All v (single_pushes p filter) king_sq push _ l3
          (single-IsRuled v filter) h2 in
      let h4 =
        serialize_pawn_moves-All v (double_pushes p filter) king_sq (double push) _ l4
          (double-IsRuled v filter) h3 in
      promoting-All v filter _ (en_passants-All _ h4)

  others-IsFilter : IsFilter p b (bb_not (p.by_color p.turn))
  others-IsFilter = (bb_not-lt _ (color-lt v p.turn v.turn_lt), IsFree-of v)

  gen_check_escapes-All : All (IsRuled p b) (gen_check_escapes p [])
  unfolding gen_check_escapes
  gen_check_escapes-All =
      let h1 = king_moves-All v (bb_not (p.by_color p.turn)) [] others-IsFilter tt in
      let targets = escape_targets p in
      let h2 =
        gen_piece_moves-All v (bit_and targets (bb_not (p.by_color p.turn))) _ false
          (IsFilter-and_right p b targets (bb_not (p.by_color p.turn)) others-IsFilter) h1 in
      if_both (All (IsRuled p b)) (bb_several p.checkers) _ _ h1 (gen_pawn_moves-All _ _ h2)

  pub gen_all_moves-All : All (IsRuled p b) (gen_all_moves p)
  unfolding gen_all_moves
  gen_all_moves-All =
      let others = bb_not (p.by_color p.turn) in
      let h1 = gen_pawn_moves-All [] others tt in
      let h2 = gen_piece_moves-All v others _ true others-IsFilter h1 in
      if_both (All (IsRuled p b)) (p.checkers == 0) _ _ (gen_castling_moves-All v _ h2)
        gen_check_escapes-All

legal-All {κ} :
    (P : ℕ → Type κ) (m : ℕ) (moves : Moves) → All P moves → illegal_move m moves ≡ false → P m
unfolding illegal_move
legal-All P m [] h e = cc
legal-All P m (x ∷ moves) h e = elim (Bool-cases (x == m)) [
  | inl t ↦ subst P ((==_iff x m).0 t) h.0
  | inr t ↦ legal-All P m moves h.1 (ground arith)
]

pub legal-IsRuled :
    (p : Position) (b : Board) (m : ℕ)
    → IsPlayable p b
    → illegal_move m (gen_all_moves p) ≡ false
    → IsRuled p b m
legal-IsRuled p b m v legal =
    legal-All (IsRuled p b) m (gen_all_moves p) (gen_all_moves-All v) legal
