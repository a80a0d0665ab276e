-- ===== src/Gen/Plays/Steps.antt =====
-- The four kinds of ordinary pawn moves, and the captures en passant.
use c_chess_cli.Common.{
  true, ℕ, ◌^◌, ◌<◌, ◌≡◌, ◌≢◌, refl, sym, ap, ◌∙◌, arith, List, [], ◌∷◌, All, All-append, bit_and,
  if_both, none, inl, inr,
}
use c_chess_cli.Common.Int.{pos, neg, double, offset, ◌+ℤ◌}
use c_chess_cli.Bitboard.Square.{
  pawn, nb_piece, opposite, push_inc, rank_of, file_of, relative_rank,
}
use c_chess_cli.Bitboard.Word.{bb_not, bb_shift}
use c_chess_cli.Bitboard.Word.Members.{IsIn, not_in, and_both, bit_and-lt, bb_not-lt}
use c_chess_cli.Bitboard.Ranks.{
  test_bit-rank_mask, test_bit-file_mask, IsAhead, offset_ranks, left_step, right_step, push_step,
  double_step, IsAhead-single, IsAhead-fourth, relative_rank-lt,
}
use c_chess_cli.Bitboard.Move.{move_build}
use c_chess_cli.Bitboard.Attacks.Slider.{rank_mask, file_mask, minus1}
use c_chess_cli.Position.State.{Position, pos_pieces}
use c_chess_cli.Position.Board.{man, Board, put}
use c_chess_cli.Position.Board.Rules.{en_passant, moved}
use c_chess_cli.Gen.{
  Moves, non_promoting_pawns, left_captures, right_captures, single_pushes, double_pushes,
  en_passant_is_safe, push_en_passant,
}
use c_chess_cli.Position.Board.Rules.Goes.{
  pawn_push, pawn_capture, is_pawn_capture, left_capture, right_capture, push_file, double_file,
}
use c_chess_cli.Gen.Plays.{
  IsPassed, IsPlayable, IsRuled, IsRuled-build, opposite-ne, opposite-lt, color-lt, pos_pieces-lt,
  empty_of,
}
use c_chess_cli.Gen.Plays.Pawns.{
  IsPawn, non_promoting-IsPawn, step-IsRuled, capture-IsRuled, inside,
}

module _ {p : Position} {b : Board} (v : IsPlayable p b) where
  captures-lt : (filter : ℕ) → bit_and (p.by_color (opposite p.turn)) filter < 2 ^ 64
  captures-lt filter = bit_and-lt _ filter (color-lt v (opposite p.turn) (opposite-lt v))

  -- The pawns of the sets are pawns that do not promote, off the edge to which they capture.
  pub left-IsRuled :
      (filter s : ℕ)
      → IsIn (left_captures p (bit_and (p.by_color (opposite p.turn)) filter)) s
      → IsRuled p b (move_build s (offset s (push_inc p.turn +ℤ minus1)) nb_piece)
  unfolding left_captures
  left-IsRuled filter s (t, l) =
      let them = bit_and (p.by_color (opposite p.turn)) filter in
      let pawns = bit_and (non_promoting_pawns p) (bb_not (file_mask 0)) in
      let (x, y) = and_both pawns (bb_shift them (neg (push_inc p.turn +ℤ minus1))) s t in
      let (x', z) = and_both (non_promoting_pawns p) (bb_not (file_mask 0)) s x in
      let inner : file_of s ≢ 0 =
        ground (arith, not_in (file_mask 0) s z l, test_bit-file_mask 0 s) in
      let (on, ahead) = left_step p.turn them s v.turn_lt (captures-lt filter) l inner y in
      capture-IsRuled v s _ filter (non_promoting-IsPawn v s (x', l)) on ahead
        (left_capture p.turn s v.turn_lt inner ahead)

  pub right-IsRuled :
      (filter s : ℕ)
      → IsIn (right_captures p (bit_and (p.by_color (opposite p.turn)) filter)) s
      → IsRuled p b (move_build s (offset s (push_inc p.turn +ℤ pos 1)) nb_piece)
  unfolding right_captures
  right-IsRuled filter s (t, l) =
      let them = bit_and (p.by_color (opposite p.turn)) filter in
      let pawns = bit_and (non_promoting_pawns p) (bb_not (file_mask 7)) in
      let (x, y) = and_both pawns (bb_shift them (neg (push_inc p.turn +ℤ pos 1))) s t in
      let (x', z) = and_both (non_promoting_pawns p) (bb_not (file_mask 7)) s x in
      let inner : file_of s ≢ 7 =
        ground (arith, not_in (file_mask 7) s z l, test_bit-file_mask 7 s) in
      let (on, ahead) = right_step p.turn them s v.turn_lt (captures-lt filter) l inner y in
      capture-IsRuled v s _ filter (non_promoting-IsPawn v s (x', l)) on ahead
        (right_capture p.turn s v.turn_lt inner ahead)

  -- The squares that a push may go to.
  vacant-lt : (filter : ℕ) → bit_and (bb_not (pos_pieces p)) filter < 2 ^ 64
  vacant-lt filter =
      bit_and-lt (bb_not (pos_pieces p)) filter (bb_not-lt (pos_pieces p) (pos_pieces-lt v))

  vacant-empty : (filter t : ℕ) → IsIn (bit_and (bb_not (pos_pieces p)) filter) t → b t ≡ none
  vacant-empty filter t (h, l) = empty_of v t (and_both (bb_not (pos_pieces p)) filter t h).0 l

  -- Behind the en passant square stands an enemy pawn, so that no pawn is pushed onto it.
  push-ne-ep :
      (s t : ℕ) → IsPawn v s → t < 64 → offset t (neg (push_inc p.turn)) ≡ s → t ≢ p.ep_square
  push-ne-ep s t q l e = elim (v.passed) [
    | inl none_there ↦ ground arith
    | inr there ↦ λ is_ep.
        let here = q.here in
        let behind : b s ≡ man (opposite p.turn) pawn =
          ap b (sym e ∙ ap (λ (u : ℕ). offset u (neg (push_inc p.turn))) is_ep) ∙ there.behind in
        absurd (ground (arith, opposite-ne v))
  ]

  pub single-IsRuled :
      (filter s : ℕ)
      → IsIn (single_pushes p filter) s
      → IsRuled p b (move_build s (offset s (push_inc p.turn)) nb_piece)
  unfolding single_pushes
  single-IsRuled filter s (t, l) =
      let vacant = bit_and (bb_not (pos_pieces p)) filter in
      let (x, y) = and_both (non_promoting_pawns p) (bb_shift vacant (neg (push_inc p.turn))) s t in
      let q = non_promoting-IsPawn v s (x, l) in
      let here = q.here in
      let (on, ahead, back) = push_step p.turn vacant s v.turn_lt (vacant-lt filter) l y in
      step-IsRuled v s _ q on.1 (inl (vacant-empty filter _ on)) (push-ne-ep s _ q on.1 back)
        (inside v s _ q ahead)
        (λ is_pawn far. absurd (IsAhead-single p.turn s _ v.turn_lt ahead far))
        (pawn_push here (vacant-empty filter _ on) (push_file p.turn s v.turn_lt ahead) (inl ahead))

  -- A double push lands on another rank than that of the en passant square.
  pub fourth-ne-ep : (t : ℕ) → t < 64 → rank_of t ≢ relative_rank p.turn 5 → t ≢ p.ep_square
  fourth-ne-ep t l far = elim (v.passed) [
    | inl none_there ↦ ground arith
    | inr there ↦ λ is_ep. far (ap rank_of is_ep ∙ there.on_rank)
  ]

  pub double-IsRuled :
      (filter s : ℕ)
      → IsIn (double_pushes p filter) s
      → IsRuled p b (move_build s (offset s (double (push_inc p.turn))) nb_piece)
  unfolding double_pushes
  double-IsRuled filter s (t, l) =
      let vacant = bit_and (bb_not (pos_pieces p)) filter in
      let second = rank_mask (relative_rank p.turn 1) in
      let (x, y) = and_both _ (bb_shift vacant (neg (double (push_inc p.turn)))) s t in
      let (x', z) = and_both _ (bb_shift (bb_not (pos_pieces p)) (neg (push_inc p.turn))) s x in
      let (next, step, back) =
        push_step p.turn (bb_not (pos_pieces p)) s v.turn_lt
          (bb_not-lt (pos_pieces p) (pos_pieces-lt v)) l z in
      let between = empty_of v (offset s (push_inc p.turn)) next.0 next.1 in
      let (x'', at) = and_both (non_promoting_pawns p) second s x' in
      let rank : rank_of s ≡ relative_rank p.turn 1 = ground (
        arith,
        test_bit-rank_mask (relative_rank p.turn 1) s
            (relative_rank-lt p.turn 1 v.turn_lt (omega arith)) l,
      ) in
      let (on, ahead) = double_step p.turn vacant s v.turn_lt (vacant-lt filter) l y in
      let q = non_promoting-IsPawn v s (x'', l) in
      let here = q.here in
      let (n7, n0, far) = IsAhead-fourth p.turn s _ v.turn_lt rank ahead in
      step-IsRuled v s _ q on.1 (inl (vacant-empty filter _ on)) (fourth-ne-ep _ on.1 far) (n7, n0)
        (λ is_pawn two. (between, rank))
        (pawn_push here (vacant-empty filter _ on) (double_file p.turn s v.turn_lt ahead)
          (inr ahead))

  en_passant-IsRuled :
      (s : ℕ)
      → IsPawn v s
      → IsPassed p.turn p.ep_square b
      → ¬ (IsAhead p.turn 2 s p.ep_square)
      → is_pawn_capture p.turn s p.ep_square ≡ true
      → IsRuled p b (move_build s p.ep_square nb_piece)
  en_passant-IsRuled s q there near beside =
      let here = q.here in
      let empty = there.empty in
      IsRuled-build p b s p.ep_square nb_piece
        (put (moved b s p.ep_square (man p.turn pawn)) (offset p.ep_square (neg (push_inc p.turn)))
          none)
        q.below there.on_board (omega arith) (ground arith)
        (λ is_pawn far. absurd (near (offset_ranks p.turn s p.ep_square v.turn_lt far)))
        (pawn_capture here (inr refl) beside) (en_passant here empty refl there.behind refl)

  pub push_en_passant-All :
      (froms : List ℕ) (moves : Moves)
      → IsPassed p.turn p.ep_square b
      → All
          (λ s.
            IsPawn v s
            × ¬ (IsAhead p.turn 2 s p.ep_square)
            × (is_pawn_capture p.turn s p.ep_square ≡ true))
          froms
      → All (IsRuled p b) moves
      → All (IsRuled p b) (push_en_passant p froms moves)
  unfolding push_en_passant
  push_en_passant-All [] moves there h k = k
  push_en_passant-All (s ∷ froms) moves there h k = push_en_passant-All froms _ there h.1 (
      if_both (All (IsRuled p b)) (en_passant_is_safe p s) _ moves
        (All-append (IsRuled p b) moves _ k (en_passant-IsRuled s h.0.0 there h.0.1 h.0.2, tt)) k)
