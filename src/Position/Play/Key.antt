-- ===== src/Position/Play/Key.antt =====
-- `pos_move` updates the hash key of the whole state, and the board, in step.
use mathlib.Core.Bool.{xor}
use c_chess_cli.Common.{
  ℕ, zero, suc, ◌%◌, Bool, ◌+◌, ◌^◌, ◌≤◌, ◌<◌, ◌≡◌, ◌≢◌, sym, ◌∙◌, arith, bit_xor, bit_and,
  Bool-cases, inl, inr, ◌==◌, if◌then◌else◌,
}
use native.Mathlib.Nat.{le_trans}
use c_chess_cli.Bits.{
  xor_comm, xor_zero, xor_self, test_bit, test_bit-xor, test_bit-and, test_bit_ext,
}
use c_chess_cli.Bitboard.Square.{white, black, nb_square, opposite, branchless_color}
use c_chess_cli.Bitboard.Word.Laws.{bb_test-test_bit}
use c_chess_cli.Bitboard.Move.{move_from, move_to, move_prom}
use c_chess_cli.Position.Zobrist.{zobrist_castling, zobrist_en_passant, zobrist_turn}
use c_chess_cli.Position.State.{Position, pos_piece_on}
use c_chess_cli.Position.Board.{Board, Shows, IsConsistent, side_hash, board_hash}
use c_chess_cli.Position.Board.Query.{pos_piece_on-piece_code}
use c_chess_cli.Position.Board.Rules.{Plays}
use c_chess_cli.Position.Play.{capture_on, move_any, end_turn, play, finish, pos_move}
use c_chess_cli.Position.Play.Effect.{move_to-lt}
use c_chess_cli.Position.Play.Rights.{pos_move-rights}
use c_chess_cli.Bitboard.Word.Members.{member-lt}
use c_chess_cli.Position.Play.Refines.{move_any-Plays}
use c_chess_cli.Position.Play.Rooks.{capture_on_rooks, move_any_rooks, zobrist_castling-xor}

turn_hash :
    (us : ℕ)
    → us < 2
    → bit_xor (if us == white then 0 else zobrist_turn) zobrist_turn
      ≡ (if opposite us == white then 0 else zobrist_turn)
unfolding opposite
turn_hash zero h = xor_comm 0 zobrist_turn ∙ xor_zero zobrist_turn
turn_hash (suc zero) h = xor_self zobrist_turn
turn_hash (suc (suc us)) h = absurd (omega arith)

flips :
    (t c e h z e' c' : Bool)
    → xor (xor (xor (xor (xor (xor t c) e) h) z) (xor e e')) (xor c c')
      ≡ xor (xor (xor (xor t z) c') e') h
unfolding xor
flips t c e h z e' c' = ground arith

regroup :
    (t c e h z e' c' : ℕ)
    → bit_xor
        (bit_xor (bit_xor (bit_xor (bit_xor (bit_xor t c) e) h) z) (bit_xor e e'))
        (bit_xor c c')
      ≡ bit_xor (bit_xor (bit_xor (bit_xor t z) c') e') h
regroup t c e h z e' c' = test_bit_ext _ _ λ i. simp test_bit-xor (
    flips (test_bit t i) (test_bit c i) (test_bit e i) (test_bit h i) (test_bit z i) (test_bit e' i)
      (test_bit c' i))

-- What `end_turn` does to the key turns the old side hash into the new one.
side_hash-step :
    (us rooks rooks' ep ep' h : ℕ)
    → us < 2
    → rooks < 2 ^ 64
    → rooks' < 2 ^ 64
    → bit_xor
        (bit_xor
          (bit_xor (bit_xor (side_hash us rooks ep) h) zobrist_turn)
          (bit_xor (zobrist_en_passant ep) (zobrist_en_passant ep')))
        (zobrist_castling (bit_xor rooks rooks'))
      ≡ bit_xor (side_hash (opposite us) rooks' ep') h
unfolding side_hash
side_hash-step us rooks rooks' ep ep' h hu hr hr' =
    rw (zobrist_castling-xor rooks rooks' hr hr', ← turn_hash us hu)
      (regroup _ (zobrist_castling rooks) (zobrist_en_passant ep) h zobrist_turn
        (zobrist_en_passant ep') (zobrist_castling rooks'))

-- The end of the turn brings the key up to date.
end_turn-IsConsistent :
    (before p : Position) (b : Board) (m : ℕ)
    → before.turn < 2
    → before.castle_rooks < 2 ^ 64
    → p.castle_rooks ≤ before.castle_rooks
    → Shows (side_hash before.turn before.castle_rooks before.ep_square) p b
    → IsConsistent (end_turn before p m) b
unfolding end_turn
end_turn-IsConsistent before p b m hu hr fewer r = record {
  colors = r.colors;
  pieces = r.pieces;
  men = r.men;
  within = r.within;
  hash = rw r.hash (
      side_hash-step before.turn before.castle_rooks p.castle_rooks before.ep_square p.ep_square
        (board_hash 64 b) hu hr (omega arith));
}

-- The position that `pos_move` changes: the clock has ticked and the en passant square is gone.
abbrev started : Position → Position
started p = record p { rule50 = (p.rule50 + 1) % 2 ^ 8; ep_square = nb_square }

-- Each right that is left after a move was there before it.
subset :
    (p : Position) (m : ℕ)
    → p.turn < 2
    → p.castle_rooks < 2 ^ 64
    → (pos_move p m).castle_rooks ≤ p.castle_rooks
    → bit_and p.castle_rooks (pos_move p m).castle_rooks ≡ (pos_move p m).castle_rooks
subset p m hu hr fewer = test_bit_ext _ _ λ s.
    elim (Bool-cases (test_bit (pos_move p m).castle_rooks s)) [
      | inl t ↦
          let there =
            (pos_move-rights p m s (member-lt (pos_move p m).castle_rooks s (omega arith) t) hu
              t).0 in
          ground (arith, test_bit-and p.castle_rooks (pos_move p m).castle_rooks s)
      | inr t ↦ ground (arith, test_bit-and p.castle_rooks (pos_move p m).castle_rooks s)
    ]

-- Let a position show a board, with the key that hashes all of its state, and let `Plays` turn the
-- board into another one by the move: that of an officer, the king or a pawn onto a square without
-- an own man, a castling, an en passant capture or a promotion. Then the position after `pos_move`
-- shows exactly that board, it is the other side's turn, and the key, which the code updates piece
-- by piece, is again the hash of the board, the turn, the castling rights and the en passant square
-- computed from scratch. Each castling right that is left was there before.
pub pos_move-IsConsistent :
    (before : Position) (b b' : Board) (m : ℕ)
    → IsConsistent before b
    → before.turn < 2
    → before.castle_rooks < 2 ^ 64
    → move_from m ≢ move_to m
    → Plays b before.turn before.ep_square (move_from m) (move_to m) (move_prom m) b'
    → IsConsistent (pos_move before m) b'
      × ((pos_move before m).turn ≡ (if before.turn == white then black else white))
      × ((pos_move before m).castle_rooks ≤ before.castle_rooks)
      × (bit_and before.castle_rooks (pos_move before m).castle_rooks
          ≡ (pos_move before m).castle_rooks)
unfolding pos_move finish play end_turn
pos_move-IsConsistent before b b' m r hu hr apart plays =
    let from = move_from m in
    let to = move_to m in
    let p1 = capture_on (started before) to in
    let piece = pos_piece_on (started before) from in
    let fewer : (move_any before p1 piece from to (move_prom m)).castle_rooks
        ≤ before.castle_rooks =
      le_trans (move_any_rooks before p1 piece from to (move_prom m))
        (capture_on_rooks (started before) to) in
    let side = side_hash before.turn before.castle_rooks before.ep_square in
    let shown =
      move_any-Plays side before (started before) b from to (move_prom m) r hu (move_to-lt m) apart
        (λ s. bb_test-test_bit _ s ∙ r.colors before.turn s hu) piece b'
        (sym (pos_piece_on-piece_code side (started before) b from r)) plays in
    (
      end_turn-IsConsistent before (move_any before p1 piece from to (move_prom m)) b' m hu hr fewer
          shown,
      (branchless_color before.turn 0 hu (omega arith)).0,
      fewer,
      subset before m hu hr fewer,
    )
