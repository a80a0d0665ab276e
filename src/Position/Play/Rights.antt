-- ===== src/Position/Play/Rights.antt =====
-- What `pos_move` leaves of the castling rights, and which en passant square it sets.
use c_chess_cli.Common.{
  ℕ, ◌+◌, ◌*◌, ◌%◌, ◌^◌, ◌<◌, ◌≡◌, ◌≢◌, ◌⊎◌, inl, inr, refl, arith, true, ◌==◌, leb, bit_and,
  if_same, Bool-cases,
}
use c_chess_cli.Common.Int.{double, offset, is_offset}
use c_chess_cli.Bits.{test_bit, test_bit-pow}
use c_chess_cli.Bitboard.Square.{king, queen, pawn, nb_piece, nb_square, push_inc, rank_of}
use c_chess_cli.Bitboard.Word.{bb_not}
use c_chess_cli.Bitboard.Word.Members.{not_in, and_both}
use c_chess_cli.Bitboard.Ranks.{test_bit-rank_mask}
use c_chess_cli.Bitboard.Attacks.Slider.{rank_mask}
use c_chess_cli.Bitboard.Move.{move_from, move_to, move_prom}
use c_chess_cli.Position.State.{Position, clear_square, set_square, pos_piece_on}
use c_chess_cli.Position.Play.{
  capture_on, move_piece, set_ep_square, after_pawn, after_king, move_any, end_turn, play, finish,
  pos_move,
}

-- A square is not among those that were masked out.
masked :
    (a t s : ℕ)
    → s < 64
    → test_bit (bit_and a (bb_not (2 ^ t))) s ≡ true
    → (test_bit a s ≡ true) × (s ≢ t)
masked a t s l h =
    let (x, y) = and_both a (bb_not (2 ^ t)) s h in
    (x, ground (arith, not_in (2 ^ t) s y l, test_bit-pow t s))

-- The right of the rook on `s`.
abbrev Right : Position → ℕ → Type 0
Right p s = test_bit p.castle_rooks s ≡ true

capture_on-Right :
    (p : Position) (to s : ℕ)
    → s < 64
    → Right (capture_on p to) s
    → Right p s × (pos_piece_on p to ≢ nb_piece → s ≢ to)
unfolding capture_on clear_square
capture_on-Right p to s l h = elim (Bool-cases (pos_piece_on p to == nb_piece)) [
  | inl t ↦ (ground arith, λ ne. absurd (ground arith))
  | inr t ↦ let (x, y) = masked p.castle_rooks to s l (ground arith) in (x, λ ne. y)
]

set_ep_square_rights :
    (p : Position) (us from to : ℕ) → (set_ep_square p us from to).castle_rooks ≡ p.castle_rooks
unfolding set_ep_square
set_ep_square_rights p us from to = ground arith

after_pawn_rights :
    (p : Position) (ep us from to prom : ℕ)
    → (after_pawn p ep us from to prom).castle_rooks ≡ p.castle_rooks
unfolding after_pawn clear_square set_square
after_pawn_rights p ep us from to prom =
    ground (arith, set_ep_square_rights (record p { rule50 = 0 }) us from to)

after_king_rights :
    (p : Position) (ours us from to : ℕ)
    → (after_king p ours us from to).castle_rooks
      ≡ bit_and p.castle_rooks (bb_not (rank_mask (us * 7)))
unfolding after_king clear_square set_square
after_king_rights p ours us from to = ground arith

move_any-Right :
    (before p : Position) (piece from to prom s : ℕ)
    → s < 64
    → before.turn < 2
    → Right (move_any before p piece from to prom) s
    → Right p s × (piece < 4 → s ≢ from) × (piece ≡ king → rank_of s ≢ before.turn * 7)
unfolding move_any move_piece clear_square set_square
move_any-Right before p piece from to prom s l hu h = elim (Bool-cases (leb piece queen)) [
  | inl t ↦
      let (x, y) = masked p.castle_rooks from s l (ground arith) in
      (x, (λ small. y), λ is_king. absurd (ground arith))
  | inr t ↦ elim (Bool-cases (piece == pawn)) [
    | inl t' ↦
        let moved = move_piece p before.turn piece from to in
        let e = after_pawn_rights moved before.ep_square before.turn from to prom in
        (ground arith, (λ small. absurd (ground arith)), λ is_king. absurd (ground arith))
    | inr t' ↦ elim (Bool-cases (piece == king)) [
      | inl t'' ↦
          let moved = move_piece p before.turn piece from to in
          let e = after_king_rights moved (before.by_color before.turn) before.turn from to in
          let h' : test_bit (bit_and p.castle_rooks (bb_not (rank_mask (before.turn * 7)))) s
              ≡ true =
            ground arith in
          let (x, y) = and_both p.castle_rooks (bb_not (rank_mask (before.turn * 7))) s h' in
          (
            x,
            (λ small. absurd (ground arith)),
            λ is_king. ground (
              arith,
              not_in (rank_mask (before.turn * 7)) s y l,
              test_bit-rank_mask (before.turn * 7) s,
            ),
          )
      | inr t'' ↦ (ground arith, (λ small. absurd (ground arith)), λ is_king. absurd (ground arith))
    ]
  ]
]

-- A double push of a pawn.
abbrev pub IsDouble : Position → ℕ → ℕ → ℕ → ℕ → Type 0
IsDouble before piece from to ep =
    (piece ≡ pawn)
    × (is_offset to from (double (push_inc before.turn)) ≡ true)
    × (ep ≡ offset from (push_inc before.turn) % 2 ^ 8)

set_ep_square-IsDouble :
    (before p : Position) (from to : ℕ)
    → ((set_ep_square p before.turn from to).ep_square ≡ p.ep_square)
      ⊎ IsDouble before pawn from to (set_ep_square p before.turn from to).ep_square
unfolding set_ep_square
set_ep_square-IsDouble before p from to = ground arith

after_pawn_ep :
    (p : Position) (ep us from to prom : ℕ)
    → (after_pawn p ep us from to prom).ep_square
      ≡ (set_ep_square (record p { rule50 = 0 }) us from to).ep_square
unfolding after_pawn clear_square set_square
after_pawn_ep p ep us from to prom = ground arith

after_king_ep :
    (p : Position) (ours us from to : ℕ) → (after_king p ours us from to).ep_square ≡ p.ep_square
unfolding after_king clear_square set_square
after_king_ep p ours us from to = ground arith

move_any-IsDouble :
    (before p : Position) (piece from to prom : ℕ)
    → ((move_any before p piece from to prom).ep_square ≡ p.ep_square)
      ⊎ IsDouble before piece from to (move_any before p piece from to prom).ep_square
unfolding move_any move_piece clear_square set_square
move_any-IsDouble before p piece from to prom = elim (Bool-cases (leb piece queen)) [
  | inl t ↦ rw t (inl refl)
  | inr t ↦ elim (Bool-cases (piece == pawn)) [
    | inl t' ↦
        let q = record (move_piece p before.turn piece from to) { rule50 = 0 } in
        ground (
          arith,
          after_pawn_ep (move_piece p before.turn piece from to) before.ep_square before.turn from
              to prom,
          set_ep_square-IsDouble before q from to,
        )
    | inr t' ↦
        rw (t, t')
          (inl (
            if_same (λ (q : Position). q.ep_square) (piece == king) _ _
              (after_king_ep _ (before.by_color before.turn) before.turn from to)))
  ]
]

capture_on_ep : (p : Position) (to : ℕ) → (capture_on p to).ep_square ≡ p.ep_square
unfolding capture_on clear_square
capture_on_ep p to = ground arith

-- The position that `pos_move` changes.
abbrev started : Position → Position
started p = record p { rule50 = (p.rule50 + 1) % 2 ^ 8; ep_square = nb_square }

same_piece : (p : Position) (s : ℕ) → pos_piece_on (started p) s ≡ pos_piece_on p s
unfolding pos_piece_on
same_piece p s = refl

-- After a move: a right that is left was there; it is not that of a man that was taken, that of a
-- rook that moved, or one of the side whose king moved. And the en passant square is none, or the
-- square that a pawn passed in a double push.
pub pos_move-rights :
    (p : Position) (m s : ℕ)
    → s < 64
    → p.turn < 2
    → Right (pos_move p m) s
    → Right p s
      × (pos_piece_on p (move_to m) ≢ nb_piece → s ≢ move_to m)
      × (pos_piece_on p (move_from m) < 4 → s ≢ move_from m)
      × (pos_piece_on p (move_from m) ≡ king → rank_of s ≢ p.turn * 7)
unfolding pos_move finish play end_turn
pos_move-rights p m s l hu h =
    let piece = pos_piece_on (started p) (move_from m) in
    let (x, far, other) =
      move_any-Right p (capture_on (started p) (move_to m)) piece (move_from m) (move_to m)
        (move_prom m) s l hu h in
    let (y, gone) = capture_on-Right (started p) (move_to m) s l x in
    (
      y,
      rw (← same_piece p (move_to m)) gone,
      rw (← same_piece p (move_from m)) far,
      rw (← same_piece p (move_from m)) other,
    )

pub pos_move-ep :
    (p : Position) (m : ℕ)
    → ((pos_move p m).ep_square ≡ nb_square)
      ⊎ IsDouble p (pos_piece_on p (move_from m)) (move_from m) (move_to m) (pos_move p m).ep_square
unfolding pos_move finish play end_turn
pos_move-ep p m =
    let piece = pos_piece_on (started p) (move_from m) in
    ground (
      arith,
      move_any-IsDouble p (capture_on (started p) (move_to m)) piece (move_from m) (move_to m)
          (move_prom m),
      capture_on_ep (started p) (move_to m),
      same_piece p (move_from m),
    )
