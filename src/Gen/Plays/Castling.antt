-- ===== src/Gen/Plays/Castling.antt =====
-- The castling moves: `can_castle` leaves no man on the squares where the king and the rook land.
use c_chess_cli.Common.{
  ℕ, ◌<◌, ◌≡◌, ◌≢◌, refl, sym, ap, subst, ◌∙◌, arith, Bool, true, ◌&&◌, ◌==◌, List, [], ◌∷◌, ◌++◌,
  All, All-mono, All-append, Bool-cases, ltb, bit_and, bit_or, ◌⊎◌, if◌then◌else◌, holds_below,
  holds_below_sound, none, inl, inr,
}
use c_chess_cli.Bits.{test_bit, test_bit-and, test_bit-or}
use c_chess_cli.Bitboard.Square.{
  king, rook, nb_piece, square_from, rank_of, file_of, square_from-rank_of-file_of,
}
use c_chess_cli.Bitboard.Word.{bb_count, squares}
use c_chess_cli.Bitboard.Word.Members.{IsIn, squares-IsIn, and_both, bit_and-lt, only_two}
use c_chess_cli.Bitboard.Move.{move_build}
use c_chess_cli.Bitboard.Attacks.Leaper.{segment}
use c_chess_cli.Position.State.{Position, pos_pieces, pos_king_square}
use c_chess_cli.Position.Board.{man, Board}
use c_chess_cli.Position.Board.Rules.{castling, moved, castled_king, castled_rook}
use c_chess_cli.Position.Board.Rules.Goes.{castling as castling_goes}
use c_chess_cli.Gen.{Moves, can_castle, push_castling, gen_castling_moves}
use c_chess_cli.Gen.Plays.{IsPlayable, IsRuled, IsRuled-build, own_king, occupied}

-- A segment along a rank holds its two ends.
ends_table :
    holds_below 8 (λ r. holds_below 8 (λ f. holds_below 8 (λ g.
      test_bit (segment (square_from r f) (square_from r g)) (square_from r f)
      && test_bit (segment (square_from r f) (square_from r g)) (square_from r g))))
    ≡ true
unfolding holds_below segment test_bit square_from
ends_table = refl

both : (x y : Bool) → (x && y) ≡ true → (x ≡ true) × (y ≡ true)
both x y h = ground arith

ends :
    (s t : ℕ)
    → s < 64
    → t < 64
    → rank_of s ≡ rank_of t
    → (test_bit (segment s t) s ≡ true) × (test_bit (segment s t) t ≡ true)
ends s t hs ht e =
    let (a, b, c, rs, fs, s') = square_from-rank_of-file_of 0 0 s (omega arith) (omega arith) hs in
    let (a', b', c', rt, ft, t') =
      square_from-rank_of-file_of 0 0 t (omega arith) (omega arith) ht in
    let row = holds_below_sound 8 _ (rank_of s) ends_table rs in
    let cell = holds_below_sound 8 _ (file_of t) (holds_below_sound 8 _ (file_of s) row fs) ft in
    let t'' : square_from (rank_of s) (file_of t) ≡ t =
      ap (λ (r : ℕ). square_from r (file_of t)) e ∙ t' in
    both _ _ (
      subst (λ (u : ℕ). (test_bit (segment s u) s && test_bit (segment s u) u) ≡ true) t''
        (subst
          (λ (u : ℕ).
            (test_bit (segment u (square_from (rank_of s) (file_of t))) u
              && test_bit (segment u (square_from (rank_of s) (file_of t)))
                  (square_from (rank_of s) (file_of t)))
            ≡ true)
          s' cell))

module _ {p : Position} {b : Board} (v : IsPlayable p b) (king_sq rook_sq : ℕ)
    (king_here : b king_sq ≡ man p.turn king) (rook_here : b rook_sq ≡ man p.turn rook)
    (king_lt : king_sq < 64) (rook_lt : rook_sq < 64)
    (same : rank_of king_sq ≡ rank_of rook_sq) where
  held : (s : ℕ) → b s ≢ none → test_bit (pos_pieces p) s ≡ true
  held s h = elim (Bool-cases (test_bit (pos_pieces p) s)) [
    | inl t ↦ t
    | inr t ↦ absurd (h (occupied v s t))
  ]

  abbrev kto : ℕ
  kto = castled_king king_sq rook_sq

  abbrev rto : ℕ
  rto = castled_rook king_sq rook_sq

  landing_lt :
      (kto < 64) × (rto < 64) × (rank_of king_sq ≡ rank_of kto) × (rank_of rook_sq ≡ rank_of rto)
  unfolding rank_of square_from
  landing_lt = elim (Bool-cases (ltb king_sq rook_sq)) [
    | inl t ↦ rw t (omega arith, omega arith, omega arith, omega arith)
    | inr t ↦ rw t (omega arith, omega arith, omega arith, omega arith)
  ]

  abbrev between : ℕ
  between = bit_and (bit_or (segment king_sq kto) (segment rook_sq rto)) (pos_pieces p)

  can_castle-between : can_castle p king_sq rook_sq ≡ true → (bb_count between == 2) ≡ true
  unfolding can_castle
  can_castle-between h =
      subst
        (λ (r : ℕ).
          (bb_count (
              bit_and
                (bit_or (segment king_sq (square_from r (if ltb king_sq rook_sq then 6 else 2)))
                  (segment rook_sq (square_from r (if ltb king_sq rook_sq then 5 else 3))))
                (pos_pieces p))
            == 2)
          ≡ true)
        (sym same) (both _ _ h).0

  in_between :
      (s : ℕ)
      → (test_bit (segment king_sq kto) s ≡ true) ⊎ (test_bit (segment rook_sq rto) s ≡ true)
      → test_bit between s ≡ test_bit (pos_pieces p) s
  in_between s h = ground (
    arith,
    test_bit-and (bit_or (segment king_sq kto) (segment rook_sq rto)) (pos_pieces p) s,
    test_bit-or (segment king_sq kto) (segment rook_sq rto) s,
  )

  -- A landing square is empty but for the two.
  landing_empty :
      (s : ℕ)
      → can_castle p king_sq rook_sq ≡ true
      → (test_bit (segment king_sq kto) s ≡ true) ⊎ (test_bit (segment rook_sq rto) s ≡ true)
      → s < 64
      → moved b king_sq rook_sq none s ≡ none
  landing_empty s can on l = elim (Bool-cases (s == king_sq)) [
    | inl t ↦ ground arith
    | inr t ↦ elim (Bool-cases (s == rook_sq)) [
      | inl t' ↦ ground arith
      | inr t' ↦
          let k_end = ends king_sq kto king_lt landing_lt.0 landing_lt.2 in
          let r_end = ends rook_sq rto rook_lt landing_lt.1 landing_lt.3 in
          let k_in = in_between king_sq (inl k_end.0) ∙ held king_sq (ground arith) in
          let r_in = in_between rook_sq (inr r_end.0) ∙ held rook_sq (ground arith) in
          let out =
            only_two between king_sq rook_sq s (can_castle-between can) (k_in, king_lt)
              (r_in, rook_lt) (ground arith) (ground arith) (ground arith) l in
          let nobody = occupied v s (sym (in_between s on) ∙ out) in ground arith
    ]
  ]

  castling-IsRuled :
      can_castle p king_sq rook_sq ≡ true → IsRuled p b (move_build king_sq rook_sq nb_piece)
  castling-IsRuled can =
      let k_end = ends king_sq kto king_lt landing_lt.0 landing_lt.2 in
      let r_end = ends rook_sq rto rook_lt landing_lt.1 landing_lt.3 in
      IsRuled-build p b king_sq rook_sq nb_piece _ king_lt rook_lt (omega arith) (ground arith)
        (λ is_pawn. absurd (ground arith)) (castling_goes king_here rook_here)
        (castling king_here rook_here (landing_empty kto can (inl k_end.1) landing_lt.0)
          (landing_empty rto can (inr r_end.1) landing_lt.1) landing_lt.0 landing_lt.1 refl)

module _ {p : Position} {b : Board} (v : IsPlayable p b) where
  push_castling-All :
      (rooks : List ℕ) (moves : Moves)
      → All
          (λ s.
            (s < 64) × ((b s ≡ man p.turn rook) × (rank_of (pos_king_square p p.turn) ≡ rank_of s)))
          rooks
      → All (IsRuled p b) moves
      → All (IsRuled p b) (push_castling p (pos_king_square p p.turn) rooks moves)
  unfolding push_castling
  push_castling-All [] moves h k = k
  push_castling-All (s ∷ rooks) moves ((l, (e, same)), h) k =
      elim (Bool-cases (can_castle p (pos_king_square p p.turn) s)) [
        | inl can ↦ rw can (
            push_castling-All rooks (moves ++ move_build (pos_king_square p p.turn) s nb_piece ∷ [])
              h
              (All-append (IsRuled p b) moves _ k (
                castling-IsRuled v (pos_king_square p p.turn) s (own_king v).0 e (own_king v).1 l
                    same can,
                tt,
              )))
        | inr can ↦ rw can (push_castling-All rooks moves h k)
      ]

  pub gen_castling_moves-All :
      (moves : Moves) → All (IsRuled p b) moves → All (IsRuled p b) (gen_castling_moves p moves)
  unfolding gen_castling_moves
  gen_castling_moves-All moves h =
      let own = bit_and p.castle_rooks (p.by_color p.turn) in
      push_castling-All (squares own) moves
        (All-mono (IsIn own)
          (λ s.
            (s < 64) × ((b s ≡ man p.turn rook) × (rank_of (pos_king_square p p.turn) ≡ rank_of s)))
          (squares own)
          (λ s t.
            let (x, y) = and_both p.castle_rooks (p.by_color p.turn) s t.0 in
            let (e, same) = v.castle_rook s x (sym (v.shown.colors p.turn s v.turn_lt) ∙ y) in
            (t.1, (e, same (pos_king_square p p.turn) (own_king v).0)))
          (squares-IsIn own (bit_and-lt p.castle_rooks (p.by_color p.turn) v.rooks_lt)))
        h
