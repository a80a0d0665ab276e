-- ===== src/Gen/Plays/Pieces.antt =====
-- The moves of knights, bishops, rooks, queens and the king.
use c_chess_cli.Common.{
  ℕ, ◌^◌, ◌<◌, ◌≡◌, ◌⊎◌, inl, inr, refl, arith, Bool, true, false, List, [], ◌∷◌, All, All-mono,
  bit_and, if◌then◌else◌, if_both,
}
use c_chess_cli.Bits.{test_bit}
use c_chess_cli.Bitboard.Square.{knight, bishop, rook, queen, king, nb_piece}
use c_chess_cli.Bitboard.Word.{bb_not, bb_test, squares}
use c_chess_cli.Bitboard.Word.Members.{IsIn, squares-IsIn, and_both, bit_and-lt, bit_and-lt_right}
use c_chess_cli.Bitboard.Move.{move_build}
use c_chess_cli.Bitboard.Attacks.Leaper.{ray, king_attacks, knight_attacks}
use c_chess_cli.Bitboard.Attacks.Slider.{bb_rook_attacks, bb_bishop_attacks}
use c_chess_cli.Position.State.{
  Position, pos_pieces, pos_pieces_cp, pos_pieces_cpp, pos_king_square,
}
use c_chess_cli.Position.Board.{man, Board}
use c_chess_cli.Position.Board.Rules.{officer, king_step, IsFree, moved}
use c_chess_cli.Position.Board.Rules.Goes.{
  knight_step, king_step as king_goes, bishop_line, rook_line, knight_attacks_lem, king_attacks_lem,
}
use c_chess_cli.Gen.{Moves, serialize_piece_moves, push_pieces, gen_piece_moves}
use c_chess_cli.Gen.Plays.{
  IsPlayable, MayGo, IsRuled, IsRuled-build, push_targets-All, opposite-ne, piece_of, either_of,
  pieces_cp-lt, pieces_cpp-lt, own_king,
}

-- A set that fits 64 bits and has free squares only.
abbrev pub IsFilter : Position → Board → ℕ → Type 0
IsFilter p b filter =
    (filter < 2 ^ 64) × ((s : ℕ) → test_bit filter s ≡ true → s < 64 → IsFree b p.turn s)

pub IsFilter-and :
    (p : Position) (b : Board) (x filter : ℕ)
    → IsFilter p b filter
    → IsFilter p b (bit_and filter x)
IsFilter-and p b x filter (l, f) = (bit_and-lt filter x l, λ s t. f s (and_both filter x s t).0)

pub IsFilter-and_right :
    (p : Position) (b : Board) (x filter : ℕ)
    → IsFilter p b filter
    → IsFilter p b (bit_and x filter)
IsFilter-and_right p b x filter (l, f) =
    (bit_and-lt_right x filter l, λ s t. f s (and_both x filter s t).1)

-- The squares of a set that are on a ray are among the set.
on_ray :
    (pinned : Bool) (targets r to : ℕ)
    → test_bit (if pinned then bit_and targets r else targets) to ≡ true
    → test_bit targets to ≡ true
on_ray true targets r to h = (and_both targets r to h).0
on_ray false targets r to h = h

module _ {p : Position} {b : Board} (v : IsPlayable p b) where
  -- A piece that is no pawn goes to a free square.
  step-IsRuled :
      (from to k : ℕ)
      → (k < 4) ⊎ (k ≡ king)
      → from < 64
      → to < 64
      → b from ≡ man p.turn k
      → IsFree b p.turn to
      → MayGo p b from to
      → IsRuled p b (move_build from to nb_piece)
  step-IsRuled from to k (inl small) hf ht e free goes =
      IsRuled-build p b from to nb_piece (moved b from to (man p.turn k)) hf ht (omega arith)
        (ground (arith, opposite-ne v)) (λ is_pawn. absurd (ground arith)) goes
        (officer k small e free refl)
  step-IsRuled from to k (inr is_king) hf ht e free goes =
      IsRuled-build p b from to nb_piece (moved b from to (man p.turn king)) hf ht (omega arith)
        (ground (arith, opposite-ne v)) (λ is_pawn. absurd (ground arith)) goes
        (king_step (ground arith) free refl)

  pub serialize_piece_moves-All :
      (from king_sq targets k : ℕ) (moves : Moves)
      → (k < 4) ⊎ (k ≡ king)
      → from < 64
      → b from ≡ man p.turn k
      → IsFilter p b targets
      → ((to : ℕ) → test_bit targets to ≡ true → to < 64 → MayGo p b from to)
      → All (IsRuled p b) moves
      → All (IsRuled p b) (serialize_piece_moves from p.pins king_sq targets moves)
  unfolding serialize_piece_moves
  serialize_piece_moves-All from king_sq targets k moves hk hf e filter goes h =
      let to_set = if bb_test p.pins from then bit_and targets (ray king_sq from) else targets in
      let (l, f) =
        if_both (IsFilter p b) (bb_test p.pins from) (bit_and targets (ray king_sq from)) targets
          (IsFilter-and p b (ray king_sq from) targets filter) filter in
      push_targets-All p b from nb_piece (squares to_set) moves
        (All-mono (IsIn to_set) (λ to. IsRuled p b (move_build from to nb_piece)) (squares to_set)
          (λ to t.
            step-IsRuled from to k hk hf t.1 e (f to t.0 t.1)
              (goes to (on_ray (bb_test p.pins from) targets (ray king_sq from) to t.0) t.1))
          (squares-IsIn to_set l))
        h

  -- Where the pieces of a loop stand, and how they go.
  abbrev IsOfficer : (ℕ → ℕ) → ℕ → Type 0
  IsOfficer attacks from =
      (from < 64)
      × ((k : ℕ) × (k < 4) × (b from ≡ man p.turn k))
      × ((to : ℕ) → test_bit (attacks from) to ≡ true → to < 64 → MayGo p b from to)

  push_pieces-All :
      (attacks : ℕ → ℕ) (filter : ℕ) (froms : List ℕ) (moves : Moves)
      → ((s : ℕ) → IsFilter p b (bit_and (attacks s) filter))
      → All (IsOfficer attacks) froms
      → All (IsRuled p b) moves
      → All (IsRuled p b) (push_pieces p attacks filter froms moves)
  unfolding push_pieces
  push_pieces-All attacks filter [] moves f o h = h
  push_pieces-All attacks filter (from ∷ froms) moves f ((l, (k, small, e), goes), o) h =
      push_pieces-All attacks filter froms _ f o (
        serialize_piece_moves-All from (pos_king_square p p.turn) (bit_and (attacks from) filter) k
          moves (inl small) l e (f from) (λ to t. goes to (and_both (attacks from) filter to t).0)
          h)

  knights : All (IsOfficer knight_attacks) (squares (pos_pieces_cp p p.turn knight))
  knights =
      let here = pos_pieces_cp p p.turn knight in
      All-mono (IsIn here) (IsOfficer knight_attacks) (squares here)
        (λ s t.
          let e = piece_of v p.turn knight s v.turn_lt (omega arith) t.0 in
          (
            t.1,
            (knight, omega arith, e),
            λ to h l. knight_step e (knight_attacks_lem s to t.1 l h),
          ))
        (squares-IsIn here (pieces_cp-lt v p.turn knight v.turn_lt))

  either-IsOfficer :
      (attacks : ℕ → ℕ) (s k k' : ℕ)
      → k < 4
      → k' < 4
      → s < 64
      → (b s ≡ man p.turn k) ⊎ (b s ≡ man p.turn k')
      → ((to : ℕ) → test_bit (attacks s) to ≡ true → to < 64 → MayGo p b s to)
      → IsOfficer attacks s
  either-IsOfficer attacks s k k' h h' l (inl e) goes = (l, (k, h, e), goes)
  either-IsOfficer attacks s k k' h h' l (inr e) goes = (l, (k', h', e), goes)

  sliders :
      (attacks : ℕ → ℕ) (k k' : ℕ)
      → k < 4
      → k' < 4
      → ((s to : ℕ)
          → (b s ≡ man p.turn k) ⊎ (b s ≡ man p.turn k')
          → test_bit (attacks s) to ≡ true
          → MayGo p b s to)
      → All (IsOfficer attacks) (squares (pos_pieces_cpp p p.turn k k'))
  sliders attacks k k' h h' goes =
      All-mono (IsIn (pos_pieces_cpp p p.turn k k')) (IsOfficer attacks)
        (squares (pos_pieces_cpp p p.turn k k'))
        (λ s t.
          let e = either_of v p.turn k k' s v.turn_lt (omega arith) (omega arith) t.0 in
          either-IsOfficer attacks s k k' h h' t.1 e (λ to u l. goes s to e u))
        (squares-IsIn (pos_pieces_cpp p p.turn k k') (pieces_cpp-lt v p.turn k k' v.turn_lt))

  pub king_moves-All :
      (filter : ℕ) (moves : Moves)
      → IsFilter p b filter
      → All (IsRuled p b) moves
      → All (IsRuled p b) (
          serialize_piece_moves
            (pos_king_square p p.turn)
            p.pins
            (pos_king_square p p.turn)
            (bit_and (bit_and (king_attacks (pos_king_square p p.turn)) filter) (bb_not p.attacked))
            moves)
  king_moves-All filter moves f h =
      let from = pos_king_square p p.turn in
      let near = bit_and (king_attacks from) filter in
      serialize_piece_moves-All from from (bit_and near (bb_not p.attacked)) king moves (inr refl)
        (own_king v).1 (own_king v).0
        (IsFilter-and p b (bb_not p.attacked) near
          (IsFilter-and_right p b (king_attacks from) filter f))
        (λ to t l. king_goes (own_king v).0 (
          king_attacks_lem from to (own_king v).1 l
            (and_both (king_attacks from) filter to (and_both near (bb_not p.attacked) to t).0).0))
        h

  pub gen_piece_moves-All :
      (filter : ℕ) (moves : Moves) (king_moves : Bool)
      → IsFilter p b filter
      → All (IsRuled p b) moves
      → All (IsRuled p b) (gen_piece_moves p moves filter king_moves)
  unfolding gen_piece_moves
  gen_piece_moves-All filter moves king_moves f h =
      let narrow = λ (attacks : ℕ → ℕ) (s : ℕ). IsFilter-and_right p b (attacks s) filter f in
      let rooks = λ (s : ℕ). bb_rook_attacks s (pos_pieces p) in
      let bishops = λ (s : ℕ). bb_bishop_attacks s (pos_pieces p) in
      push_pieces-All bishops filter _ _ (narrow bishops)
        (sliders bishops bishop queen (omega arith) (omega arith) (λ s to. bishop_line))
        (push_pieces-All rooks filter _ _ (narrow rooks)
          (sliders rooks rook queen (omega arith) (omega arith) (λ s to. rook_line))
          (push_pieces-All knight_attacks filter _ _ (narrow knight_attacks) knights
            (if_both (All (IsRuled p b)) king_moves _ moves (king_moves-All filter moves f h) h)))
