-- ===== src/Gen/Plays.antt =====
-- What a position needs, for its generated moves to be those of men on the board, and what the sets of
-- the position say of its board.
pub mod Pieces
pub mod Pawns
pub mod Steps
pub mod Promotions
pub mod Castling
pub mod Generated
use c_chess_cli.Common.{
  ℕ, zero, suc, ◌+◌, ◌-◌, ◌*◌, ◌/◌, ◌%◌, ◌^◌, ◌≤◌, ◌<◌, ◌≡◌, ◌≢◌, ◌⊎◌, inl, inr, refl, sym, ap, ap₂,
  subst, ◌∙◌, arith, Bool, true, false, List, [], ◌∷◌, ◌++◌, All, All-append, ◌==◌, ltb, Bool-cases,
  Option, none, some, bit_and, bit_or,
}
use c_chess_cli.Common.Int.{neg, double, offset, is_offset}
use c_chess_cli.Bits.{test_bit, test_bit-and, test_bit-zero, test_bit-or, lt_of_test_bit}
use c_chess_cli.Bitboard.Square.{
  king, pawn, rook, nb_square, opposite, push_inc, rank_of, relative_rank, branchless_color,
}
use c_chess_cli.Bitboard.Word.{bb_test, bb_not}
use c_chess_cli.Bitboard.Word.Laws.{bb_test-test_bit, test_bit-not}
use c_chess_cli.Bitboard.Word.Count.{bb_lsb-bb_msb}
use c_chess_cli.Bitboard.Word.Members.{IsIn, not_in, and_both, bit_and-lt, member-lt}
use c_chess_cli.Bitboard.Move.{
  move_build, move_from, move_to, move_prom, move_from-move_to-move_prom-move_build,
}
use c_chess_cli.Position.State.{
  Position, pos_pieces, pos_pieces_cp, pos_pieces_cpp, pos_king_square,
}
use c_chess_cli.Position.Board.{
  Man, man, Board, Shows, IsConsistent, has_color, has_piece, IsMan, side_hash,
}
use c_chess_cli.Position.Board.Rules.{Plays, IsFree}
use c_chess_cli.Position.Board.Rules.Goes.{Goes}
use c_chess_cli.Gen.{Moves, push_targets}

-- An en passant square: it is empty, and an enemy pawn has just passed it.
pub record IsPassed (us ep : ℕ) (b : Board) : Type 0 where
  pub on_board : ep < 64
  pub empty : b ep ≡ none
  pub on_rank : rank_of ep ≡ relative_rank us 5
  pub behind : b (offset ep (neg (push_inc us))) ≡ man (opposite us) pawn

-- The position shows the board, and has what the checks of `pos_set` ask for: a king of the side
-- to move, no pawn on the first or last rank, and an en passant square and castling rooks that make
-- sense.
pub record IsPlayable (p : Position) (b : Board) : Type 0 where
  pub shown : IsConsistent p b
  pub turn_lt : p.turn < 2
  pub rooks_lt : p.castle_rooks < 2 ^ 64
  pub king_at : ℕ
  pub king_here : b king_at ≡ man p.turn king
  pub pawns_inside : (s c : ℕ) → b s ≡ man c pawn → (rank_of s ≢ 0) × (rank_of s ≢ 7)
  pub passed : (p.ep_square ≡ nb_square) ⊎ IsPassed p.turn p.ep_square b
  pub castle_rook :
      (s : ℕ)
      → test_bit p.castle_rooks s ≡ true
      → has_color (b s) p.turn ≡ true
      → (b s ≡ man p.turn rook) × ((k : ℕ) → b k ≡ man p.turn king → rank_of k ≡ rank_of s)

-- A pawn goes two ranks only from its second one, over an empty square.
abbrev pub IsCalm : Board → ℕ → ℕ → ℕ → Type 0
IsCalm b us from to =
    b from ≡ man us pawn
    → is_offset to from (double (push_inc us)) ≡ true
    → (b (offset from (push_inc us)) ≡ none) × (rank_of from ≡ relative_rank us 1)

-- A man goes as it may on the board, with the occupied squares of the position.
abbrev pub MayGo : Position → Board → ℕ → ℕ → Type 0
MayGo p b = Goes b (pos_pieces p) p.turn p.ep_square

-- A move: the man goes as it may, and `Plays` changes the board.
abbrev pub IsRuled : Position → Board → ℕ → Type 0
IsRuled p b m =
    (move_from m ≢ move_to m)
    × IsCalm b p.turn (move_from m) (move_to m)
    × MayGo p b (move_from m) (move_to m)
    × ((b' : Board) × Plays b p.turn p.ep_square (move_from m) (move_to m) (move_prom m) b')

man_of : (x : Option Man) (c k : ℕ) → has_color x c ≡ true → has_piece x k ≡ true → x ≡ man c k
man_of none c k h h' = cc
man_of (some m) c k h h' = ground arith

free_man :
    (x : Option Man) (us them : ℕ)
    → us < 2
    → them < 2
    → them ≢ us
    → IsMan x
    → has_color x us ≡ false
    → (x ≡ none) ⊎ ((k : ℕ) × (x ≡ man them k))
free_man none us them h h' ne i c = inl refl
free_man (some m) us them h h' ne i c = inr (m.piece, ground arith)

enemy_man : (x : Option Man) (c : ℕ) → has_color x c ≡ true → (k : ℕ) × (x ≡ man c k)
enemy_man none c h = cc
enemy_man (some m) c h = (m.piece, ground arith)

some_bit : (a i : ℕ) → test_bit a i ≡ true → 0 < a
some_bit a i h = ground (arith, test_bit-zero i)

no_man : (x : Option Man) → IsMan x → has_color x 0 ≡ false → has_color x 1 ≡ false → x ≡ none
no_man none i h h' = refl
no_man (some m) i h h' = absurd (ground arith)

module _ {p : Position} {b : Board} (v : IsPlayable p b) where
  open v use {shown, turn_lt, king_at, king_here}

  pub opposite-lt : opposite p.turn < 2
  opposite-lt = ground (arith, branchless_color p.turn 0)

  pub opposite-ne : opposite p.turn ≢ p.turn
  opposite-ne = ground (arith, branchless_color p.turn 0)

  pub color-lt : (c : ℕ) → c < 2 → p.by_color c < 2 ^ 64
  color-lt c h =
      lt_of_test_bit 64 (p.by_color c)
        (λ i le. shown.colors c i h ∙ ap (λ x. has_color x c) (shown.within i le))

  pub pos_pieces-lt : pos_pieces p < 2 ^ 64
  unfolding pos_pieces
  pos_pieces-lt = lt_of_test_bit 64 (bit_or (p.by_color 0) (p.by_color 1)) λ i le. ground (
    arith,
    test_bit-or (p.by_color 0) (p.by_color 1) i,
    shown.colors 0 i,
    shown.colors 1 i,
    shown.within i,
  )

  pub piece_of :
      (c k s : ℕ) → c < 2 → k < 6 → test_bit (pos_pieces_cp p c k) s ≡ true → b s ≡ man c k
  unfolding pos_pieces_cp
  piece_of c k s hc hk h =
      let (x, y) = and_both (p.by_color c) (p.by_piece k) s h in
      man_of (b s) c k (sym (shown.colors c s hc) ∙ x) (sym (shown.pieces k s hk) ∙ y)

  pub either_of :
      (c k k' s : ℕ)
      → c < 2
      → k < 6
      → k' < 6
      → test_bit (pos_pieces_cpp p c k k') s ≡ true
      → (b s ≡ man c k) ⊎ (b s ≡ man c k')
  unfolding pos_pieces_cpp
  either_of c k k' s hc hk hk' h =
      let (x, y) = and_both (p.by_color c) (bit_or (p.by_piece k) (p.by_piece k')) s h in
      let x' = sym (shown.colors c s hc) ∙ x in
      elim (Bool-cases (test_bit (p.by_piece k) s)) [
        | inl t ↦ inl (man_of (b s) c k x' (sym (shown.pieces k s hk) ∙ t))
        | inr t ↦ inr (
            man_of (b s) c k' x' (
              sym (shown.pieces k' s hk')
              ∙ ground (arith, test_bit-or (p.by_piece k) (p.by_piece k') s)))
      ]

  pub pieces_cp-lt : (c k : ℕ) → c < 2 → pos_pieces_cp p c k < 2 ^ 64
  unfolding pos_pieces_cp
  pieces_cp-lt c k h = bit_and-lt (p.by_color c) (p.by_piece k) (color-lt c h)

  pub pieces_cpp-lt : (c k k' : ℕ) → c < 2 → pos_pieces_cpp p c k k' < 2 ^ 64
  unfolding pos_pieces_cpp
  pieces_cpp-lt c k k' h =
      bit_and-lt (p.by_color c) (bit_or (p.by_piece k) (p.by_piece k')) (color-lt c h)

  -- A square off the own set is free.
  pub IsFree-of :
      (s : ℕ) → test_bit (bb_not (p.by_color p.turn)) s ≡ true → s < 64 → IsFree b p.turn s
  IsFree-of s h l =
      free_man (b s) p.turn (opposite p.turn) turn_lt opposite-lt opposite-ne (shown.men s)
        (sym (shown.colors p.turn s turn_lt) ∙ not_in _ s h l)

  -- A square of the enemy's set.
  pub enemy_of :
      (s : ℕ)
      → test_bit (p.by_color (opposite p.turn)) s ≡ true
      → (k : ℕ) × (b s ≡ man (opposite p.turn) k)
  enemy_of s h = enemy_man (b s) (opposite p.turn) (sym (shown.colors _ s opposite-lt) ∙ h)

  pub occupied : (s : ℕ) → test_bit (pos_pieces p) s ≡ false → b s ≡ none
  unfolding pos_pieces
  occupied s h =
      no_man (b s) (shown.men s)
        (sym (shown.colors 0 s (omega arith))
          ∙ ground (arith, test_bit-or (p.by_color 0) (p.by_color 1) s))
        (sym (shown.colors 1 s (omega arith))
          ∙ ground (arith, test_bit-or (p.by_color 0) (p.by_color 1) s))

  -- A square of the board off the set of all pieces is empty.
  pub empty_of : (s : ℕ) → test_bit (bb_not (pos_pieces p)) s ≡ true → s < 64 → b s ≡ none
  empty_of s h l = occupied s (not_in _ s h l)

  holds_king : test_bit (pos_pieces_cp p p.turn king) king_at ≡ true
  unfolding pos_pieces_cp
  holds_king = ground (
    arith,
    test_bit-and (p.by_color p.turn) (p.by_piece king) king_at,
    shown.colors p.turn king_at turn_lt,
    shown.pieces king king_at,
  )

  -- The king.
  pub own_king : (b (pos_king_square p p.turn) ≡ man p.turn king) × (pos_king_square p p.turn < 64)
  unfolding pos_king_square
  own_king =
      let held : test_bit (pos_pieces_cp p p.turn king) king_at ≡ true = holds_king in
      let (found, first, on_board, rest, rest', rest'') =
        bb_lsb-bb_msb (pos_pieces_cp p p.turn king) (some_bit _ king_at held)
          (pieces_cp-lt p.turn king turn_lt) in
      (
        piece_of p.turn king (pos_king_square p p.turn) turn_lt (omega arith)
            (sym (bb_test-test_bit _ _) ∙ found),
        on_board,
      )

-- Such moves are pushed behind others.
module _ (p : Position) (b : Board) where
  pub IsRuled-build :
      (from to prom : ℕ) (b' : Board)
      → from < 64
      → to < 64
      → prom < 16
      → from ≢ to
      → IsCalm b p.turn from to
      → MayGo p b from to
      → Plays b p.turn p.ep_square from to prom b'
      → IsRuled p b (move_build from to prom)
  IsRuled-build from to prom b' hf ht hp apart calm goes plays =
      let (ef, et, ep) = move_from-move_to-move_prom-move_build from to prom hf ht hp in
      rw (ef, et, ep) (apart, calm, goes, (b', plays))

  pub push_targets-All :
      (from prom : ℕ) (tos : List ℕ) (moves : Moves)
      → All (λ to. IsRuled p b (move_build from to prom)) tos
      → All (IsRuled p b) moves
      → All (IsRuled p b) (push_targets from prom tos moves)
  unfolding push_targets
  push_targets-All from prom [] moves h k = k
  push_targets-All from prom (to ∷ tos) moves h k =
      push_targets-All from prom tos (moves ++ move_build from to prom ∷ []) h.1
        (All-append (IsRuled p b) moves (move_build from to prom ∷ []) k (h.0, tt))
