-- ===== src/Gen/Sound.antt =====
-- The positions of a game are sound, and a generated move that takes no king leads from one to
-- another.
use c_chess_cli.Common.{
  ℕ, zero, suc, ◌*◌, ◌^◌, ◌≤◌, ◌<◌, ◌≡◌, ◌≢◌, ◌⊎◌, inl, inr, refl, sym, ap, subst, ◌∙◌, arith, true,
  false, ◌==◌, Bool-cases, none,
}
use c_chess_cli.Common.Int.{offset}
use c_chess_cli.Bits.{test_bit}
use c_chess_cli.Bitboard.Square.{
  king, pawn, rook, nb_square, opposite, push_inc, rank_of, branchless_color,
}
use c_chess_cli.Bitboard.Word.Members.{member-lt}
use c_chess_cli.Bitboard.Ranks.{double_lem, fifth_inside}
use c_chess_cli.Bitboard.Move.{move_from, move_to, move_prom}
use c_chess_cli.Position.State.{Position, pos_piece_on}
use c_chess_cli.Position.Board.{man, Board, IsConsistent, side_hash, has_color}
use c_chess_cli.Position.Board.Query.{piece_code, pos_piece_on-piece_code}
use c_chess_cli.Position.Board.Rules.{Plays}
use c_chess_cli.Position.Board.Rules.Keeps.{
  Plays-stays, landing, Plays-king, Plays-pawn, Plays-own, Plays-landing, Plays-pushed,
}
use c_chess_cli.Position.Play.{pos_move}
use c_chess_cli.Position.Play.Key.{pos_move-IsConsistent}
use c_chess_cli.Position.Play.Rights.{pos_move-rights, pos_move-ep}
use c_chess_cli.Gen.{gen_all_moves}
use c_chess_cli.Game.{illegal_move}
use c_chess_cli.Gen.Plays.{IsPassed, IsCalm, MayGo, IsPlayable}
use c_chess_cli.Gen.Plays.Generated.{legal-IsRuled}

-- The right to castle with the rook on `s`: the rook and its king stand on their first rank.
pub record HasRight (b : Board) (s : ℕ) : Type 0 where
  pub side : ℕ
  pub king_at : ℕ
  pub rook_here : b s ≡ man side rook
  pub rook_home : rank_of s ≡ side * 7
  pub king_here : b king_at ≡ man side king
  pub king_home : rank_of king_at ≡ side * 7

-- The position shows the board; each side has one king; no pawn is on the first or last rank; and
-- the en passant square and the castling rights make sense.
pub record IsSound (p : Position) (b : Board) : Type 0 where
  pub shown : IsConsistent p b
  pub turn_lt : p.turn < 2
  pub rooks_lt : p.castle_rooks < 2 ^ 64
  pub kings : (c : ℕ) → c < 2 → (k : ℕ) × (b k ≡ man c king)
  pub one_king : (c s t : ℕ) → b s ≡ man c king → b t ≡ man c king → s ≡ t
  pub pawns_inside : (s c : ℕ) → b s ≡ man c pawn → (rank_of s ≢ 0) × (rank_of s ≢ 7)
  pub passed : (p.ep_square ≡ nb_square) ⊎ IsPassed p.turn p.ep_square b
  pub rights : (s : ℕ) → test_bit p.castle_rooks s ≡ true → HasRight b s

own_right :
    (b : Board) (us s : ℕ)
    → ((s t : ℕ) → b s ≡ man us king → b t ≡ man us king → s ≡ t)
    → has_color (b s) us ≡ true
    → HasRight b s
    → (b s ≡ man us rook) × ((k : ℕ) → b k ≡ man us king → rank_of k ≡ rank_of s)
own_right b us s one own r =
    let rook_here = r.rook_here in
    let king_here = r.king_here in
    let same : r.side ≡ us = ground arith in
    let king_there : b r.king_at ≡ man us king = ground arith in
    (ground arith, λ k e. ap rank_of (one k r.king_at e king_there) ∙ r.king_home ∙ sym r.rook_home)

pub IsSound-IsPlayable : {p : Position} {b : Board} → IsSound p b → IsPlayable p b
IsSound-IsPlayable {p} {b} v =
    let (k, e) = v.kings p.turn v.turn_lt in
    record {
      shown = v.shown;
      turn_lt = v.turn_lt;
      rooks_lt = v.rooks_lt;
      king_at = k;
      king_here = e;
      pawns_inside = v.pawns_inside;
      passed = v.passed;
      castle_rook = λ s h own. own_right b p.turn s (v.one_king p.turn) own (v.rights s h);
    }

opposite_twice : (us : ℕ) → us < 2 → opposite (opposite us) ≡ us
unfolding opposite
opposite_twice zero h = refl
opposite_twice (suc zero) h = refl
opposite_twice (suc (suc us)) h = absurd (omega arith)

-- One move that takes no king.
module _ {p : Position} {b b' : Board} (m : ℕ) (v : IsSound p b)
    (calm : IsCalm b p.turn (move_from m) (move_to m))
    (plays : Plays b p.turn p.ep_square (move_from m) (move_to m) (move_prom m) b')
    (kept : pos_piece_on p (move_to m) ≢ king) where
  code : (s : ℕ) → pos_piece_on p s ≡ piece_code (b s)
  code s = pos_piece_on-piece_code (side_hash p.turn p.castle_rooks p.ep_square) p b s v.shown

  ne_king : (c : ℕ) → b (move_to m) ≢ man c king
  ne_king c e = kept (code (move_to m) ∙ ap piece_code e)

  new_king : (c k : ℕ) → b k ≡ man c king → (k' : ℕ) × (b' k' ≡ man c king)
  new_king c k e = elim (Bool-cases (k == move_from m)) [
    | inl t ↦
        let (j, own) = Plays-own plays in
        let (same, moves) : (c ≡ p.turn) × (b (move_from m) ≡ man p.turn king) = ground arith in
        (
          landing plays,
          subst (λ (d : ℕ). b' (landing plays) ≡ man d king) (sym same) (Plays-landing plays moves),
        )
    | inr t ↦ (
      k,
      Plays-stays plays k c king e (ground arith) (ground arith)
          (λ at. ne_king c (sym (ap b at) ∙ e)),
    )
  ]

  new_one_king : (c s t : ℕ) → b' s ≡ man c king → b' t ≡ man c king → s ≡ t
  new_one_king c s t h h' =
      let x = Plays-king plays s c h in
      let y = Plays-king plays t c h' in
      ground (arith, v.one_king c s t, v.one_king c s (move_from m), v.one_king c t (move_from m))

  new_pawns_inside :
      (shown : (s : ℕ) → 64 ≤ s → b' s ≡ none) (s c : ℕ)
      → b' s ≡ man c pawn
      → (rank_of s ≢ 0) × (rank_of s ≢ 7)
  new_pawns_inside within s c h = elim (Plays-pawn plays s c h) [
    | inl old ↦ v.pawns_inside s c old
    | inr (inl inside) ↦ (inside.1, inside.0)
    | inr (inr at_ep) ↦ elim (v.passed) [
      | inl none_there ↦ absurd (ground (arith, within s))
      | inr there ↦ fifth_inside p.turn s v.turn_lt (ap rank_of at_ep ∙ there.on_rank)
    ]
  ]

  new_passed :
      (turn : (pos_move p m).turn ≡ opposite p.turn)
      → ((pos_move p m).ep_square ≡ nb_square)
        ⊎ IsPassed (pos_move p m).turn (pos_move p m).ep_square b'
  new_passed turn = elim (pos_move-ep p m) [
    | inl no_ep ↦ inl no_ep
    | inr (is_pawn, two, e) ↦
        let (j, own) = Plays-own plays in
        let pawn_here : b (move_from m) ≡ man p.turn pawn = ground (arith, code (move_from m)) in
        let (vacant, second) = calm pawn_here two in
        let (on_board, on_rank, back, nf, nt, n7, n0) =
          double_lem p.turn (move_from m) (move_to m) v.turn_lt second two in
        let (pushed, still) = Plays-pushed plays pawn_here n7 n0 in
        let at : (pos_move p m).ep_square ≡ offset (move_from m) (push_inc p.turn) =
          omega (arith, e, on_board) in
        let twice : opposite (opposite p.turn) ≡ p.turn = opposite_twice p.turn v.turn_lt in
        inr (
          subst (λ (u : ℕ). IsPassed u (pos_move p m).ep_square b') (sym turn)
            (subst (λ (q : ℕ). IsPassed (opposite p.turn) q b') (sym at)
              (record {
                on_board = on_board;
                empty = still (offset (move_from m) (push_inc p.turn)) vacant nt;
                on_rank = on_rank;
                behind = ap b' back ∙ pushed ∙ ap (λ (u : ℕ). man u pawn) (sym twice);
              })))
  ]

  new_rights :
      (pos_move p m).castle_rooks ≤ p.castle_rooks
      → (s : ℕ) → test_bit (pos_move p m).castle_rooks s ≡ true
      → HasRight b' s
  new_rights fewer s h =
      let v' = v.rooks_lt in
      let l = member-lt (pos_move p m).castle_rooks s (omega (arith, fewer, v')) h in
      let (old, gone, far, other) = pos_move-rights p m s l v.turn_lt h in
      let r = v.rights s old in
      let rook_here = r.rook_here in
      let king_here = r.king_here in
      let rook_home = r.rook_home in
      let ne_to : s ≢ move_to m = λ at. gone (ground (arith, code (move_to m))) at in
      let ne_from : s ≢ move_from m = λ at. far (ground (arith, code (move_from m))) at in
      let king_ne_to : r.king_at ≢ move_to m = λ at. ne_king r.side (sym (ap b at) ∙ king_here) in
      let (j, own) = Plays-own plays in
      let king_ne_from : r.king_at ≢ move_from m = λ at.
        let king_moves : b (move_from m) ≡ man r.side king = sym (ap b at) ∙ king_here in
        other (code (move_from m) ∙ ap piece_code king_moves) (ground arith) in
      record {
        side = r.side;
        king_at = r.king_at;
        rook_here = Plays-stays plays s r.side rook rook_here (omega arith) ne_from ne_to;
        rook_home = rook_home;
        king_here =
            Plays-stays plays r.king_at r.side king king_here (omega arith) king_ne_from king_ne_to;
        king_home = r.king_home;
      }

-- Let a position be sound and show a board. A move that the game accepts, and that does not take a
-- king, starts on a man of the side to move that may go so: a knight or king by its step in ranks
-- and files, a bishop, rook or queen to a square that the attack table of src/bitboard.c has for
-- the occupied squares, a pawn straight ahead to an empty square or askew onto an enemy's man or
-- the en passant square, a king onto an own rook to castle; and a pawn's double push passes an
-- empty square from its second rank. The board changes by `Plays`, and the position after the move
-- is sound again and shows the changed board: its key hashes the state, each side has one king, no
-- pawn stands on the first or last rank, the en passant square is one that a pawn has just passed
-- in a double push, and each castling right has its rook and its king at home. Whether the king is
-- left in check is not part of this.
pub pos_move-IsSound :
    (p : Position) (b : Board) (m : ℕ)
    → IsSound p b
    → illegal_move m (gen_all_moves p) ≡ false
    → pos_piece_on p (move_to m) ≢ king
    → (move_from m ≢ move_to m)
      × MayGo p b (move_from m) (move_to m)
      × IsCalm b p.turn (move_from m) (move_to m)
      × ((b' : Board) × Plays b p.turn p.ep_square (move_from m) (move_to m) (move_prom m) b'
          × IsSound (pos_move p m) b')
pos_move-IsSound p b m v legal kept =
    let (apart, calm, goes, (b', plays)) = legal-IsRuled p b m (IsSound-IsPlayable v) legal in
    let (shown, turn, fewer, kept_rights) =
      pos_move-IsConsistent p b b' m v.shown v.turn_lt v.rooks_lt apart plays in
    let turn' = turn ∙ sym (branchless_color p.turn 0 v.turn_lt (omega arith)).0 in
    let before_lt = v.rooks_lt in
    let before_turn = v.turn_lt in
    (
      apart,
      goes,
      calm,
      (
        b',
        plays,
        record {
          shown = shown;
          turn_lt = ground (arith, branchless_color p.turn 0);
          rooks_lt = omega (arith, fewer, before_lt);
          kings = λ c h. let (k, e) = v.kings c h in new_king m v calm plays kept c k e;
          one_king = new_one_king m v calm plays kept;
          pawns_inside = new_pawns_inside m v calm plays kept shown.within;
          passed = new_passed m v calm plays kept turn';
          rights = new_rights m v calm plays kept fewer;
        },
      ),
    )
