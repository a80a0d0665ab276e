-- ===== src/Gen/Plays/Promotions.antt =====
-- The promotions.
use c_chess_cli.Common.{
  ℕ, ◌^◌, ◌<◌, ◌≡◌, ◌⊎◌, refl, sym, subst, ◌∙◌, arith, true, false, ◌==◌, List, [], ◌∷◌, All,
  All-mono, All-append, Bool-cases, bit_and, if_both, none, inl, inr,
}
use c_chess_cli.Common.Int.{offset}
use c_chess_cli.Bits.{test_bit, test_bit-above, lt_of_test_bit}
use c_chess_cli.Bitboard.Square.{
  knight, bishop, rook, queen, pawn, opposite, push_inc, rank_of, relative_rank,
}
use c_chess_cli.Bitboard.Word.{bb_not, bb_set, bb_test, squares}
use c_chess_cli.Bitboard.Word.Laws.{bb_test-test_bit, test_bit-bb_set}
use c_chess_cli.Bitboard.Word.Members.{IsIn, squares-IsIn, and_both, bit_and-lt, bit_and-lt_right}
use c_chess_cli.Bitboard.Ranks.{
  test_bit-rank_mask, relative_rank-lt, pawn_attacks-last, push-last, relative_rank_ends, last_near,
  offset_ranks, IsAhead,
}
use c_chess_cli.Bitboard.Move.{move_build}
use c_chess_cli.Bitboard.Attacks.Slider.{rank_mask}
use c_chess_cli.Bitboard.Attacks.Leaper.{pawn_attacks}
use c_chess_cli.Position.State.{Position, pos_pieces, pos_pieces_cp}
use c_chess_cli.Position.Board.{man, Board}
use c_chess_cli.Position.Board.Rules.{promotion, IsFree, moved}
use c_chess_cli.Gen.{Moves, pin_allows, promotion_targets, push_promotions, push_promoting}
use c_chess_cli.Position.Board.Rules.Goes.{
  pawn_push, pawn_capture, pawn_attacks_lem, push_file, last_push,
}
use c_chess_cli.Gen.Plays.{
  IsPlayable, MayGo, IsRuled, IsRuled-build, opposite-ne, opposite-lt, piece_of, pieces_cp-lt,
  color-lt, enemy_of, empty_of,
}
use c_chess_cli.Gen.Plays.Steps.{fourth-ne-ep}

-- Adding a square to a set that has it not.
IsIn-bb_set : (b s t : ℕ) → test_bit b s ≡ false → IsIn (bb_set b s) t → IsIn b t ⊎ (t ≡ s)
IsIn-bb_set b s t new (h, l) = elim (Bool-cases (t == s)) [
  | inl e ↦ inr (ground arith)
  | inr e ↦ inl (ground (arith, test_bit-bb_set b s t new), l)
]

bb_set-lt : (b s : ℕ) → test_bit b s ≡ false → b < 2 ^ 64 → s < 64 → bb_set b s < 2 ^ 64
bb_set-lt b s new h l =
    lt_of_test_bit 64 (bb_set b s)
      (λ i le. test_bit-bb_set b s i new ∙ ground (arith, test_bit-above 64 b i))

module _ {p : Position} {b : Board} (v : IsPlayable p b) where
  -- A pawn that is about to promote.
  record IsReady (s : ℕ) : Type 0 where
    here : b s ≡ man p.turn pawn
    below : s < 64
    on_seventh : rank_of s ≡ relative_rank p.turn 6

  -- Where it may go.
  record IsGoal (s t : ℕ) : Type 0 where
    free : IsFree b p.turn t
    below : t < 64
    on_last : rank_of t ≡ relative_rank p.turn 7
    goes : MayGo p b s t

  goal-IsRuled :
      (s t prom : ℕ) → IsReady s → IsGoal s t → prom < 4 → IsRuled p b (move_build s t prom)
  goal-IsRuled s t prom q g h =
      let here = q.here in
      let free = g.free in
      let goes = g.goes in
      let (last, far) = relative_rank_ends p.turn v.turn_lt in
      IsRuled-build p b s t prom (moved b s t (man p.turn prom)) q.below g.below (omega arith)
        (ground (arith, opposite-ne v))
        (λ is_pawn two. absurd (
          last_near p.turn s t v.turn_lt q.on_seventh g.on_last
            (offset_ranks p.turn s t v.turn_lt two)))
        goes
        (promotion here free (fourth-ne-ep v t g.below (λ e. far (sym g.on_last ∙ e)))
          (subst (λ (r : ℕ). (r ≡ 7) ⊎ (r ≡ 0)) (sym g.on_last) last) h refl)

  module _ (filter s : ℕ) (q : IsReady s) where
    abbrev captures : ℕ
    captures = bit_and (pawn_attacks p.turn s) (bit_and (p.by_color (opposite p.turn)) filter)

    abbrev ahead : ℕ
    ahead = offset s (push_inc p.turn)

    captures-lt : captures < 2 ^ 64
    captures-lt =
        bit_and-lt_right (pawn_attacks p.turn s) _
          (bit_and-lt _ filter (color-lt v (opposite p.turn) (opposite-lt v)))

    taken : (t : ℕ) → test_bit captures t ≡ true → (k : ℕ) × (b t ≡ man (opposite p.turn) k)
    taken t h =
        let (x, y) = and_both (pawn_attacks p.turn s) _ t h in
        enemy_of v t (and_both (p.by_color (opposite p.turn)) filter t y).0

    captures-IsGoal : (t : ℕ) → IsIn captures t → IsGoal s t
    captures-IsGoal t (h, l) =
        let here = q.here in
        let (k, e) = taken t h in
        let (x, y) = and_both (pawn_attacks p.turn s) _ t h in
        record {
          free = inr (k, e);
          below = l;
          on_last = pawn_attacks-last p.turn s t v.turn_lt q.below l q.on_seventh x;
          goes = pawn_capture here (inl (k, e)) (pawn_attacks_lem p.turn s t v.turn_lt q.below l x);
        }

    module _ (open_ahead : bb_test (bit_and filter (bb_not (pos_pieces p))) ahead ≡ true) where
      ahead-lt : (rank_of ahead ≡ relative_rank p.turn 7) × (ahead < 64)
      ahead-lt = push-last p.turn s v.turn_lt q.below q.on_seventh

      ahead_empty : b ahead ≡ none
      ahead_empty =
          let (x, y) =
            and_both filter (bb_not (pos_pieces p)) ahead
              (sym (bb_test-test_bit _ ahead) ∙ open_ahead) in
          empty_of v ahead y ahead-lt.1

      ahead_new : test_bit captures ahead ≡ false
      ahead_new = elim (Bool-cases (test_bit captures ahead)) [
        | inl t ↦ let (k, e) = taken ahead t in let empty = ahead_empty in absurd (ground arith)
        | inr t ↦ t
      ]

      step : IsAhead p.turn 1 s ahead
      step = last_push p.turn s v.turn_lt q.on_seventh ahead-lt.0

      pushed-IsGoal : (t : ℕ) → IsIn (bb_set captures ahead) t → IsGoal s t
      pushed-IsGoal t h = elim (IsIn-bb_set captures ahead t ahead_new h) [
        | inl old ↦ captures-IsGoal t old
        | inr e ↦ subst (IsGoal s) (sym e) (record {
          free = inl ahead_empty;
          below = ahead-lt.1;
          on_last = ahead-lt.0;
          goes = pawn_push q.here ahead_empty (push_file p.turn s v.turn_lt step) (inl step);
        })
      ]

    targets-IsGoal :
        (promotion_targets p filter s < 2 ^ 64)
        × ((t : ℕ) → IsIn (promotion_targets p filter s) t → IsGoal s t)
    unfolding promotion_targets
    targets-IsGoal = elim (Bool-cases (bb_test (bit_and filter (bb_not (pos_pieces p))) ahead)) [
      | inl t ↦
          rw t (bb_set-lt captures ahead (ahead_new t) captures-lt (ahead-lt t).1, pushed-IsGoal t)
      | inr t ↦ rw t (captures-lt, captures-IsGoal)
    ]

  push_promotions-All :
      (s : ℕ) (tos : List ℕ) (moves : Moves)
      → IsReady s
      → All (IsGoal s) tos
      → All (IsRuled p b) moves
      → All (IsRuled p b) (push_promotions p s tos moves)
  unfolding push_promotions
  push_promotions-All s [] moves q g h = h
  push_promotions-All s (t ∷ tos) moves q g h = push_promotions-All s tos _ q g.1 (
      if_both (All (IsRuled p b)) (pin_allows p.pins _ s t) _ moves
        (All-append (IsRuled p b) moves _ h (
          goal-IsRuled s t queen q g.0 (omega arith),
          (
            goal-IsRuled s t rook q g.0 (omega arith),
            (
              goal-IsRuled s t bishop q g.0 (omega arith),
              (goal-IsRuled s t knight q g.0 (omega arith), tt),
            ),
          ),
        ))
        h)

  push_promoting-All :
      (filter : ℕ) (froms : List ℕ) (moves : Moves)
      → All IsReady froms
      → All (IsRuled p b) moves
      → All (IsRuled p b) (push_promoting p filter froms moves)
  unfolding push_promoting
  push_promoting-All filter [] moves q h = h
  push_promoting-All filter (s ∷ froms) moves q h =
      let (l, goals) = targets-IsGoal filter s q.0 in
      push_promoting-All filter froms _ q.1 (
        push_promotions-All s (squares (promotion_targets p filter s)) moves q.0
          (All-mono (IsIn (promotion_targets p filter s)) (IsGoal s) _ goals (squares-IsIn _ l)) h)

  pub promoting-All :
      (filter : ℕ) (moves : Moves)
      → All (IsRuled p b) moves
      → All (IsRuled p b) (
          push_promoting p filter
            (squares (bit_and (pos_pieces_cp p p.turn pawn) (rank_mask (relative_rank p.turn 6))))
            moves)
  promoting-All filter moves h =
      let ready = bit_and (pos_pieces_cp p p.turn pawn) (rank_mask (relative_rank p.turn 6)) in
      push_promoting-All filter (squares ready) moves
        (All-mono (IsIn ready) IsReady (squares ready)
          (λ s t.
            let (x, y) =
              and_both (pos_pieces_cp p p.turn pawn) (rank_mask (relative_rank p.turn 6)) s t.0 in
            record {
              here = piece_of v p.turn pawn s v.turn_lt (omega arith) x;
              below = t.1;
              on_seventh = ground (
                arith,
                test_bit-rank_mask (relative_rank p.turn 6) s
                    (relative_rank-lt p.turn 6 v.turn_lt (omega arith)) t.1,
              );
            })
          (squares-IsIn ready (bit_and-lt _ _ (pieces_cp-lt v p.turn pawn v.turn_lt))))
        h
