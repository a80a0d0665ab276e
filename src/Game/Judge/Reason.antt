-- ===== src/Game/Judge/Reason.antt =====
-- Why an answer ends a game (src/game.c).
use c_chess_cli.Common.{
  ℕ, ◌≡◌, ◌≢◌, refl, arith, Bool, true, false, ◌&&◌, ◌||◌, ◌==◌, Bool-cases, inl, inr,
}
use c_chess_cli.Common.Int.{ℤ, neg, is_neg}
use c_chess_cli.Options.{Options, EngineOptions}
use c_chess_cli.Game.{
  state_none, state_draw_adjudication, state_resign, state_time_loss, state_illegal_move,
}
use c_chess_cli.Game.Clock.{is_set}
use c_chess_cli.Game.Judge.{Counters, abs_ℤ, leℤb, count_draw, count_resign, judge_move}

-- The engine has a clock, and has overstepped it.
abbrev pub is_late : EngineOptions → ℤ → Bool
is_late eo time_left =
    (is_set eo.time || (is_set eo.increment || is_set eo.movetime)) && is_neg time_left

-- What each final state says of the answer: that there was none or a late one, that its move is
-- illegal, or that its score allows the adjudication, which its options ask for.
pub data Reason {D : Type 0} (o : Options D) (eo : EngineOptions) (score : ℤ)
    (answered illegal : Bool) (time_left : ℤ) (state : ℕ) : Type 0 where
  no_answer :
      answered ≡ false
      → state ≡ state_time_loss
      → Reason o eo score answered illegal time_left state
  illegal_answer :
      answered ≡ true
      → illegal ≡ true
      → state ≡ state_illegal_move
      → Reason o eo score answered illegal time_left state
  late :
      answered ≡ true
      → illegal ≡ false
      → is_late eo time_left ≡ true
      → state ≡ state_time_loss
      → Reason o eo score answered illegal time_left state
  drawn :
      answered ≡ true
      → illegal ≡ false
      → is_late eo time_left ≡ false
      → is_set o.draw_count ≡ true
      → leℤb (abs_ℤ score) o.draw_score ≡ true
      → state ≡ state_draw_adjudication
      → Reason o eo score answered illegal time_left state
  resigned :
      answered ≡ true
      → illegal ≡ false
      → is_late eo time_left ≡ false
      → is_set o.resign_count ≡ true
      → leℤb score (neg o.resign_score) ≡ true
      → state ≡ state_resign
      → Reason o eo score answered illegal time_left state

both_true : (a b : Bool) → (a && b) ≡ true → (a ≡ true) × (b ≡ true)
both_true a b h = ground arith

module _ {D : Type 0} (o : Options D) where
  count_draw_lem :
      (ply : ℕ) (score : ℤ) (c : Counters)
      → (count_draw o ply score c).0 ≢ state_none
      → (is_set o.draw_count ≡ true)
        × (leℤb (abs_ℤ score) o.draw_score ≡ true)
        × ((count_draw o ply score c).0 ≡ state_draw_adjudication)
  unfolding count_draw
  count_draw_lem ply score c h =
      elim (Bool-cases (is_set o.draw_count && leℤb (abs_ℤ score) o.draw_score)) [
        | inl t ↦ let (x, y) = both_true _ _ t in (x, y, ground arith)
        | inr t ↦ absurd (ground arith)
      ]

  count_resign_lem :
      (ply ei : ℕ) (score : ℤ) (c : Counters)
      → (count_resign o ply ei score c).0 ≢ state_none
      → (is_set o.resign_count ≡ true)
        × (leℤb score (neg o.resign_score) ≡ true)
        × ((count_resign o ply ei score c).0 ≡ state_resign)
  unfolding count_resign
  count_resign_lem ply ei score c h =
      elim (Bool-cases (is_set o.resign_count && leℤb score (neg o.resign_score))) [
        | inl t ↦ let (x, y) = both_true _ _ t in (x, y, ground arith)
        | inr t ↦ absurd (ground arith)
      ]

  pub judge_move-Reason :
      (eo : EngineOptions) (ply ei : ℕ) (score : ℤ) (answered illegal : Bool) (time_left : ℤ)
      (c : Counters)
      → (judge_move o eo ply ei score answered illegal time_left c).0 ≢ state_none
      → Reason o eo score answered illegal time_left
          (judge_move o eo ply ei score answered illegal time_left c).0
  unfolding judge_move
  judge_move-Reason eo ply ei score false illegal time_left c h = no_answer refl refl
  judge_move-Reason eo ply ei score true true time_left c h = illegal_answer refl refl refl
  judge_move-Reason eo ply ei score true false time_left c h =
      elim (Bool-cases (is_late eo time_left)) [
        | inl t ↦ late refl refl t (rw t refl)
        | inr t ↦ elim (Bool-cases ((count_draw o ply score c).0 == state_none)) [
          | inr u ↦
              let (x, y, z) = count_draw_lem ply score c (ground arith) in
              drawn refl refl t x y (rw (t, u) z)
          | inl u ↦
              let (x, y, z) =
                count_resign_lem ply ei score (count_draw o ply score c).1 (rw (t, u) at h) in
              resigned refl refl t x y (rw (t, u) z)
        ]
      ]
