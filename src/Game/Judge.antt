-- ===== src/Game/Judge.antt =====
-- The judgement of an engine's move in the loop of `game_play` (src/game.c).
pub mod Reason
use c_chess_cli.Common.{ℕ, ◌+◌, ◌/◌, Bool, not, ◌&&◌, ◌||◌, ◌==◌, if◌then◌else◌, update}
use c_chess_cli.Common.Int.{ℤ, pos, negsuc, neg, double, ltℤb, is_neg}
use c_chess_cli.Options.{Options, EngineOptions}
use c_chess_cli.Game.{
  state_none, state_draw_adjudication, state_resign, state_time_loss, state_illegal_move,
}
use c_chess_cli.Game.Clock.{is_set}

-- `drawPlyCount` and `resignCount`.
pub record Counters : Type 0 where
  pub draw_plies : ℕ
  pub resigns : ℕ → ℕ

abbrev pub abs_ℤ : ℤ → ℤ
abs_ℤ (pos n) = pos n
abs_ℤ (negsuc n) = pos (n + 1)

-- `a <= b`
abbrev pub leℤb : ℤ → ℤ → Bool
leℤb a b = not (ltℤb b a)

module _ {D : Type 0} (o : Options D) where
  -- The draw adjudication of a move with a score.
  unfoldable pub count_draw : ℕ → ℤ → Counters → ℕ × Counters
  count_draw ply score c =
      let n = c.draw_plies + 1 in
      if is_set o.draw_count && leℤb (abs_ℤ score) o.draw_score
      then (
        if leℤb (double o.draw_count) (pos n) && leℤb o.draw_number (pos (ply / 2 + 1))
            then state_draw_adjudication
            else state_none,
        record c { draw_plies = n },
      )
      else (state_none, record c { draw_plies = 0 })

  -- The resignation of engine `ei`.
  unfoldable pub count_resign : ℕ → ℕ → ℤ → Counters → ℕ × Counters
  count_resign ply ei score c =
      let n = c.resigns ei + 1 in
      if is_set o.resign_count && leℤb score (neg o.resign_score)
      then (
        if leℤb o.resign_count (pos n) && leℤb o.resign_number (pos (ply / 2 + 1))
            then state_resign
            else state_none,
        record c { resigns = update c.resigns ei n },
      )
      else (state_none, record c { resigns = update c.resigns ei 0 })

  -- The state after an answer: whether it came, whether its move is illegal, and the time left.
  unfoldable pub judge_move : EngineOptions → ℕ → ℕ → ℤ → Bool → Bool → ℤ → Counters → ℕ × Counters
  unfolding count_draw count_resign
  judge_move eo ply ei score answered illegal time_left c =
      let drawn = count_draw ply score c in
      if not answered
      then (state_time_loss, c)
      else if illegal
      then (state_illegal_move, c)
      else if (is_set eo.time || (is_set eo.increment || is_set eo.movetime)) && is_neg time_left
      then (state_time_loss, c)
      else if not (drawn.0 == state_none)
      then drawn
      else count_resign ply ei score drawn.1
