-- ===== src/Game/Outcome.antt =====
-- The results that the game loop, the samples and the PGN file give agree.
use c_chess_cli.Common.{ℕ, ◌-◌, ◌≤◌, ◌<◌, ◌≡◌, ◌≢◌, arith, ◌==◌, if◌then◌else◌}
use c_chess_cli.Bitboard.Square.{white}
use c_chess_cli.Game.{
  state_none, white_result, sample_result, engine_result, decode_result, white_won, black_won,
  drawn_game, result_loss, result_win,
}

-- In every state up to the last one but `state_none`: the text of the result says who won as the
-- signed result does; a sample with white to move has that result, and the samples of the two sides
-- have opposite ones; and the result for the first engine is white's if the engine with the move
-- and the side with the move have the same number, and else the opposite one.
pub decode_result-white_result :
    (state turn ei : ℕ)
    → state ≢ state_none
    → state ≤ 10
    → turn < 2
    → ei < 2
    → (decode_result state turn ≡ (
        if white_result state turn == result_win
        then white_won
        else if white_result state turn == result_loss
        then black_won
        else drawn_game))
      × (sample_result (white_result state turn) white ≡ white_result state turn)
      × (sample_result (white_result state turn) (1 - turn)
          ≡ 2 - sample_result (white_result state turn) turn)
      × (engine_result state ei
          ≡ (if ei == turn then white_result state turn else 2 - white_result state turn))
unfolding decode_result white_result sample_result engine_result
decode_result-white_result state turn ei h l t e = ground arith
