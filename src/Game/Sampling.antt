-- ===== src/Game/Sampling.antt =====
-- The samples of src/game.c: mate scores, the position that a variation leads to, and the choice of
-- a sample. `garbage` is what `pos_lan_to_move` makes of a text that is no move.
use c_chess_cli.Common.{
  ℕ, zero, suc, ◌+◌, Bool, false, not, ◌&&◌, ◌||◌, List, [], ◌∷◌, ◌++◌, Option, none, some, codes,
  length, ◌==◌, if◌then◌else◌,
}
use c_chess_cli.Common.Int.{ℤ, pos, negsuc, neg, ltℤb}
use c_chess_cli.Str.{Bytes, str_tok}
use c_chess_cli.Util.{prng_bits}
use c_chess_cli.Libc.{Libc}
use c_chess_cli.Workers.{Worker, write_log}
use c_chess_cli.Options.{SampleParams}
use c_chess_cli.Position.State.{Position, pos_move_is_tactical}
use c_chess_cli.Position.Notation.{pos_lan_to_move}
use c_chess_cli.Position.Play.{pos_move}
use c_chess_cli.Gen.{gen_all_moves}
use c_chess_cli.Game.{illegal_move}

unfoldable pub is_mating : ℤ → Bool
is_mating score = ltℤb (pos 31743) score

unfoldable pub is_mated : ℤ → Bool
is_mated score = ltℤb score (negsuc 31743)

unfoldable pub is_mate : ℤ → Bool
unfolding is_mating is_mated
is_mate score = is_mating score || is_mated score

-- `result` is 3 until the game is over.
pub record Sample : Type 0 where
  pub position : Position
  pub score : ℤ
  pub result : ℕ

module _ (garbage : Position → Bytes → ℕ) where
  abbrev pub lan_move : Position → Bytes → ℕ
  lan_move p lan = elim (pos_lan_to_move p lan) [ none ↦ garbage p lan | some m ↦ m ]

  -- The loop over the moves of a variation from `p`, with the last position that was not in check.
  -- Each turn takes a token, so that the length of the text is enough.
  unfoldable pub resolve_loop : ℕ → Option Bytes → Position → Position → Worker → Position × Worker
  unfolding write_log illegal_move
  resolve_loop zero pv p resolved w = (resolved, w)
  resolve_loop (suc fuel) pv p resolved w = elim ((str_tok pv [] (codes " ")).0) [
    | none ↦ (resolved, w)
    | some tail ↦
        let token = (str_tok pv [] (codes " ")).1 in
        let m = lan_move p token in
        let next = pos_move p m in
        let rest =
          resolve_loop fuel (some tail) next (if next.checkers == 0 then next else resolved) w in
        if not (pos_move_is_tactical p m)
        then (resolved, w)
        else if illegal_move m (gen_all_moves p)
        then (
          resolved,
          write_log w (codes "WARNING: illegal move in PV '" ++ token ++ tail ++ codes "'\n"),
        )
        else rest
  ]

  unfoldable pub resolve_pv : Worker → Position → Bytes → Position × Worker
  unfolding resolve_loop
  resolve_pv w here pv = resolve_loop (length pv + 1) (some pv) here here w

module _ (c : Libc) where
  open c use {Double, of_int, mul, minus, exp, le, atof}

  -- `prngf`
  unfoldable pub prngf : ℕ → Double × ℕ
  unfolding prng_bits
  prngf seed =
      let (r, seed') = prng_bits seed in (mul (of_int (pos r)) (atof (codes "0x1.0p-53")), seed')

  -- The test before a sample is taken, and the seed after it.
  unfoldable pub is_sampled : SampleParams Double → ℤ → ℕ → ℕ → Bool × ℕ
  unfolding prngf is_mate
  is_sampled sp score rule50 seed =
      let (r, seed') = prngf seed in
      if length sp.file_name == 0 || (sp.resolve && is_mate score)
      then (false, seed)
      else (le r (mul sp.freq (exp (mul (minus sp.decay) (of_int (pos rule50))))), seed')

  -- The samples after a move in the position `here`, whose variation leads to `resolved`. The code
  -- reads `sample.pos.turn` in the initializer of `sample`; here it is the turn of the position that
  -- the initializer gives.
  unfoldable pub take_sample :
      SampleParams Double → ℤ → Position → Position → ℕ → List Sample → List Sample × ℕ
  unfolding is_sampled
  take_sample sp score here resolved seed samples =
      let (chosen, seed') = is_sampled sp score here.rule50 seed in
      let position = if sp.resolve then resolved else here in
      let sample : Sample = record {
        position = position;
        score = if position.turn == here.turn then score else neg score;
        result = 3;
      } in
      (
        if chosen && (not sp.resolve || (position.checkers == 0))
            then samples ++ sample ∷ []
            else samples,
        seed',
      )
