-- ===== src/Sprt.antt =====
-- src/sprt.h and src/sprt.c: the sequential probability ratio test, over the operations of `double`.
-- What `sprt_done` prints is left out.
use c_chess_cli.Common.{ℕ, ◌+◌, Bool, true, false, ◌&&◌, not, ◌==◌, ltb, if◌then◌else◌}
use c_chess_cli.Common.Int.{pos}
use c_chess_cli.Game.{result_loss, result_draw, result_win}
use c_chess_cli.Libc.{Libc}

pub record SprtParam (D : Type 0) : Type 0 where
  pub elo0 : D
  pub elo1 : D
  pub alpha : D
  pub beta : D

abbrev to_bit : Bool → ℕ
to_bit b = if b then 1 else 0

module _ (c : Libc) where
  open c use {Double, of_int, add, sub, mul, div, minus, exp, log, lt, atof}

  abbrev num : ℕ → Double
  num n = of_int (pos n)

  unfoldable pub elo_to_score : Double → Double
  elo_to_score elo =
      div (num 1) (add (num 1) (exp (div (mul (minus elo) (log (num 10))) (num 400))))

  unfoldable pub sprt_llr : (ℕ → ℕ) → Double → Double → Double
  unfolding elo_to_score
  sprt_llr wld_count elo0 elo1 =
      let total = wld_count result_win + wld_count result_loss + wld_count result_draw in
      let n = num total in
      let w = div (num (wld_count result_win)) n in
      let l = div (num (wld_count result_loss)) n in
      let d = sub (sub (num 1) w) l in
      let s = add w (div d (num 2)) in
      let variance = sub (add w (div d (num 4))) (mul s s) in
      let s0 = elo_to_score elo0 in
      let s1 = elo_to_score elo1 in
      if ltb
        (to_bit (not (wld_count 0 == 0))
          + to_bit (not (wld_count 1 == 0))
          + to_bit (not (wld_count 2 == 0)))
        2
      then num 0
      else div (mul (sub s1 s0) (sub (sub (mul (num 2) s) s0) s1)) (div (mul (num 2) variance) n)

  unfoldable pub sprt_validate : SprtParam Double → Bool
  sprt_validate sp =
      lt (num 0) sp.alpha
      && (lt sp.alpha (num 1) && (lt (num 0) sp.beta && (lt sp.beta (num 1) && lt sp.elo0 sp.elo1)))

  unfoldable pub sprt_done : (ℕ → ℕ) → SprtParam Double → Bool
  unfolding sprt_llr
  sprt_done wld_count sp =
      let lbound = log (div sp.beta (sub (num 1) sp.alpha)) in
      let ubound = log (div (sub (num 1) sp.beta) sp.alpha) in
      let llr = sprt_llr wld_count sp.elo0 sp.elo1 in
      if lt ubound llr then true else if lt llr lbound then true else false
