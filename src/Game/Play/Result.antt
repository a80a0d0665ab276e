-- ===== src/Game/Play/Result.antt =====
-- The result that `game_play` returns is that of the color of the first engine.
use c_chess_cli.Common.{
  ℕ, zero, suc, ◌+◌, ◌-◌, ◌%◌, ◌<◌, ◌≡◌, refl, ap, subst, ◌∙◌, arith, Bool, true, false, ◌==◌, some,
  if◌then◌else◌, bit_xor,
}
use c_chess_cli.Common.Int.{ℤ}
use c_chess_cli.Str.{Bytes}
use c_chess_cli.Libc.{Libc}
use c_chess_cli.Options.{Options, EngineOptions}
use c_chess_cli.Engine.{Engine}
use c_chess_cli.Bitboard.Square.{white, black, opposite}
use c_chess_cli.Position.State.{Position}
use c_chess_cli.Position.Board.{Board}
use c_chess_cli.Gen.{gen_all_moves}
use c_chess_cli.Gen.Sound.{IsSound}
use c_chess_cli.Game.{illegal_move, white_result, engine_result}
use c_chess_cli.Game.Play.{Game, Table, Playing, next_turn, start, finish_game, game_play}
use c_chess_cli.Game.Play.Turns.{SameGame}
use c_chess_cli.Game.Play.Legal.{game_loop-inv, game_play-Ended}
use c_chess_cli.Game.Play.Chess.{IsChess, KeepsKings, game_play-IsChess}

xor_one : (t t0 n : ℕ) → t ≡ (t0 + n) % 2 → bit_xor t 1 ≡ (t0 + suc n) % 2
xor_one zero t0 n e = omega arith
xor_one (suc zero) t0 n e = omega arith
xor_one (suc (suc t)) t0 n e = absurd (omega arith)

-- The side to move after `n` moves of a game of chess.
turn_parity :
    (f : ℕ → Position) (n : ℕ) (b : Board)
    → (f 0).turn < 2
    → IsChess f n b
    → (f n).turn ≡ ((f 0).turn + n) % 2
unfolding opposite
turn_parity f zero b h c = omega arith
turn_parity f (suc n) b h (b', before, sound, turns, goes, calm, plays) =
    turns ∙ xor_one (f n).turn (f 0).turn n (turn_parity f n b' h before)

-- Which engine plays white.
abbrev pub white_engine : Position → Bool → ℕ
white_engine p0 reverse = bit_xor p0.turn (if reverse then 1 else 0)

abbrev number : Bool → ℕ
number reverse = if reverse then 1 else 0

-- The engine that has the turn has the number of the turn, if it is the first engine that plays
-- white.
result_of :
    (state t0 n turn ei : ℕ) (reverse : Bool)
    → t0 < 2
    → turn ≡ (t0 + n) % 2
    → ei ≡ (number reverse + n) % 2
    → engine_result state ei ≡ (
        if bit_xor t0 (number reverse) == 0
        then white_result state turn
        else 2 - white_result state turn)
unfolding engine_result white_result
result_of state zero n turn ei true h e e' = ground arith
result_of state zero n turn ei false h e e' = ground arith
result_of state (suc zero) n turn ei true h e e' = ground arith
result_of state (suc zero) n turn ei false h e e' = ground arith
result_of state (suc (suc t0)) n turn ei reverse h e e' = absurd (omega arith)

names_of :
    (t0 : ℕ) (reverse : Bool)
    → t0 < 2
    → (bit_xor (bit_xor 0 t0) (number reverse) ≡ bit_xor t0 (number reverse))
      × (bit_xor (bit_xor 1 t0) (number reverse) ≡ 1 - bit_xor t0 (number reverse))
names_of zero true h = (refl, refl)
names_of zero false h = (refl, refl)
names_of (suc zero) true h = (refl, refl)
names_of (suc zero) false h = (refl, refl)
names_of (suc (suc t0)) reverse h = absurd (omega arith)

module _ (c : Libc) (msec : ℕ → ℤ) (garbage : Position → Bytes → ℕ) (engines : ℕ → Engine)
    (o : Options c.Double) (eo : ℕ → EngineOptions) where
  -- The engine to move, and the names of the players.
  abbrev InStep : Game → Bool → Playing → Type 0
  InStep g reverse p =
      (p.ei ≡ (number reverse + p.game.ply) % 2)
      × (p.game.names
          ≡ (λ color. (engines (bit_xor (bit_xor color (g.vec_pos 0).turn) (number reverse))).name))

  next_turn-InStep :
      (g : Game) (reverse : Bool) (p p' : Playing) (m : ℕ)
      → InStep g reverse p
      → SameGame p p'
      → illegal_move m (gen_all_moves (p.game.vec_pos p.game.ply)) ≡ false
      → InStep g reverse (next_turn m p')
  unfolding next_turn
  next_turn-InStep g reverse p p' m (e, e') (v, l, n, same) legal = (omega arith, n ∙ e')

  SameGame-InStep :
      (g : Game) (reverse : Bool) (p p' : Playing)
      → InStep g reverse p
      → SameGame p p'
      → InStep g reverse p'
  SameGame-InStep g reverse p p' (e, e') (v, l, n, same) = (omega arith, n ∙ e')

  start-InStep :
      (g : Game) (t : Table) (reverse : Bool)
      → InStep g reverse (start c msec garbage engines o eo g t reverse)
  unfolding start
  start-InStep g t true = (refl, refl)
  start-InStep g t false = (refl, refl)

  finish_game-InStep :
      (g : Game) (reverse : Bool) (p : Playing)
      → InStep g reverse p
      → let (result, p') = finish_game c msec garbage engines o eo p in
        InStep g reverse p' × (result ≡ engine_result p'.game.state p'.ei)
  unfolding finish_game
  finish_game-InStep g reverse p in_step = (in_step, refl)

  game_play-InStep :
      (g : Game) (t : Table) (reverse : Bool) (result : ℕ) (p : Playing)
      → game_play c msec garbage engines o eo g t reverse ≡ some (result, p)
      → InStep g reverse p × (result ≡ engine_result p.game.state p.ei)
  game_play-InStep g t reverse result p h =
      let (fuel, t', q, e, f) =
        game_play-Ended c msec garbage engines o eo g t reverse result p h in
      let p0 = start c msec garbage engines o eo g t' reverse in
      let (in_step, ended, why) =
        game_loop-inv c msec garbage engines o eo (InStep g reverse) (next_turn-InStep g reverse)
          (SameGame-InStep g reverse) fuel p0 q (start-InStep g t' reverse) e in
      subst
        (λ (u : ℕ × Playing). InStep g reverse u.1 × (u.0 ≡ engine_result u.1.game.state u.1.ei)) f
        (finish_game-InStep g reverse q in_step)

  -- Let a game start in a sound position, be played to its end, and let no move go onto a king.
  -- Then the players have the names of the engines by their colors, the engine with the number
  -- `white_engine` being white; and the result that is returned is white's if the first engine
  -- played white, and else the opposite one.
  pub game_play-result :
      (g : Game) (t : Table) (reverse : Bool) (result : ℕ) (p : Playing) (b0 : Board)
      → game_play c msec garbage engines o eo g t reverse ≡ some (result, p)
      → IsSound (g.vec_pos 0) b0
      → KeepsKings p.game.vec_pos p.game.ply
      → (p.game.names white ≡ (engines (white_engine (g.vec_pos 0) reverse)).name)
        × (p.game.names black ≡ (engines (1 - white_engine (g.vec_pos 0) reverse)).name)
        × (result ≡ (
            if white_engine (g.vec_pos 0) reverse == 0
            then white_result p.game.state (p.game.vec_pos p.game.ply).turn
            else 2 - white_result p.game.state (p.game.vec_pos p.game.ply).turn))
  game_play-result g t reverse result p b0 h v k =
      let ((e, names), is_result) = game_play-InStep g t reverse result p h in
      let (first, (b, chess)) =
        game_play-IsChess c msec garbage engines o eo g t reverse result p b0 h v k in
      let t0 = (g.vec_pos 0).turn in
      let t0_lt = v.turn_lt in
      let first_turn = ap (λ (q : Position). q.turn) first in
      let parity = turn_parity p.game.vec_pos p.game.ply b (omega arith) chess in
      let (w, bl) = names_of t0 reverse t0_lt in
      (
        ap (λ (f : ℕ → Bytes). f white) names ∙ ap (λ (i : ℕ). (engines i).name) w,
        ap (λ (f : ℕ → Bytes). f black) names ∙ ap (λ (i : ℕ). (engines i).name) bl,
        is_result
            ∙ result_of p.game.state t0 p.game.ply (p.game.vec_pos p.game.ply).turn p.ei reverse
                t0_lt (parity ∙ ap (λ (x : ℕ). (x + p.game.ply) % 2) first_turn) e,
      )
