-- ===== src/Main/Opening.antt =====
-- The choice of an opening by a worker.
use c_chess_cli.Common.{ℕ, zero, suc, ◌≡◌, refl, Bool, false, some}
use c_chess_cli.Str.{Bytes}
use c_chess_cli.Position.Fen.{pos_set}
use c_chess_cli.Position.Fen.Placement.{rejected}
use c_chess_cli.Game.Play.{Game, game_load_fen}
use c_chess_cli.Main.{opening_idx, opening_loop, out_of_fuel}

game_load_fen-rejected :
    (g : Game) (fen : Bytes)
    → pos_set fen false ≡ rejected
    → game_load_fen g fen ≡ some (false, (0, g))
unfolding game_load_fen
game_load_fen-rejected g fen h = rw (h, game_load_fen) refl

-- If the opening of a game is rejected, the loop of its worker never ends: each turn reads the same
-- opening again.
pub opening_loop-rejected :
    (openings : ℕ → Bytes) (repeat : Bool) (idx : ℕ) (g : Game) (fuel : ℕ)
    → pos_set (openings (opening_idx repeat idx)) false ≡ rejected
    → opening_loop fuel openings repeat idx g ≡ out_of_fuel
unfolding opening_loop
opening_loop-rejected openings repeat idx g zero h = refl
opening_loop-rejected openings repeat idx g (suc fuel) h =
    rw (game_load_fen-rejected g (openings (opening_idx repeat idx)) h, opening_loop)
      (opening_loop-rejected openings repeat idx g fuel h)
