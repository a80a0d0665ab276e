-- ===== src/Game/Play.antt =====
-- `game_init`, `game_load_fen` and `game_play` of src/game.c: the game between two engines, with the
-- number 0 and 1. Each has its lines, those that it will say and those that it was sent.
pub mod Turns
pub mod Legal
pub mod Ending
pub mod Chess
pub mod Result
use c_chess_cli.Common.{
  ℕ, zero, suc, ◌+◌, ◌-◌, bit_xor, Bool, true, false, not, ◌&&◌, ◌||◌, List, [], ◌∷◌, ◌++◌, Option,
  none, some, map, codes, length, ◌==◌, if◌then◌else◌, update,
}
use c_chess_cli.Common.Int.{ℤ, pos}
use c_chess_cli.Bitboard.Square.{white}
use c_chess_cli.Str.{Bytes}
use c_chess_cli.Libc.{Libc}
use c_chess_cli.Workers.{Worker}
use c_chess_cli.Options.{Options, EngineOptions}
use c_chess_cli.Engine.{Engine, Side, engine_writeln, engine_newgame, engine_sync}
use c_chess_cli.Engine.Info.{Info}
use c_chess_cli.Engine.Bestmove.{Answer, engine_bestmove}
use c_chess_cli.Position.State.{Position}
use c_chess_cli.Position.Fen.{pos_set}
use c_chess_cli.Position.Fen.Placement.{Outcome, ok, rejected, undefined}
use c_chess_cli.Position.Play.{pos_move}
use c_chess_cli.Gen.{gen_all_moves}
use c_chess_cli.Game.{
  state_none, game_apply_chess_rules, illegal_move, uci_position_command, white_result,
  sample_result, engine_result,
}
use c_chess_cli.Game.Clock.{prepare_time, uci_go_command}
use c_chess_cli.Game.Judge.{Counters, judge_move}
use c_chess_cli.Game.Sampling.{Sample, lan_move, resolve_pv, take_sample}

pub record Game : Type 0 where
  pub names : ℕ → Bytes
  pub vec_pos : ℕ → Position
  pub vec_info : List Info
  pub vec_samples : List Sample
  pub round : ℕ
  pub game : ℕ
  pub ply : ℕ
  pub state : ℕ

-- `(Position){0}`
abbrev pub zero_position : Position
zero_position = record {
  by_color = λ _. 0;
  by_piece = λ _. 0;
  castle_rooks = 0;
  key = 0;
  attacked = 0;
  checkers = 0;
  pins = 0;
  last_move = 0;
  full_move = 0;
  turn = 0;
  ep_square = 0;
  rule50 = 0;
  chess960 = false;
}

unfoldable pub game_init : ℕ → ℕ → Game
game_init round game = record {
  names = λ _. [];
  vec_pos = λ _. zero_position;
  vec_info = [];
  vec_samples = [];
  round = round;
  game = game;
  ply = 0;
  state = 0;
}

-- The color that moves first, if the position is accepted. None if the code reads out of bounds.
unfoldable pub game_load_fen : Game → Bytes → Option (Bool × (ℕ × Game))
game_load_fen g fen = elim (pos_set fen false) [
  | ok p ↦ some (true, (p.turn, record g { vec_pos = update g.vec_pos 0 p }))
  | rejected ↦ some (false, (0, g))
  | undefined ↦ none
]

-- The worker, and the two dialogues.
pub record Table : Type 0 where
  pub worker : Worker
  pub ticks : ℕ
  pub sent : ℕ → List Bytes
  pub lines : ℕ → List Bytes

abbrev pub side : Table → ℕ → Side
side t i = record { worker = t.worker; sent = t.sent i; ticks = t.ticks }

abbrev pub put_side : Table → ℕ → Side → Table
put_side t i s = record t { worker = s.worker; ticks = s.ticks; sent = update t.sent i s.sent }

abbrev pub put_lines : Table → ℕ → List Bytes → Table
put_lines t i lines = record t { lines = update t.lines i lines }

-- The variables of `game_play`.
pub record Playing : Type 0 where
  pub game : Game
  pub table : Table
  pub counters : Counters
  pub time_left : ℕ → ℤ
  pub best : Bytes
  pub ei : ℕ

-- What comes of a turn, or of all: the program may end, too.
pub data Turn : Type 0 where
  over : Playing → Turn
  goes_on : ℕ → Playing → Turn
  died : Turn
  out_of_fuel : Turn

abbrev pub no_info : Info
no_info = record { score = pos 0; depth = pos 0; time = pos 0 }

-- `if (played) pos_move(...)` into the position that was pushed.
unfoldable pub next_position : Position → ℕ → Position
next_position p played = if played == 0 then zero_position else pos_move p played

-- `ei = 1 - ei, g->ply++`, and the next position.
unfoldable pub next_turn : ℕ → Playing → Playing
unfolding next_position
next_turn played p =
    let g = p.game in
    record p {
      game = record g {
        ply = g.ply + 1;
        vec_pos = update g.vec_pos (g.ply + 1) (next_position (g.vec_pos g.ply) played);
      };
      ei = 1 - p.ei;
    }

-- The result of a sample, from that of white.
abbrev pub set_result : ℕ → Sample → Sample
set_result wpov s = record s { result = sample_result wpov s.position.turn }

module _ (c : Libc) (msec : ℕ → ℤ) (garbage : Position → Bytes → ℕ) (engines : ℕ → Engine) where
  open c use {Double, atoi}

  -- `engine_writeln(w, &engines[i], text)`
  unfoldable pub tell : ℕ → Bytes → Table → Table
  unfolding engine_writeln
  tell i text t = put_side t i (engine_writeln (engines i).name text (side t i))

  unfoldable pub sync : ℕ → Table → Option Table
  unfolding engine_sync
  sync i t = elim (engine_sync msec (engines i) (t.lines i) (side t i)) [
    | none ↦ none
    | some (lines, s) ↦ some (put_lines (put_side t i s) i lines)
  ]

  -- The preparation of engine `i` for a game.
  unfoldable pub set_up : Bool → ℕ → Table → Option Table
  unfolding tell sync engine_newgame
  set_up chess960 i t =
      let told =
        if chess960 then tell i (codes "setoption name UCI_Chess960 value true") t else t in
      if chess960 && not (engines i).support_chess960
      then none
      else sync i (put_side told i (engine_newgame msec (engines i) (side told i)))

  module _ (o : Options Double) (eo : ℕ → EngineOptions) where
    -- The two commands, and the answer.
    unfoldable pub ask_engine : Playing → Option (Answer × Playing)
    unfolding tell sync uci_position_command prepare_time uci_go_command engine_bestmove
    ask_engine p =
        let g = p.game in
        let i = p.ei in
        let turn = (g.vec_pos g.ply).turn in
        let time_left = update p.time_left i (prepare_time (eo i) g.ply (p.time_left i)) in
        elim (sync i (tell i (uci_position_command g.vec_pos g.ply) p.table)) [
          | none ↦ none
          | some t ↦
              let t' = tell i (uci_go_command eo i g.ply turn time_left) t in
              elim (engine_bestmove msec atoi (engines i) (time_left i) p.best no_info (t'.lines i)
                (side t' i)) [
                  | none ↦ none
                  | some (lines, a) ↦ some (
                    a,
                    record p {
                      game = record g { vec_info = g.vec_info ++ a.info ∷ [] };
                      table = put_lines (put_side t' i a.side) i lines;
                      time_left = update time_left i a.time_left;
                      best = a.best;
                    },
                  )
                ]
        ]

    -- The move of an answer, the state after it with the counters, and the resolved position with
    -- the worker.
    unfoldable pub played_move : Answer → Playing → ℕ
    played_move a p = lan_move garbage (p.game.vec_pos p.game.ply) a.best

    unfoldable pub verdict : Answer → Playing → ℕ × Counters
    unfolding played_move judge_move
    verdict a p =
        judge_move o (eo p.ei) p.game.ply p.ei a.info.score a.result
          (illegal_move (played_move a p) (gen_all_moves (p.game.vec_pos p.game.ply))) a.time_left
          p.counters

    unfoldable pub resolved : Answer → Playing → Position × Worker
    unfolding resolve_pv
    resolved a p = resolve_pv garbage p.table.worker (p.game.vec_pos p.game.ply) a.pv

    -- The variables after the `break` of an answer, and after its sample.
    unfoldable pub break_with : Answer → Playing → Playing
    unfolding verdict resolved
    break_with a p = record p {
      game = record (p.game) { state = (verdict a p).0 };
      table = record (p.table) { worker = (resolved a p).1 };
      counters = (verdict a p).1;
    }

    unfoldable pub sample_with : Position → Answer → Playing → Playing
    unfolding take_sample
    sample_with quiet a p =
        let g = p.game in
        let w = p.table.worker in
        let (samples, seed) =
          take_sample c o.sp a.info.score (g.vec_pos g.ply) quiet w.seed g.vec_samples in
        record p {
          game = record g { vec_samples = samples };
          table = record (p.table) { worker = record w { seed = seed } };
        }

    -- What is done with the answer.
    unfoldable pub take_answer : Answer → Playing → Turn
    unfolding played_move break_with sample_with
    take_answer a p =
        let p' : Playing = break_with a p in
        if p'.game.state == state_none
        then goes_on (played_move a p) (sample_with (resolved a p).0 a p')
        else over p'

    unfoldable pub play_turn : Playing → Turn
    unfolding game_apply_chess_rules ask_engine take_answer
    play_turn p =
        let g = p.game in
        let state = game_apply_chess_rules g.vec_pos g.ply in
        let asked : Turn = elim (ask_engine p) [ none ↦ died | some (a, p') ↦ take_answer a p' ] in
        if state == state_none then asked else over (record p { game = record g { state = state } })

    -- Each turn reads lines of an engine, so that their number and one are turns enough.
    unfoldable pub game_loop : ℕ → Playing → Turn
    unfolding play_turn next_turn
    game_loop zero p = out_of_fuel
    game_loop (suc fuel) p = elim (play_turn p) [
      | over p' ↦ over p'
      | goes_on played p' ↦ game_loop fuel (next_turn played p')
      | died ↦ died
      | out_of_fuel ↦ out_of_fuel
    ]

    -- The variables before the loop, and the names of the players by color.
    unfoldable pub start : Game → Table → Bool → Playing
    start g t reverse =
        let r : ℕ = if reverse then 1 else 0 in
        record {
          game = record g {
            names = λ color. (engines (bit_xor (bit_xor color (g.vec_pos 0).turn) r)).name;
            ply = 0;
          };
          table = t;
          counters = record { draw_plies = 0; resigns = λ _. 0 };
          time_left = λ i. (eo i).time;
          best = [];
          ei = r;
        }

    unfoldable pub finish_game : Playing → ℕ × Playing
    unfolding white_result sample_result engine_result
    finish_game p =
        let g = p.game in
        let wpov = white_result g.state (g.vec_pos g.ply).turn in
        (
          engine_result g.state p.ei,
          record p { game = record g { vec_samples = map (set_result wpov) g.vec_samples } },
        )

    -- The result for engine 0; none if the program ends, or the fuel does.
    unfoldable pub game_play : Game → Table → Bool → Option (ℕ × Playing)
    unfolding set_up game_loop start finish_game
    game_play g t reverse =
        let chess960 = (g.vec_pos 0).chess960 in
        elim (set_up chess960 0 t) [
          | none ↦ none
          | some t0 ↦ elim (set_up chess960 1 t0) [
            | none ↦ none
            | some t1 ↦
                elim (game_loop (length (t1.lines 0) + length (t1.lines 1) + 1)
                  (start g t1 reverse)) [
                    | over p ↦ some (finish_game p)
                    | goes_on played p ↦ none
                    | died ↦ none
                    | out_of_fuel ↦ none
                  ]
          ]
        ]
