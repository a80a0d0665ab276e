-- ===== src/Engine.antt =====
-- src/engine.h and src/engine.c: the UCI dialogue with an engine. What `str_getline` will read
-- from the engine is a list of lines, and the lines written to it are collected. `msec` is
-- `system_msec`, as a function of the number of times that it was called before, and `atoi` the C
-- library's function. A result none means that the code ends the program (`DIE`).
pub mod Command
pub mod Info
pub mod Bestmove
use c_chess_cli.Common.{
  ℕ, ◌+◌, Bool, true, false, ◌||◌, List, [], ◌∷◌, ◌++◌, Option, none, some, codes, str_eq, length,
  ◌==◌, if◌then◌else◌,
}
use c_chess_cli.Common.Int.{ℤ}
use c_chess_cli.Str.{Bytes, skip, str_prefix, str_tok_esc}
use c_chess_cli.Workers.{Worker, deadline_set, deadline_clear, write_log}

-- The process and its pipes are left out, but that `in` is not NULL once the engine has started.
pub record Engine : Type 0 where
  pub name : Bytes
  pub time_out : ℤ
  pub support_chess960 : Bool
  pub started : Bool

-- This side of the dialogue: the worker, the lines sent, and the number of readings of the clock.
pub record Side : Type 0 where
  pub worker : Worker
  pub sent : List Bytes
  pub ticks : ℕ

-- What `engine_readln` does with the line that it read.
unfoldable pub engine_readln : Bytes → Bytes → Side → Side
engine_readln name line s = record s {
  worker = write_log s.worker (name ++ codes " -> " ++ line ++ codes "\n");
}

unfoldable pub engine_writeln : Bytes → Bytes → Side → Side
engine_writeln name buf s = record s {
  worker = write_log s.worker (name ++ codes " <- " ++ buf ++ codes "\n");
  sent = s.sent ++ buf ∷ [];
}

-- The lines up to one that passes a test are read.
unfoldable pub read_until : (Bytes → Bool) → Bytes → List Bytes → Side → Option (List Bytes × Side)
unfolding engine_readln
read_until last name [] s = none
read_until last name (line ∷ lines) s = elim (last line) [
  | true ↦ some (lines, engine_readln name line s)
  | false ↦ read_until last name lines (engine_readln name line s)
]

-- What a line says of the engine, if no name was given.
unfoldable pub identify : Bool → Bytes → Engine → Engine
identify unnamed line e =
    let named : Engine = elim (if unnamed then str_prefix line (codes "id name ") else none) [
      | none ↦ e
      | some tail ↦ record e { name = skip (codes " ") tail }
    ] in
    elim (str_prefix line (codes "option name UCI_Chess960 ")) [
      | none ↦ named
      | some tail ↦ record named { support_chess960 = true }
    ]

-- The loop up to `uciok`.
unfoldable pub handshake : Bool → List Bytes → Engine → Side → Option (Engine × (List Bytes × Side))
unfolding identify engine_readln
handshake unnamed [] e s = none
handshake unnamed (line ∷ lines) e s =
    let e' = identify unnamed line e in
    elim (str_eq line (codes "uciok")) [
      | true ↦ some (e', (lines, engine_readln e.name line s))
      | false ↦ handshake unnamed lines e' (engine_readln e.name line s)
    ]

-- One option, `name=value` with the escape character `\`. One that ends in it is given up too.
unfoldable pub setoption : Bytes → Option Bytes
setoption option = elim (str_tok_esc (some option) [] 61 92) [
  | none ↦ none
  | some (none, name) ↦ none
  | some (some tail, name) ↦ elim (str_tok_esc (some tail) [] 61 92) [
    | none ↦ none
    | some (none, value) ↦ none
    | some (some rest, value) ↦ some (codes "setoption name " ++ name ++ codes " value " ++ value)
  ]
]

module _ (msec : ℕ → ℤ) where
  -- `deadline_set(w, name, system_msec(), duration)`
  unfoldable pub set_deadline : Bytes → ℤ → Side → Side
  set_deadline name duration s = record s {
    worker = deadline_set s.worker name (msec s.ticks) duration;
    ticks = s.ticks + 1;
  }

  -- The clock is read for the log only.
  unfoldable pub clear_deadline : Side → Side
  clear_deadline s = record s {
    worker = deadline_clear s.worker (msec s.ticks);
    ticks = elim (s.worker.log) [ none ↦ s.ticks | some _ ↦ s.ticks + 1 ];
  }

  unfoldable pub engine_newgame : Engine → Side → Side
  unfolding set_deadline clear_deadline engine_writeln
  engine_newgame e s =
      clear_deadline (engine_writeln e.name (codes "ucinewgame") (set_deadline e.name e.time_out s))

  -- What is left of the engine's lines, and this side.
  unfoldable pub engine_sync : Engine → List Bytes → Side → Option (List Bytes × Side)
  unfolding read_until set_deadline clear_deadline engine_writeln
  engine_sync e lines s =
      elim (read_until (λ line. str_eq line (codes "readyok")) e.name lines
        (engine_writeln e.name (codes "isready") (set_deadline e.name e.time_out s))) [
          | none ↦ none
          | some (rest, s') ↦ some (rest, clear_deadline s')
        ]

  unfoldable pub send_options : Engine → List Bytes → Side → Option Side
  unfolding setoption set_deadline clear_deadline engine_writeln
  send_options e [] s = some s
  send_options e (option ∷ options) s = elim (setoption option) [
    | none ↦ none
    | some line ↦
        send_options e options
          (clear_deadline (engine_writeln e.name line (set_deadline e.name e.time_out s)))
  ]

  -- The process is started between `engine_parse_cmd` and the dialogue.
  unfoldable pub engine_init :
      Bytes → Bytes → List Bytes → ℤ → List Bytes → Side → Option (Engine × (List Bytes × Side))
  unfolding handshake send_options set_deadline clear_deadline engine_writeln
  engine_init cmd name options time_out lines s =
      let unnamed = length name == 0 in
      let e : Engine = record {
        name = if unnamed then cmd else name;
        time_out = time_out;
        support_chess960 = false;
        started = true;
      } in
      if length cmd == 0
      then none
      else elim (handshake unnamed lines e
          (engine_writeln e.name (codes "uci") (set_deadline e.name time_out s))) [
            | none ↦ none
            | some (e', (rest, s')) ↦ elim (send_options e' options (clear_deadline s')) [
              | none ↦ none
              | some s'' ↦ some (e', (rest, s''))
            ]
          ]

  unfoldable pub engine_destroy : Engine → Side → Side
  unfolding set_deadline clear_deadline engine_writeln
  engine_destroy e s =
      if e.started
      then clear_deadline (engine_writeln e.name (codes "quit") (set_deadline e.name e.time_out s))
      else s
