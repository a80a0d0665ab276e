-- ===== src/Engine/Bestmove.antt =====
-- `engine_bestmove` of src/engine.c.
pub mod Sync
pub mod Live
use c_chess_cli.Common.{
  ℕ, ◌+◌, ◌≡◌, ◌≢◌, refl, arith, Bool, true, false, not, ◌&&◌, List, [], ◌∷◌, ◌++◌, Option, none,
  some, codes, if◌then◌else◌, Option-cases, Bool-cases, inl, inr,
}
use c_chess_cli.Common.Int.{ℤ, pos, ◌+ℤ◌, ◌-ℤ◌, is_neg}
use c_chess_cli.Str.{Bytes, str_prefix, str_tok}
use c_chess_cli.Workers.{deadline_set, deadline_clear, write_log}
use c_chess_cli.Engine.{
  Engine, Side, engine_readln, engine_writeln, set_deadline, clear_deadline, read_until,
}
use c_chess_cli.Engine.Info.{Info, Parsed, parsed, died, out_of_fuel, engine_parse_info, space}

-- What the call changes: `result`, `*timeLeft`, `*best`, `*pv`, `*info`, and this side.
pub record Answer : Type 0 where
  pub result : Bool
  pub time_left : ℤ
  pub best : Bytes
  pub pv : Bytes
  pub info : Info
  pub side : Side

abbrev pub some? {ℓ} : {A : Type ℓ} → Option A → Bool
some? none = false
some? (some a) = true

-- `str_prefix(line, "bestmove ")`
abbrev pub is_bestmove : Bytes → Bool
is_bestmove line = some? (str_prefix line (codes "bestmove "))

-- `while (*timeLeft >= 0 && !result)`
unfoldable pub waits : Answer → Bool
waits a = not (is_neg a.time_left) && not a.result

-- What follows the loop.
unfoldable pub stop : Bytes → List Bytes → Answer → Option (List Bytes × Answer)
unfolding read_until engine_writeln
stop name lines a = elim (a.result) [
  | true ↦ some (lines, a)
  | false ↦ elim (read_until is_bestmove name lines (engine_writeln name (codes "stop") a.side)) [
    | none ↦ none
    | some (rest, s) ↦ some (rest, record a { side = s })
  ]
]

-- The variables before the loop.
unfoldable pub ask : (ℕ → ℤ) → Engine → ℤ → Bytes → Info → Side → Answer
ask msec e time_left best info s = record {
  result = false;
  time_left = time_left;
  best = best;
  pv = [];
  info = info;
  side = record s {
    worker = deadline_set s.worker e.name (msec s.ticks) (time_left +ℤ e.time_out);
    ticks = s.ticks + 1;
  };
}

module _ (msec : ℕ → ℤ) (atoi : Bytes → ℤ) where
  -- What a line that is read makes of the answer; none where the code ends the program.
  unfoldable pub answer_line : Bytes → ℤ → ℤ → Bytes → Answer → Option Answer
  unfolding engine_readln
  answer_line name start time_limit line a =
      let s = engine_readln name line a.side in
      let now = msec s.ticks in
      let a' : Answer = record a {
        time_left = time_limit -ℤ now;
        info = record (a.info) { time = now -ℤ start };
        side = record s { ticks = s.ticks + 1 };
      } in
      elim (str_prefix line (codes "info ")) [
        | some tail ↦ elim (engine_parse_info atoi tail a'.info a.pv) [
          | parsed info pv ↦ some (record a' { info = info; pv = pv })
          | died ↦ none
          | out_of_fuel ↦ none
        ]
        | none ↦ elim (str_prefix line (codes "bestmove ")) [
          | some tail ↦ some (record a' { result = true; best = (str_tok (some tail) [] space).1 })
          | none ↦ some a'
        ]
      ]

  unfoldable pub bestmove_loop : Bytes → ℤ → ℤ → List Bytes → Answer → Option (List Bytes × Answer)
  unfolding answer_line waits
  bestmove_loop name start time_limit [] a = if waits a then none else some ([], a)
  bestmove_loop name start time_limit (line ∷ lines) a = elim (waits a) [
    | false ↦ some (line ∷ lines, a)
    | true ↦ elim (answer_line name start time_limit line a) [
      | none ↦ none
      | some a' ↦ bestmove_loop name start time_limit lines a'
    ]
  ]

  unfoldable pub engine_bestmove :
      Engine → ℤ → Bytes → Info → List Bytes → Side → Option (List Bytes × Answer)
  unfolding ask bestmove_loop stop clear_deadline
  engine_bestmove e time_left best info lines s =
      let start = msec s.ticks in
      elim (bestmove_loop e.name start (start +ℤ time_left) lines
        (ask msec e time_left best info s)) [
          | none ↦ none
          | some (rest, a) ↦ elim (stop e.name rest a) [
            | none ↦ none
            | some (rest', a') ↦ some (rest', record a' { side = clear_deadline msec a'.side })
          ]
        ]
