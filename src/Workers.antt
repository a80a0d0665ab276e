-- ===== src/Workers.antt =====
-- src/workers.h and src/workers.c: the data of a thread, and the deadline that the main thread
-- watches. The mutex makes each operation on a deadline one step. A log file, if there is one, is
-- the list of the bytes written to it. `system_msec` is a parameter: `now` is what it returns.
use c_chess_cli.Common.{
  ℕ, ◌+◌, Bool, true, false, ◌&&◌, [], ◌∷◌, ◌++◌, Option, none, some, codes, length, ◌==◌,
  if◌then◌else◌,
}
use c_chess_cli.Common.Int.{ℤ, pos, negsuc, ◌+ℤ◌, ltℤb}
use c_chess_cli.Str.{Bytes, Str, do_fmt_u, str_cpy, str_init}

pub record Deadline : Type 0 where
  pub time_limit : ℤ
  pub engine_name : Str
  pub set : Bool

pub record Worker : Type 0 where
  pub deadline : Deadline
  pub log : Option Bytes
  pub seed : ℕ
  pub id : ℕ

-- `if (w->log) fprintf(...)`
unfoldable pub write_log : Worker → Bytes → Worker
write_log w text = record w {
  log = elim (w.log) [ none ↦ none | some written ↦ some (written ++ text) ];
}

-- The format `%d` or `PRId64`.
unfoldable pub fmt_int : ℤ → Bytes
fmt_int (pos n) = do_fmt_u n
fmt_int (negsuc n) = 45 ∷ do_fmt_u (n + 1)

unfoldable pub deadline_set : Worker → Bytes → ℤ → ℤ → Worker
unfolding write_log
deadline_set w engine_name now duration =
    write_log
      (record w {
        deadline = record {
          time_limit = now +ℤ duration;
          engine_name = str_cpy w.deadline.engine_name engine_name;
          set = true;
        };
      })
      (codes "deadline_set: now is T0="
        ++ fmt_int now
        ++ codes ". "
        ++ engine_name
        ++ codes " must respond in less than D="
        ++ fmt_int duration
        ++ codes ".\n")

unfoldable pub deadline_clear : Worker → ℤ → Worker
unfolding write_log
deadline_clear w now =
    write_log (record w { deadline = record (w.deadline) { set = false } })
      (codes "deadline_clear: now is T1="
        ++ fmt_int now
        ++ codes ". "
        ++ w.deadline.engine_name.text
        ++ codes " responded before T0+D="
        ++ fmt_int w.deadline.time_limit
        ++ codes ".\n")

unfoldable pub deadline_overdue : Worker → ℤ → Bool
deadline_overdue w now = w.deadline.set && ltℤb w.deadline.time_limit now

-- The file of the log is created if it has a name; that it cannot be created ends the program.
unfoldable pub worker_init : ℕ → Bytes → Worker
worker_init i log_name = record {
  deadline = record { time_limit = pos 0; engine_name = str_init; set = false };
  log = if length log_name == 0 then none else some [];
  seed = i;
  id = i + 1;
}
