-- ===== src/Main.antt =====
-- src/main.c: what a worker does with a job before and after the game, and the watch of the main
-- thread over the deadlines.
pub mod Fair
pub mod Opening
pub mod Tournament
use c_chess_cli.Common.{
  ℕ, zero, suc, ◌+◌, ◌-◌, ◌/◌, bit_xor, Bool, true, false, not, ◌&&◌, ◌||◌, List, [], ◌∷◌, ◌++◌,
  Option, none, some, codes, length, ◌==◌, ltb, if◌then◌else◌,
}
use c_chess_cli.Common.Int.{ℤ, pos}
use c_chess_cli.Bitboard.Square.{opposite}
use c_chess_cli.Str.{Bytes, do_fmt_u}
use c_chess_cli.Libc.{Libc}
use c_chess_cli.Workers.{Worker, worker_init, deadline_overdue}
use c_chess_cli.Sprt.{sprt_done}
use c_chess_cli.Options.{Options}
use c_chess_cli.SeqWriter.{SeqWriter, seq_writer_push}
use c_chess_cli.Jobs.{
  JobQueue, Job, Result, job_queue_add_result, job_queue_stop, job_queue_done, nth,
}
use c_chess_cli.Game.Play.{Game, game_load_fen}
use c_chess_cli.Game.Sampling.{Sample}
use c_chess_cli.Game.Export.{game_export_pgn, game_export_samples}

-- The name of the log of worker `i`.
unfoldable pub log_name : Bool → ℕ → Bytes
log_name log i = if log then codes "c-chess-cli." ++ do_fmt_u (i + 1) ++ codes ".log" else []

-- The workers from `i` on, `n` of them.
unfoldable pub init_workers : Bool → ℕ → ℕ → List Worker
unfolding worker_init log_name
init_workers log i zero = []
init_workers log i (suc n) = worker_init i (log_name log i) ∷ init_workers log (i + 1) n

-- The engines that a worker stops and starts for a job, of which it has the two in `ei`.
unfoldable pub restarts : ℕ × ℕ → ℕ × ℕ → List ℕ
restarts (new0, new1) (old0, old1) =
    (if new0 == old0 then [] else 0 ∷ []) ++ (if new1 == old1 then [] else 1 ∷ [])

-- The opening of the game number `idx`.
unfoldable pub opening_idx : Bool → ℕ → ℕ
opening_idx repeat idx = if repeat then idx / 2 else idx

-- What comes of the choice of an opening: the color to move first and the game.
pub data Loaded : Type 0 where
  loaded : ℕ → Game → Loaded
  undefined : Loaded
  out_of_fuel : Loaded

-- `while (!ok)`. A turn that fails prints a warning.
unfoldable pub opening_loop : ℕ → (ℕ → Bytes) → Bool → ℕ → Game → Loaded
unfolding opening_idx game_load_fen
opening_loop zero openings repeat idx g = out_of_fuel
opening_loop (suc fuel) openings repeat idx g =
    elim (game_load_fen g (openings (opening_idx repeat idx))) [
      | none ↦ undefined
      | some (true, (color, g')) ↦ loaded color g'
      | some (false, (color, g')) ↦ opening_loop fuel openings repeat idx g'
    ]

-- The engine that plays white.
unfoldable pub white_idx : ℕ → Bool → ℕ
white_idx color reverse = bit_xor color (if reverse then 1 else 0)

-- What the workers share.
pub record Shared : Type 0 where
  pub jq : JobQueue
  pub pgn_seq_writer : SeqWriter
  pub sample_file : Bytes

-- The counts of the pair of a job.
abbrev pub wld_of : JobQueue → ℕ → ℕ → ℕ
wld_of jq pair = elim (nth jq.results pair) [ none ↦ λ _. 0 | some r ↦ r.count ]

module _ (c : Libc) where
  -- What a worker does after the game of job `idx`, whose result for the first engine is `wld`: the
  -- PGN file, the samples, the result, and the sequential test.
  unfoldable pub finish_job : Options c.Double → Job → ℕ → ℕ → Game → Shared → Shared
  unfolding seq_writer_push game_export_pgn game_export_samples job_queue_add_result sprt_done
      job_queue_stop
  finish_job o job idx wld g s =
      let jq = job_queue_add_result s.jq job.pair wld in
      let verbosity : ℕ = elim (o.pgn_verbosity) [ pos n ↦ n | _ ↦ 0 ] in
      record {
        jq =
            if o.sprt && sprt_done c (wld_of jq job.pair) o.sprt_param
            then job_queue_stop jq
            else jq;
        pgn_seq_writer =
            if length o.pgn == 0
            then s.pgn_seq_writer
            else seq_writer_push s.pgn_seq_writer idx (game_export_pgn g verbosity);
        sample_file =
            if length o.sp.file_name == 0
            then s.sample_file
            else s.sample_file ++ game_export_samples g.vec_samples o.sp.bin;
      }

-- One look of the main thread at the deadlines: it ends the program if one is overdue.
unfoldable pub watch : List Worker → ℤ → Bool
unfolding deadline_overdue
watch [] now = false
watch (w ∷ ws) now = deadline_overdue w now || watch ws now

-- The loop of the main thread, at the times of its turns and with the queue that it then sees.
unfoldable pub watch_loop : List (List Worker × (ℤ × JobQueue)) → Option Bool
unfolding watch job_queue_done
watch_loop [] = none
watch_loop ((ws, (now, jq)) ∷ turns) =
    let rest = watch_loop turns in
    if watch ws now then some false else if job_queue_done jq then some true else rest
