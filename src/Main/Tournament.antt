-- ===== src/Main/Tournament.antt =====
-- `thread_start` of src/main.c, run by any number of workers at the same time: a step relation over
-- what they share, with the mutexes of src/jobs.c and src/seqwriter.c, which make each operation on
-- the queue or on the PGN file one step. A game may come out in any way.
pub mod Invariant
pub mod Order
use c_chess_cli.Common.{
  ℕ, ◌+◌, ◌<◌, ◌≡◌, Bool, true, false, ◌&&◌, Option, none, some, length, ◌==◌, if◌then◌else◌,
  update,
}
use c_chess_cli.Common.Int.{pos}
use c_chess_cli.Libc.{Libc}
use c_chess_cli.Sprt.{sprt_done}
use c_chess_cli.Options.{Options}
use c_chess_cli.SeqWriter.{Bytes, SeqWriter, seq_writer_init, seq_writer_push}
use c_chess_cli.Jobs.{
  JobQueue, Job, job_queue_pop, job_queue_add_result, job_queue_stop, job_queue_set_name,
}
use c_chess_cli.Game.Play.{Game}
use c_chess_cli.Game.Export.{game_export_pgn}
use c_chess_cli.Main.{wld_of}

-- What the workers share, and what is remembered of the run, which no step reads: how many jobs
-- were handed out, whether the queue was stopped, and by the index of a job its game, and the pair
-- and the outcome that were reported.
pub record Arena : Type 0 where
  pub jq : JobQueue
  pub writer : SeqWriter
  pub handed : ℕ
  pub stopped : Bool
  pub games : ℕ → Option Game
  pub scores : ℕ → Option (ℕ × ℕ)

-- Where a worker stands, with the local variables that are live there.
pub data Pc : Type 0 where
  ready : Pc  -- head of the loop
  playing : (job : Job) (idx : ℕ) → Pc
  played : (job : Job) (idx wld : ℕ) → Pc  -- before job_queue_add_result
  scored : (wld_count : ℕ → ℕ) → Pc  -- before the sequential test
  left : Pc  -- after the loop

module _ (c : Libc) (o : Options c.Double) where
  -- The text of a game in the PGN file.
  unfoldable pub pgn_text : Game → Bytes
  unfolding game_export_pgn
  pgn_text g = game_export_pgn g (elim (o.pgn_verbosity) [ pos n ↦ n | _ ↦ 0 ])

  unfoldable pub write_pgn : ℕ → Game → SeqWriter → SeqWriter
  unfolding pgn_text seq_writer_push
  write_pgn idx g sw = if length o.pgn == 0 then sw else seq_writer_push sw idx (pgn_text g)

  -- `options.sprt && sprt_done(wldCount, &options.sprtParam)`
  unfoldable pub is_decided : (ℕ → ℕ) → Bool
  unfolding sprt_done
  is_decided wld_count = o.sprt && sprt_done c wld_count o.sprt_param

  pub data Move (m : Arena) : Pc → Arena → Pc → Type 0 where
    take :
        {job : Job} {idx count : ℕ}
        → (job_queue_pop m.jq).0 ≡ some (job, (idx, count))
        → Move m ready
            (record m { jq = (job_queue_pop m.jq).1; handed = m.handed + 1 })
            (playing job idx)
    leave : (job_queue_pop m.jq).0 ≡ none → Move m ready m left
    set_name :
        {job : Job} {idx : ℕ} (ei : ℕ) (name : Bytes)
        → Move m
            (playing job idx)
            (record m { jq = job_queue_set_name m.jq ei name })
            (playing job idx)
    play :
        {job : Job} {idx : ℕ} (g : Game) (wld : ℕ)
        → Move m
            (playing job idx)
            (record m { writer = write_pgn idx g m.writer; games = update m.games idx (some g) })
            (played job idx wld)
    add_result :
        {job : Job} {idx wld : ℕ}
        → Move m
            (played job idx wld)
            (record m {
              jq = job_queue_add_result m.jq job.pair wld;
              scores = update m.scores idx (some (job.pair, wld));
            })
            (scored (wld_of (job_queue_add_result m.jq job.pair wld) job.pair))
    go_on : {wld_count : ℕ → ℕ} → is_decided wld_count ≡ false → Move m (scored wld_count) m ready
    stop :
        {wld_count : ℕ → ℕ}
        → is_decided wld_count ≡ true
        → Move m (scored wld_count) (record m { jq = job_queue_stop m.jq; stopped = true }) ready

  -- `n` workers. An index from `n` on names no worker.
  pub record System : Type 0 where
    pub arena : Arena
    pub pc : ℕ → Pc

  pub data Step (n : ℕ) (s : System) : System → Type 0 where
    pick :
        (i : ℕ) {m : Arena} {p : Pc}
        → i < n
        → Move s.arena (s.pc i) m p
        → Step n s (record { arena = m; pc = update s.pc i p })

  -- The start, with a new PGN file.
  abbrev pub init : JobQueue → System
  init jq = record {
    arena = record {
      jq = jq;
      writer = seq_writer_init;
      handed = 0;
      stopped = false;
      games = λ _. none;
      scores = λ _. none;
    };
    pc = λ _. ready;
  }

  pub data Reach (n : ℕ) (jq : JobQueue) : System → Type 0 where
    start : Reach n jq (init jq)
    later : {s t : System} → Reach n jq s → Step n s t → Reach n jq t
