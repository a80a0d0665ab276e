-- ===== src/Tests/Race.antt =====
-- A tournament of two games with two workers, the second of which is the first to end its game.
use c_chess_cli.Common.{
  ℕ, zero, suc, ◌+◌, ◌<◌, ◌≤◌, ◌==◌, ◌≡◌, ◌≢◌, refl, arith, false, [], some, none, length, codes,
  update,
}
use c_chess_cli.Jobs.{
  JobQueue, Job, count_outcome, job_queue_init, job_queue_pop, job_queue_add_result, nth,
}
use c_chess_cli.Jobs.Totals.{count_at}
use c_chess_cli.SeqWriter.Queue.{joined}
use c_chess_cli.Options.{Options}
use c_chess_cli.Options.Parse.{options_init}
use c_chess_cli.Game.Play.{game_init}
use c_chess_cli.Main.Tournament.{
  Arena, Pc, playing, left, Move, take, leave, play, add_result, go_on, System, Reach, start, later,
  pick, init, is_decided,
}
use c_chess_cli.Main.Tournament.Invariant.{holds, tally}
use c_chess_cli.Main.Tournament.Order.{texts_of, Reach-joined, Reach-finished}
use c_chess_cli.Tests.Dialogue.{whole}

-- The PGN file is asked for.
abbrev with_pgn : Options (whole.Double)
unfolding options_init
with_pgn = record (options_init whole) { pgn = codes "out.pgn" }

abbrev two_games : JobQueue
two_games = job_queue_init 2 1 2 false

record Run : Type 0 where
  last : System whole with_pgn
  reach : Reach whole with_pgn 2 two_games last

abbrev then_pick :
    (r : Run) (i : ℕ) {m : Arena} {p : Pc}
    → i < 2
    → Move whole with_pgn r.last.arena (r.last.pc i) m p
    → Run
then_pick r i {m} {p} l mv = record {
  last = record { arena = m; pc = update r.last.pc i p };
  reach = later r.reach (pick i l mv);
}

-- Each worker has a job, and the second one has played its game.
abbrev one_over : Run
unfolding job_queue_init job_queue_pop
one_over =
    let r0 : Run = record { last = init whole with_pgn two_games; reach = start } in
    let r1 = then_pick r0 0 (omega arith) (take refl) in
    let r2 = then_pick r1 1 (omega arith) (take refl) in
    then_pick r2 1 (omega arith) (play (game_init 0 1) 2)

-- Both have reported, and left.
abbrev all_over : Run
unfolding job_queue_init job_queue_pop job_queue_add_result is_decided options_init one_over
all_over =
    let r1 = then_pick one_over 1 (omega arith) add_result in
    let r2 = then_pick r1 0 (omega arith) (play (game_init 0 0) 1) in
    let r3 = then_pick r2 1 (omega arith) (go_on refl) in
    let r4 = then_pick r3 1 (omega arith) (leave refl) in
    let r5 = then_pick r4 0 (omega arith) add_result in
    let r6 = then_pick r5 0 (omega arith) (go_on refl) in then_pick r6 0 (omega arith) (leave refl)

pgn_on : (length with_pgn.pgn == 0) ≡ false
unfolding with_pgn
pgn_on = refl

starts_at_zero : two_games.idx ≡ 0
unfolding job_queue_init
starts_at_zero = refl

all_over_left : (i : ℕ) → i < 2 → all_over.last.pc i ≡ left
unfolding all_over one_over
all_over_left zero l = refl
all_over_left (suc zero) l = refl
all_over_left (suc (suc i)) l = absurd (omega arith)

-- Both games were handed out, and the second of the three outcomes is counted once.
all_over_run : (all_over.last.arena.handed ≡ 2) × (count_at all_over.last.arena.jq.results 0 1 ≡ 1)
unfolding all_over one_over job_queue_init job_queue_pop job_queue_add_result count_at count_outcome
all_over_run = (refl, refl)

Reach-joined_example :
    ((i j k : ℕ)
      → holds (one_over.last.pc i) ≡ some k
      → holds (one_over.last.pc j) ≡ some k
      → i ≡ j)
    × ((i : ℕ) (job : Job) (idx : ℕ)
        → one_over.last.pc i ≡ playing job idx
        → nth two_games.jobs idx ≡ some job)
    × (one_over.last.arena.writer.out
        ≡ joined
            (texts_of whole with_pgn one_over.last.arena.games)
            0
            one_over.last.arena.writer.idx_next)
    × ((k : ℕ) → k < one_over.last.arena.writer.idx_next → one_over.last.arena.games k ≢ none)
    × (one_over.last.arena.writer.idx_next ≤ one_over.last.arena.handed)
Reach-joined_example = Reach-joined whole with_pgn pgn_on starts_at_zero one_over.reach

Reach-finished_example :
    ((k : ℕ)
      → k < all_over.last.arena.handed
      → (all_over.last.arena.games k ≢ none)
        × ((job : Job) × (wld : ℕ) × (nth two_games.jobs k ≡ some job)
            × (all_over.last.arena.scores k ≡ some (job.pair, wld))))
    × ((p outcome : ℕ)
        → p < length two_games.results
        → count_at all_over.last.arena.jq.results p outcome
          ≡ count_at two_games.results p outcome
            + tally all_over.last.arena.handed all_over.last.arena.scores p outcome)
    × (all_over.last.arena.writer.out
        ≡ joined (texts_of whole with_pgn all_over.last.arena.games) 0 all_over.last.arena.handed)
    × (all_over.last.arena.writer.queued ≡ [])
    × (all_over.last.arena.stopped ≡ false → all_over.last.arena.handed ≡ length two_games.jobs)
Reach-finished_example =
    Reach-finished whole with_pgn pgn_on starts_at_zero (omega arith) all_over.reach all_over_left
