-- ===== src/Tests/Tournament.antt =====
-- The theorems on the job queue and on the writer at concrete inputs.
use c_chess_cli.Common.{
  ℕ, ◌+◌, ◌*◌, ◌<◌, ◌≤◌, ◌≡◌, ◌↔◌, refl, arith, true, false, List, [], ◌∷◌, ◌==◌, ltb, ◌&&◌,
  if◌then◌else◌, some, none, length, take, drop, tab,
}
use c_chess_cli.Jobs.{JobQueue, job_queue_init, job_queue_pop, job_queue_done}
use c_chess_cli.Jobs.Rounds.{pair_at}
use c_chess_cli.Jobs.Schedule.{job_at, job_queue_init-jobs}
use c_chess_cli.Jobs.Pairs.{occurs, job_queue_init-occurs}
use c_chess_cli.Jobs.Totals.{
  Op, pop, add_result, stop, set_name, handed, final, handed-take, count_at, reports,
  final-count_at, IsInRange, final-done,
}
use c_chess_cli.Openings.{openings_init}
use c_chess_cli.Openings.Shuffle.{count, openings_init-count}
use c_chess_cli.Str.{str_getline, getline}
use c_chess_cli.SeqWriter.{
  Bytes, seq_writer_init, push_all, seq_writer_push, chunk_len, insert, texts,
}
use c_chess_cli.SeqWriter.Queue.{joined}
use c_chess_cli.SeqWriter.Order.{push_all-joined}

-- Three engines, two rounds of two games for each pair, all against all.
abbrev three : JobQueue
three = job_queue_init 3 2 2 false

job_queue_init-jobs_example :
    (job_queue_init 3 2 2 false).jobs
    ≡ tab
        (job_at 2
          (length (job_queue_init 3 2 2 false).results * 2)
          (pair_at (job_queue_init 3 2 2 false).results))
        (2 * (length (job_queue_init 3 2 2 false).results * 2))
job_queue_init-jobs_example = job_queue_init-jobs 3 2 2 false

job_queue_init-occurs_example :
    occurs 1 2 (job_queue_init 3 2 2 false).results
    ≡ (if ltb 1 2 && (ltb 2 3 && (if false then 1 == 0 else true)) then 1 else 0)
job_queue_init-occurs_example = job_queue_init-occurs 3 2 2 1 2 false

-- Two workers take a game each, one of them reports, and the tournament is stopped.
abbrev some_ops : List Op
some_ops = pop ∷ set_name 0 (97 ∷ []) ∷ pop ∷ add_result 0 2 ∷ stop ∷ pop ∷ []

-- Two games were handed out.
handed_run : length (handed some_ops three) ≡ 2
unfolding handed job_queue_init
handed_run = refl

handed-take_example :
    handed some_ops three ≡ take (length (handed some_ops three)) (drop three.idx three.jobs)
handed-take_example = handed-take some_ops three

has_results : 0 < length three.results
unfolding job_queue_init
has_results = omega arith

final-count_at_example :
    count_at (final some_ops three).results 0 2 ≡ count_at three.results 0 2 + reports 0 2 some_ops
final-count_at_example = final-count_at some_ops three 0 2 has_results

starts_in_range : three.idx ≤ length three.jobs
unfolding job_queue_init
starts_in_range = omega arith

final-done_example :
    IsInRange (final some_ops three)
    × ((job_queue_done (final some_ops three) ≡ true)
        ↔ ((job_queue_pop (final some_ops three)).0 ≡ none))
final-done_example = final-done some_ops three starts_in_range

-- The second and the third text come before the first.
abbrev out_of_order : List (ℕ × Bytes)
out_of_order = (1, 98 ∷ []) ∷ (2, 99 ∷ []) ∷ (0, 97 ∷ []) ∷ []

abbrev letters : ℕ → Bytes
letters i = (97 + i) ∷ []

push_all_run : (push_all seq_writer_init out_of_order).out ≡ 97 ∷ 98 ∷ 99 ∷ []
unfolding push_all seq_writer_init seq_writer_push chunk_len insert texts
push_all_run = refl

push_all-joined_example :
    ((push_all seq_writer_init out_of_order).out ≡ joined (λ i. some (letters i)) 0 3)
    × ((push_all seq_writer_init out_of_order).queued ≡ [])
    × ((push_all seq_writer_init out_of_order).idx_next ≡ 3)
push_all-joined_example =
    push_all-joined out_of_order 3 letters (refl, (refl, (refl, tt))) (λ i. ground arith)

-- The lines "ab", "c" and "de", shuffled.
abbrev three_lines : Bytes
three_lines = 97 ∷ 98 ∷ 10 ∷ 99 ∷ 10 ∷ 100 ∷ 101 ∷ []

offsets_run : openings_init three_lines false 7 ≡ 0 ∷ 3 ∷ 5 ∷ []
unfolding openings_init str_getline getline
offsets_run = refl

has_lines : 0 < length (openings_init three_lines false 7)
unfolding openings_init str_getline getline
has_lines = omega arith

openings_init-count_example :
    count 3 (openings_init three_lines true 7) ≡ count 3 (openings_init three_lines false 7)
openings_init-count_example = openings_init-count three_lines 7 3 has_lines
