-- ===== src/Main/Tournament/Invariant.antt =====
-- Which worker holds which job, and what the queue has been told of the others.
pub mod Moves
use c_chess_cli.Common.{
  ℕ, zero, suc, ◌+◌, ◌≤◌, ◌<◌, ◌≡◌, ◌≢◌, refl, sym, ap, ◌∙◌, arith, Bool, true, false, ◌&&◌, ◌==◌,
  ltb, if◌then◌else◌, Option, none, some, Option-cases, Bool-cases, inl, inr, length, update,
}
use c_chess_cli.Libc.{Libc}
use c_chess_cli.Options.{Options}
use c_chess_cli.Jobs.{
  JobQueue, Job, nth, count_outcome, job_queue_pop, job_queue_add_result, job_queue_stop,
  job_queue_set_name,
}
use c_chess_cli.Jobs.Totals.{
  pop_none, pop_some, nth-beyond, nth-within, count_at, count_at-count_outcome,
  length-count_outcome,
}
use c_chess_cli.Main.Tournament.{
  Arena, Pc, ready, playing, played, scored, left, Move, take, leave, set_name, play, add_result,
  go_on, stop,
}

-- The job that a worker has got and not yet reported.
abbrev pub holds : Pc → Option ℕ
holds ready = none
holds (playing job idx) = some idx
holds (played job idx wld) = some idx
holds (scored wld_count) = none
holds left = none

abbrev pub is_score : ℕ → ℕ → Option (ℕ × ℕ) → Bool
is_score p o none = false
is_score p o (some (pair, wld)) = pair == p && wld == o

-- How many of the first `n` jobs were reported for the pair `p` with the outcome `o`.
unfoldable pub tally : ℕ → (ℕ → Option (ℕ × ℕ)) → ℕ → ℕ → ℕ
tally zero scores p o = 0
tally (suc n) scores p o = tally n scores p o + (if is_score p o (scores n) then 1 else 0)

-- What the queue hands out.
pub popped :
    (jq : JobQueue) {job : Job} {idx count : ℕ}
    → (job_queue_pop jq).0 ≡ some (job, (idx, count))
    → (idx ≡ jq.idx)
      × (nth jq.jobs jq.idx ≡ some job)
      × ((job_queue_pop jq).1 ≡ record jq { idx = jq.idx + 1 })
unfolding job_queue_pop
popped jq e = ground (arith)

pub popped_nothing : (jq : JobQueue) → (job_queue_pop jq).0 ≡ none → nth jq.jobs jq.idx ≡ none
unfolding job_queue_pop
popped_nothing jq e = ground (arith)

pub record Inv (n : ℕ) (jq : JobQueue) (m : Arena) (pc : ℕ → Pc) : Type 0 where
  pub jobs_same : m.jq.jobs ≡ jq.jobs
  pub sizes : length m.jq.results ≡ length jq.results
  pub going : m.stopped ≡ false → m.jq.idx ≡ m.handed
  pub at_end : m.stopped ≡ true → m.jq.idx ≡ length jq.jobs
  pub few : m.handed ≤ length jq.jobs
  pub ahead : (k : ℕ) → m.handed ≤ k → (m.games k ≡ none) × (m.scores k ≡ none)
  pub job_here :
      (i : ℕ) {job : Job} {idx : ℕ}
      → pc i ≡ playing job idx
      → (idx < m.handed)
        × (nth jq.jobs idx ≡ some job)
        × (m.games idx ≡ none)
        × (m.scores idx ≡ none)
  pub game_here :
      (i : ℕ) {job : Job} {idx wld : ℕ}
      → pc i ≡ played job idx wld
      → (idx < m.handed)
        × (nth jq.jobs idx ≡ some job)
        × (m.games idx ≢ none)
        × (m.scores idx ≡ none)
  pub unique : (i j : ℕ) {k : ℕ} → holds (pc i) ≡ some k → holds (pc j) ≡ some k → i ≡ j
  pub covered :
      (k : ℕ) → k < m.handed → m.scores k ≡ none → (i : ℕ) × (i < n) × (holds (pc i) ≡ some k)
  pub scored_game : (k : ℕ) → m.scores k ≢ none → m.games k ≢ none
  pub scored_pair :
      (k p o : ℕ)
      → m.scores k ≡ some (p, o)
      → (job : Job) × (nth jq.jobs k ≡ some job) × (job.pair ≡ p)
  pub counted :
      (p o : ℕ)
      → p < length jq.results
      → count_at m.jq.results p o ≡ count_at jq.results p o + tally m.handed m.scores p o
  pub left_end : (i : ℕ) → pc i ≡ left → m.jq.idx ≡ length jq.jobs
