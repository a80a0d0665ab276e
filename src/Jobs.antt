-- ===== src/Jobs.antt =====
-- src/jobs.h and src/jobs.c: the queue of the games of a tournament, shared by the workers. The
-- mutex makes each operation one step. An `int` that counts games, rounds or engines is a natural
-- number, and the queue is assumed to be small enough that no counter overflows.

pub mod Rounds
pub mod Schedule
pub mod Pairs
pub mod Totals
use c_chess_cli.Common.{
  ℕ, zero, suc, ◌+◌, ◌-◌, ◌%◌, Bool, true, false, List, [], ◌∷◌, ◌++◌, ◌==◌, ltb, if◌then◌else◌,
  Option, none, some, update, length, get_or, set, for_loop,
}

abbrev pub Bytes : Type 0
Bytes = List ℕ

-- `count` is indexed by the outcome: loss, draw, win.
pub record Result : Type 0 where
  pub ei : ℕ × ℕ
  pub count : ℕ → ℕ

pub record Job : Type 0 where
  pub ei : ℕ × ℕ
  pub pair : ℕ
  pub round : ℕ
  pub game : ℕ
  pub reverse : Bool

pub record JobQueue : Type 0 where
  pub jobs : List Job
  pub idx : ℕ
  pub completed : ℕ
  pub names : List Bytes
  pub results : List Result

-- The variables `pair` and `added` of the loops of a round, and the vector of jobs.
pub record Adding : Type 0 where
  pub pair : ℕ
  pub added : ℕ
  pub jobs : List Job

unfoldable pub vec_push {ℓ} : {A : Type ℓ} → List A → A → List A
vec_push xs x = xs ++ x ∷ []

-- One turn of the loop over the games of a pair.
unfoldable pub add_game : ℕ → ℕ → ℕ → ℕ → ℕ → Adding → Adding
unfolding vec_push
add_game e1 e2 pair round g st = record st {
  added = st.added + 1;
  jobs =
      vec_push st.jobs (record {
        ei = (e1, e2);
        pair = pair;
        round = round;
        game = st.added;
        reverse = g % 2 == 1;
      });
}

unfoldable pub job_queue_init_pair : ℕ → ℕ → ℕ → ℕ → ℕ → Adding → Adding
unfolding for_loop add_game
job_queue_init_pair games e1 e2 pair round st = for_loop 0 games (add_game e1 e2 pair round) st

unfoldable pub new_result : ℕ → ℕ → Result
new_result e1 e2 = record { ei = (e1, e2); count = λ _. 0 }

unfoldable pub gauntlet_results : ℕ → List Result
unfolding for_loop vec_push new_result
gauntlet_results engines = for_loop 1 (engines - 1) (λ e2 rs. vec_push rs (new_result 0 e2)) []

unfoldable pub gauntlet_round : ℕ → ℕ → ℕ → List Job → List Job
unfolding for_loop job_queue_init_pair
gauntlet_round engines games r jobs =
    (for_loop 1 (engines - 1) (λ e2 st. job_queue_init_pair games 0 e2 (e2 - 1) r st)
      (record { pair = 0; added = 0; jobs = jobs })).jobs

unfoldable pub round_robin_results : ℕ → List Result
unfolding for_loop vec_push new_result
round_robin_results engines =
    for_loop 0 (engines - 1)
      (λ e1 rs. for_loop (e1 + 1) (engines - (e1 + 1)) (λ e2 rs. vec_push rs (new_result e1 e2)) rs)
      []

-- `job_queue_init_pair(games, e1, e2, pair++, &added, r, &jq.vecJobs)`
unfoldable pub next_pair : ℕ → ℕ → ℕ → ℕ → Adding → Adding
unfolding job_queue_init_pair
next_pair games r e1 e2 st =
    job_queue_init_pair games e1 e2 st.pair r (record st { pair = st.pair + 1 })

unfoldable pub round_robin_round : ℕ → ℕ → ℕ → List Job → List Job
unfolding for_loop next_pair
round_robin_round engines games r jobs =
    (for_loop 0 (engines - 1)
      (λ e1 st. for_loop (e1 + 1) (engines - (e1 + 1)) (next_pair games r e1) st)
      (record { pair = 0; added = 0; jobs = jobs })).jobs

unfoldable pub init_names : ℕ → List Bytes
unfolding for_loop vec_push
init_names engines = for_loop 0 engines (λ _ names. vec_push names []) []

unfoldable pub job_queue_init : ℕ → ℕ → ℕ → Bool → JobQueue
unfolding for_loop gauntlet_results gauntlet_round round_robin_results round_robin_round init_names
job_queue_init engines rounds games gauntlet = record {
  jobs =
      if gauntlet
      then for_loop 0 rounds (gauntlet_round engines games) []
      else for_loop 0 rounds (round_robin_round engines games) [];
  idx = 0;
  completed = 0;
  names = init_names engines;
  results = if gauntlet then gauntlet_results engines else round_robin_results engines;
}

abbrev pub nth {ℓ} : {A : Type ℓ} → List A → ℕ → Option A
nth [] i = none
nth (x ∷ xs) zero = some x
nth (x ∷ xs) (suc i) = nth xs i

-- The job with its index and the number of jobs, unless there is none left, and the new queue.
unfoldable pub job_queue_pop : JobQueue → Option (Job × (ℕ × ℕ)) × JobQueue
job_queue_pop jq = elim (nth jq.jobs jq.idx) [
  | none ↦ (none, jq)
  | some j ↦ (some (j, (jq.idx, length jq.jobs)), record jq { idx = jq.idx + 1 })
]

-- Out of range, where C has no defined behaviour, nothing is counted but the game.
unfoldable pub count_outcome : List Result → ℕ → ℕ → List Result
count_outcome [] pair outcome = []
count_outcome (r ∷ rs) zero outcome =
    record r { count = update r.count outcome (r.count outcome + 1) } ∷ rs
count_outcome (r ∷ rs) (suc pair) outcome = r ∷ count_outcome rs pair outcome

unfoldable pub job_queue_add_result : JobQueue → ℕ → ℕ → JobQueue
job_queue_add_result jq pair outcome = record jq {
  results = count_outcome jq.results pair outcome;
  completed = jq.completed + 1;
}

unfoldable pub job_queue_done : JobQueue → Bool
job_queue_done jq = jq.idx == length jq.jobs

unfoldable pub job_queue_stop : JobQueue → JobQueue
job_queue_stop jq = record jq { idx = length jq.jobs }

unfoldable pub job_queue_set_name : JobQueue → ℕ → Bytes → JobQueue
job_queue_set_name jq ei name = record jq {
  names = if length (get_or jq.names ei []) == 0 then set jq.names ei name else jq.names;
}
