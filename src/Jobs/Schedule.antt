-- ===== src/Jobs/Schedule.antt =====
-- The whole schedule of a tournament in closed form.
use c_chess_cli.Common.{
  ℕ, suc, ◌+◌, ◌-◌, ◌*◌, ◌/◌, ◌%◌, ◌≡◌, refl, sym, ap, ◌∙◌, arith, Bool, true, false, List, [], ◌∷◌,
  ◌++◌, append-nil, for_loop, for_loop_inv, for_loop_both, tab, tab_ext, tab_add, length,
  length-append, row_div, row_mod,
}
use native.Mathlib.Nat.{suc-mul}
use c_chess_cli.Jobs.{
  Result, Job, Adding, vec_push, job_queue_init_pair, new_result, next_pair, gauntlet_results,
  gauntlet_round, round_robin_results, round_robin_round, job_queue_init,
}
use c_chess_cli.Jobs.Rounds.{pair_at, job_of, init_pair_lem, Upto, Upto-push}

Upto-start :
    (games round : ℕ) (jobs : List Job)
    → Upto games round jobs [] (record { pair = 0; added = 0; jobs = jobs })
Upto-start games round jobs = record {
  added_eq = omega arith;
  jobs_eq = let e : 0 * games ≡ 0 = omega arith in rw e (sym (append-nil jobs));
}

gauntlet_step :
    (games r : ℕ) (jobs : List Job) (j : ℕ) (rs : List Result) (st : Adding)
    → (length rs ≡ j) × Upto games r jobs rs st
    → (length (vec_push rs (new_result 0 (1 + j))) ≡ suc j)
      × Upto games r jobs
          (vec_push rs (new_result 0 (1 + j)))
          (job_queue_init_pair games 0 (1 + j) (1 + j - 1) r st)
gauntlet_step games r jobs j rs st (l, u) = (
  unfold vec_push in length-append rs _ ∙ omega arith,
  let e : 1 + j - 1 ≡ length rs = omega arith in rw e (Upto-push games r jobs 0 (1 + j) rs st u),
)

gauntlet_round_lem :
    (engines games r : ℕ) (jobs : List Job)
    → gauntlet_round engines games r jobs
      ≡ jobs
        ++ tab
            (job_of games r (pair_at (gauntlet_results engines)))
            (length (gauntlet_results engines) * games)
unfolding gauntlet_round gauntlet_results
gauntlet_round_lem engines games r jobs =
    let both =
      for_loop_both (λ j rs st. (length rs ≡ j) × Upto games r jobs rs st)
        (λ e2 rs. vec_push rs (new_result 0 e2))
        (λ e2 st. job_queue_init_pair games 0 e2 (e2 - 1) r st) 1 (engines - 1) []
        (record { pair = 0; added = 0; jobs = jobs }) (refl, Upto-start games r jobs)
        (λ j rs st l p. gauntlet_step games r jobs j rs st p) in
    both.1.jobs_eq

abbrev Paired : ℕ → ℕ → List Job → List Result → Adding → Type 0
Paired games r jobs rs st = (st.pair ≡ length rs) × Upto games r jobs rs st

next_pair-Paired :
    (games r : ℕ) (jobs : List Job) (e1 e2 : ℕ) (rs : List Result) (st : Adding)
    → Paired games r jobs rs st
    → Paired games r jobs (vec_push rs (new_result e1 e2)) (next_pair games r e1 e2 st)
unfolding next_pair
next_pair-Paired games r jobs e1 e2 rs st (p, u) = (
  rw (init_pair_lem games e1 e2 st.pair r (record st { pair = st.pair + 1 }))
      (unfold vec_push in omega (arith, length-append rs (new_result e1 e2 ∷ []), p)),
  rw p (
      Upto-push games r jobs e1 e2 rs (record st { pair = length rs + 1 })
        (record { added_eq = u.added_eq; jobs_eq = u.jobs_eq })),
)

round_robin_round_lem :
    (engines games r : ℕ) (jobs : List Job)
    → round_robin_round engines games r jobs
      ≡ jobs
        ++ tab
            (job_of games r (pair_at (round_robin_results engines)))
            (length (round_robin_results engines) * games)
unfolding round_robin_round round_robin_results
round_robin_round_lem engines games r jobs =
    let both =
      for_loop_both (λ j. Paired games r jobs)
        (λ e1 rs.
          for_loop (e1 + 1) (engines - (e1 + 1)) (λ e2 rs. vec_push rs (new_result e1 e2)) rs)
        (λ e1 st. for_loop (e1 + 1) (engines - (e1 + 1)) (next_pair games r e1) st) 0 (engines - 1)
        [] (record { pair = 0; added = 0; jobs = jobs }) (refl, Upto-start games r jobs)
        (λ j rs st l p.
          for_loop_both (λ i. Paired games r jobs) (λ e2 rs. vec_push rs (new_result (0 + j) e2))
            (next_pair games r (0 + j)) (0 + j + 1) (engines - (0 + j + 1)) rs st p
            (λ i rs st l p. next_pair-Paired games r jobs (0 + j) (0 + j + 1 + i) rs st p)) in
    both.1.jobs_eq

-- Job `k` of a tournament whose rounds have `size` games.
unfoldable pub job_at : ℕ → ℕ → (ℕ → ℕ × ℕ) → ℕ → Job
unfolding job_of
job_at games size engines k = job_of games (k / size) engines (k % size)

all_rounds :
    (games size rounds : ℕ) (engines : ℕ → ℕ × ℕ) (body : ℕ → List Job → List Job)
    → ((r : ℕ) (jobs : List Job) → body r jobs ≡ jobs ++ tab (job_of games r engines) size)
    → for_loop 0 rounds body [] ≡ tab (job_at games size engines) (rounds * size)
unfolding job_at
all_rounds games size rounds engines body h =
    for_loop_inv (λ r jobs. jobs ≡ tab (job_at games size engines) (r * size)) body 0 rounds []
      (let e : 0 * size ≡ 0 = omega arith in rw e refl)
      (λ r jobs l e.
        let z : 0 + r ≡ r = omega arith in
        rw (z, h r jobs, e, suc-mul r size, tab_add (job_at games size engines) (r * size) size)
          (ap (λ xs. tab (job_at games size engines) (r * size) ++ xs)
            (tab_ext _ _ size (λ i l. rw (row_div r i size l, row_mod r i size l) refl))))

-- The jobs of a tournament are, round after round and pair after pair, the games of each pair of
-- engines that has a result: job `k` is game `k % size` of round `k / size`, where a round has
-- `size` games, and every second game of a pair is reversed.
pub job_queue_init-jobs :
    (engines rounds games : ℕ) (gauntlet : Bool)
    → let jq = job_queue_init engines rounds games gauntlet in
      let size = length jq.results * games in
      jq.jobs ≡ tab (job_at games size (pair_at jq.results)) (rounds * size)
unfolding job_queue_init
job_queue_init-jobs engines rounds games true =
    all_rounds games _ rounds _ (gauntlet_round engines games) (gauntlet_round_lem engines games)
job_queue_init-jobs engines rounds games false =
    all_rounds games _ rounds _ (round_robin_round engines games)
      (round_robin_round_lem engines games)
