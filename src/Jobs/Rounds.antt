-- ===== src/Jobs/Rounds.antt =====
-- The loops of a round: each pair of engines adds its games.
use c_chess_cli.Common.{
  ℕ, zero, suc, ◌+◌, ◌*◌, ◌/◌, ◌%◌, ◌<◌, ◌≡◌, refl, sym, ap₂, ◌∙◌, arith, List, [], ◌∷◌, ◌++◌, ◌==◌,
  append_assoc, append-nil, for_loop_inv, tab, tab_ext, tab_add, length, length-append, row_div,
  row_mod, row_below,
}
use native.Mathlib.Nat.{suc-mul}
use c_chess_cli.Jobs.{Result, Job, Adding, vec_push, add_game, job_queue_init_pair, new_result}

-- The engines of the pair with an index.
unfoldable pub pair_at : List Result → ℕ → ℕ × ℕ
pair_at [] p = (0, 0)
pair_at (r ∷ rs) zero = r.ei
pair_at (r ∷ rs) (suc p) = pair_at rs p

-- Game number `k` of a round: `games` games for each pair in turn, every second one reversed.
unfoldable pub job_of : ℕ → ℕ → (ℕ → ℕ × ℕ) → ℕ → Job
job_of games round engines k = record {
  ei = engines (k / games);
  pair = k / games;
  round = round;
  game = k;
  reverse = k % games % 2 == 1;
}

abbrev pair_job : ℕ → ℕ → ℕ → ℕ → ℕ → ℕ → Job
pair_job e1 e2 pair round added g = record {
  ei = (e1, e2);
  pair = pair;
  round = round;
  game = added + g;
  reverse = g % 2 == 1;
}

-- What a pair adds to the jobs.
pub init_pair_lem :
    (games e1 e2 pair round : ℕ) (st : Adding)
    → job_queue_init_pair games e1 e2 pair round st ≡ record st {
      added = st.added + games;
      jobs = st.jobs ++ tab (pair_job e1 e2 pair round st.added) games;
    }
unfolding job_queue_init_pair add_game vec_push
init_pair_lem games e1 e2 pair round st =
    for_loop_inv
      (λ g t. t ≡ record st {
        added = st.added + g;
        jobs = st.jobs ++ tab (pair_job e1 e2 pair round st.added) g;
      })
      (add_game e1 e2 pair round) 0 games st
      (ap₂ (λ (a : ℕ) (js : List Job). record st { added = a; jobs = js }) (omega arith)
        (sym (append-nil st.jobs)))
      (λ g t l e.
        let e' : 0 + g ≡ g = omega arith in
        let e'' : st.added + g + 1 ≡ st.added + suc g = omega arith in
        rw (e, e', e'', append_assoc st.jobs) refl)

pair_at-push_below :
    (rs : List Result) (x : Result) (p : ℕ)
    → p < length rs
    → pair_at (rs ++ x ∷ []) p ≡ pair_at rs p
unfolding pair_at
pair_at-push_below [] x p h = absurd (omega arith)
pair_at-push_below (r ∷ rs) x zero h = refl
pair_at-push_below (r ∷ rs) x (suc p) h = pair_at-push_below rs x p (omega arith)

pair_at-push_last : (rs : List Result) (x : Result) → pair_at (rs ++ x ∷ []) (length rs) ≡ x.ei
unfolding pair_at
pair_at-push_last [] x = refl
pair_at-push_last (r ∷ rs) x = pair_at-push_last rs x

push_size :
    (rs : List Result) (x : Result) (games : ℕ)
    → length (rs ++ x ∷ []) * games ≡ length rs * games + games
push_size rs x games =
    let e : length (rs ++ x ∷ []) ≡ suc (length rs) = length-append rs (x ∷ []) ∙ omega arith in
    rw (e, suc-mul (length rs) games) (omega arith)

-- The jobs of a round, after those that were there before it, for as many pairs as there are
-- results.
pub record Upto (games round : ℕ) (before : List Job) (rs : List Result) (st : Adding)
    : Type 0 where
  pub added_eq : st.added ≡ length rs * games
  pub jobs_eq : st.jobs ≡ before ++ tab (job_of games round (pair_at rs)) (length rs * games)

old_jobs :
    (games round : ℕ) (rs : List Result) (x : Result) (k : ℕ)
    → k < length rs * games
    → job_of games round (pair_at rs) k ≡ job_of games round (pair_at (rs ++ x ∷ [])) k
unfolding job_of
old_jobs games round rs x k h =
    rw (pair_at-push_below rs x (k / games) (row_below k (length rs) games h)) refl

new_jobs :
    (games round e1 e2 : ℕ) (rs : List Result) (g : ℕ)
    → g < games
    → pair_job e1 e2 (length rs) round (length rs * games) g
      ≡ job_of games round (pair_at (rs ++ new_result e1 e2 ∷ [])) (length rs * games + g)
unfolding job_of new_result
new_jobs games round e1 e2 rs g h =
    let e : (length rs * games + g) / games ≡ length rs = row_div (length rs) g games h in
    let e' : (length rs * games + g) % games ≡ g = row_mod (length rs) g games h in
    rw (e, e', pair_at-push_last rs (new_result e1 e2)) refl

module _ (games round : ℕ) (before : List Job) where
  pub Upto-push :
      (e1 e2 : ℕ) (rs : List Result) (st : Adding)
      → Upto games round before rs st
      → Upto games round before
          (vec_push rs (new_result e1 e2))
          (job_queue_init_pair games e1 e2 (length rs) round st)
  unfolding vec_push
  Upto-push e1 e2 rs st u =
      let size = push_size rs (new_result e1 e2) games in
      rw (init_pair_lem games e1 e2 (length rs) round st) (record {
        added_eq = omega (arith, size, u.added_eq);
        jobs_eq =
            rw (u.jobs_eq, u.added_eq, size, tab_add _ (length rs * games) games)
              (append_assoc before _ _
                ∙ ap₂ (λ xs ys. before ++ (xs ++ ys))
                    (tab_ext _ _ (length rs * games)
                      (λ k. old_jobs games round rs (new_result e1 e2) k))
                    (tab_ext _ _ games (λ g. new_jobs games round e1 e2 rs g)));
      })
