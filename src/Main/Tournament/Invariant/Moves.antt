-- ===== src/Main/Tournament/Invariant/Moves.antt =====
-- A step of a worker keeps the invariant.
use c_chess_cli.Common.{
  ℕ, zero, suc, ◌+◌, ◌≤◌, ◌<◌, ◌≡◌, ◌≢◌, refl, sym, ap, ◌∙◌, arith, true, false, ◌==◌, List,
  if◌then◌else◌, Option, none, some, Bool-cases, inl, inr, length, update,
}
use c_chess_cli.Libc.{Libc}
use c_chess_cli.Options.{Options}
use c_chess_cli.Jobs.{
  JobQueue, Job, nth, job_queue_pop, job_queue_add_result, job_queue_stop, job_queue_set_name,
}
use c_chess_cli.Jobs.Totals.{
  nth-beyond, nth-within, count_at, count_at-count_outcome, length-count_outcome,
}
use c_chess_cli.Main.Tournament.{
  Arena, Pc, ready, playing, played, scored, left, Move, take, leave, play, add_result, stop,
}
use c_chess_cli.Main.Tournament.Invariant.{holds, is_score, tally, popped, popped_nothing, Inv}

tally-next :
    (n : ℕ) (scores : ℕ → Option (ℕ × ℕ)) (p o : ℕ)
    → scores n ≡ none
    → tally (n + 1) scores p o ≡ tally n scores p o
unfolding tally
tally-next n scores p o h = ground arith

tally-beyond :
    (n : ℕ) (scores : ℕ → Option (ℕ × ℕ)) (k : ℕ) (x : Option (ℕ × ℕ)) (p o : ℕ)
    → n ≤ k
    → tally n (update scores k x) p o ≡ tally n scores p o
unfolding tally
tally-beyond zero scores k x p o h = refl
tally-beyond (suc n) scores k x p o h = ground (arith, tally-beyond n scores k x p o)

tally-update :
    (n : ℕ) (scores : ℕ → Option (ℕ × ℕ)) (k : ℕ) (x : Option (ℕ × ℕ)) (p o : ℕ)
    → k < n
    → scores k ≡ none
    → tally n (update scores k x) p o ≡ tally n scores p o + (if is_score p o x then 1 else 0)
unfolding tally
tally-update zero scores k x p o h new = absurd (omega arith)
tally-update (suc n) scores k x p o h new = elim (Bool-cases (n == k)) [
  | inl t ↦ ground (arith, tally-beyond n scores k x p o)
  | inr t ↦ ground (arith, tally-update n scores k x p o)
]

module _ (c : Libc) (o : Options c.Double) {n : ℕ} {jq : JobQueue} {m : Arena} {pc : ℕ → Pc}
    (inv : Inv n jq m pc) (i : ℕ) where
  open inv use {
    jobs_same, sizes, going, at_end, few, ahead, job_here, game_here, unique, covered, scored_game,
    scored_pair, counted, left_end,
  }

  -- A job is handed out only before a stop, with the number of those before as its index.
  fresh_job :
      {job : Job} {idx count : ℕ}
      → (job_queue_pop m.jq).0 ≡ some (job, (idx, count))
      → (m.stopped ≡ false)
        × (idx ≡ m.handed)
        × (m.handed < length jq.jobs)
        × (nth jq.jobs idx ≡ some job)
  fresh_job e =
      let (at, there, q) = popped m.jq e in
      let few_jobs : m.jq.idx < length m.jq.jobs = ground (arith, nth-beyond m.jq.jobs m.jq.idx) in
      let same_length = ap (λ (js : List Job). length js) jobs_same in
      let running : m.stopped ≡ false = ground (arith, at_end) in
      let first : m.jq.idx ≡ m.handed = going running in
      (
        running,
        at ∙ first,
        omega (arith, few_jobs, same_length, first),
        ap (nth jq.jobs) at ∙ ap (λ js. nth js m.jq.idx) (sym jobs_same) ∙ there,
      )

  -- When no job is left, all have been handed out, or the queue was stopped.
  no_job : (job_queue_pop m.jq).0 ≡ none → m.jq.idx ≡ length jq.jobs
  no_job e =
      let nothing = popped_nothing m.jq e in
      let same_length = ap (λ (js : List Job). length js) jobs_same in
      elim (Bool-cases m.stopped) [
        | inl t ↦ at_end t
        | inr t ↦ ground (arith, nth-within m.jq.jobs m.jq.idx, going t)
      ]

  held_below : (p : Pc) (j k : ℕ) → pc j ≡ p → holds p ≡ some k → k < m.handed
  held_below ready j k f h = cc
  held_below (playing job idx) j k f h = ground (arith, job_here j f)
  held_below (played job idx wld) j k f h = ground (arith, game_here j f)
  held_below (scored wld_count) j k f h = cc
  held_below left j k f h = cc

  Move-jobs_same : {p p' : Pc} {m' : Arena} → Move c o m p m' p' → m'.jq.jobs ≡ jq.jobs
  unfolding job_queue_set_name job_queue_add_result job_queue_stop
  Move-jobs_same (take e) = ground (arith, popped m.jq e)
  Move-jobs_same mv = jobs_same

  Move-sizes :
      {p p' : Pc} {m' : Arena} → Move c o m p m' p' → length m'.jq.results ≡ length jq.results
  unfolding job_queue_set_name job_queue_add_result job_queue_stop
  Move-sizes (take e) = ground (arith, popped m.jq e)
  Move-sizes (add_result {job} {wld = wld}) = length-count_outcome m.jq.results job.pair wld ∙ sizes
  Move-sizes mv = sizes

  Move-going :
      {p p' : Pc} {m' : Arena} → Move c o m p m' p' → (m'.stopped ≡ false → m'.jq.idx ≡ m'.handed)
  unfolding job_queue_set_name job_queue_add_result job_queue_stop
  Move-going (take e) h = ground (arith, popped m.jq e, going)
  Move-going (stop e) h = ground arith
  Move-going mv h = going h

  Move-at_end :
      {p p' : Pc} {m' : Arena}
      → Move c o m p m' p'
      → (m'.stopped ≡ true → m'.jq.idx ≡ length jq.jobs)
  unfolding job_queue_set_name job_queue_add_result job_queue_stop
  Move-at_end (take e) h = ground (arith, popped m.jq e, fresh_job e)
  Move-at_end (stop e) h = ap (λ js. length js) jobs_same
  Move-at_end mv h = at_end h

  Move-few : {p p' : Pc} {m' : Arena} → Move c o m p m' p' → m'.handed ≤ length jq.jobs
  Move-few (take e) = ground (arith, fresh_job e)
  Move-few mv = few

  Move-left_end :
      {p p' : Pc} {m' : Arena}
      → Move c o m p m' p'
      → pc i ≡ p
      → (j : ℕ) → update pc i p' j ≡ left
      → m'.jq.idx ≡ length jq.jobs
  unfolding job_queue_set_name job_queue_add_result job_queue_stop
  Move-left_end (take e) f j h = ground (arith, popped m.jq e, fresh_job e, left_end j)
  Move-left_end (leave e) f j h = no_job e
  Move-left_end (stop e) f j h = ap (λ js. length js) jobs_same
  Move-left_end mv f j h = ground (arith, left_end j)

  Move-ahead :
      {p p' : Pc} {m' : Arena}
      → Move c o m p m' p'
      → pc i ≡ p
      → (k : ℕ) → m'.handed ≤ k
      → (m'.games k ≡ none) × (m'.scores k ≡ none)
  Move-ahead (take e) f k h = ahead k (omega arith)
  Move-ahead (play g wld) f k h = ground (arith, ahead k, job_here i f)
  Move-ahead add_result f k h = ground (arith, ahead k, game_here i f)
  Move-ahead mv f k h = ahead k h

  Move-job_here :
      {p p' : Pc} {m' : Arena}
      → Move c o m p m' p'
      → pc i ≡ p
      → (j : ℕ) {job : Job} {idx : ℕ} → update pc i p' j ≡ playing job idx
      → (idx < m'.handed)
        × (nth jq.jobs idx ≡ some job)
        × (m'.games idx ≡ none)
        × (m'.scores idx ≡ none)
  Move-job_here (take e) f j {job = job'} {idx = idx'} h =
      ground (arith, fresh_job e, ahead m.handed, job_here j {job = job'} {idx = idx'})
  Move-job_here (play {idx = idx} g wld) f j {job = job'} {idx = idx'} h =
      ground (arith, job_here j {job = job'} {idx = idx'}, unique i j {k = idx})
  Move-job_here (add_result {idx = idx}) f j {job = job'} {idx = idx'} h =
      ground (arith, job_here j {job = job'} {idx = idx'}, unique i j {k = idx})
  Move-job_here mv f j {job = job'} {idx = idx'} h =
      ground (arith, job_here j {job = job'} {idx = idx'})

  Move-game_here :
      {p p' : Pc} {m' : Arena}
      → Move c o m p m' p'
      → pc i ≡ p
      → (j : ℕ) {job : Job} {idx wld : ℕ} → update pc i p' j ≡ played job idx wld
      → (idx < m'.handed)
        × (nth jq.jobs idx ≡ some job)
        × (m'.games idx ≢ none)
        × (m'.scores idx ≡ none)
  Move-game_here (take e) f j {job = job'} {idx = idx'} {wld = wld'} h =
      ground (arith, game_here j {job = job'} {idx = idx'} {wld = wld'})
  Move-game_here (play {idx = idx} g wld) f j {job = job'} {idx = idx'} {wld = wld'} h = ground (
    arith,
    job_here i f,
    game_here j {job = job'} {idx = idx'} {wld = wld'},
    unique i j {k = idx},
  )
  Move-game_here (add_result {idx = idx}) f j {job = job'} {idx = idx'} {wld = wld'} h =
      ground (arith, game_here j {job = job'} {idx = idx'} {wld = wld'}, unique i j {k = idx})
  Move-game_here mv f j {job = job'} {idx = idx'} {wld = wld'} h =
      ground (arith, game_here j {job = job'} {idx = idx'} {wld = wld'})

  Move-unique :
      {p p' : Pc} {m' : Arena}
      → Move c o m p m' p'
      → pc i ≡ p
      → (a b : ℕ) {k : ℕ} → holds (update pc i p' a) ≡ some k
      → holds (update pc i p' b) ≡ some k
      → a ≡ b
  Move-unique (take e) f a b {k} h h' = ground (
    arith,
    fresh_job e,
    held_below (pc a) a k refl,
    held_below (pc b) b k refl,
    unique a b {k = k},
  )
  Move-unique mv f a b {k} h h' =
      ground (arith, unique a b {k = k}, unique i b {k = k}, unique a i {k = k})

  Move-covered :
      {p p' : Pc} {m' : Arena}
      → Move c o m p m' p'
      → pc i ≡ p
      → i < n
      → (k : ℕ) → k < m'.handed
      → m'.scores k ≡ none
      → (j : ℕ) × (j < n) × (holds (update pc i p' j) ≡ some k)
  Move-covered (take e) f l k h h' = elim (Bool-cases (k == m.handed)) [
    | inl new ↦ (i, l, ground (arith, fresh_job e))
    | inr old ↦ let (j, b, held) = covered k (ground arith) h' in (j, b, ground arith)
  ]
  Move-covered (add_result {idx = idx}) f l k h h' = elim (Bool-cases (k == idx)) [
    | inl new ↦ absurd (ground arith)
    | inr old ↦ let (j, b, held) = covered k h (ground arith) in (j, b, ground arith)
  ]
  Move-covered mv f l k h h' = let (j, b, held) = covered k h h' in (j, b, ground arith)

  Move-scored_game :
      {p p' : Pc} {m' : Arena}
      → Move c o m p m' p'
      → pc i ≡ p
      → (k : ℕ) → m'.scores k ≢ none
      → m'.games k ≢ none
  Move-scored_game (play g wld) f k h = ground (arith, scored_game k)
  Move-scored_game add_result f k h = ground (arith, scored_game k, game_here i f)
  Move-scored_game mv f k h = scored_game k h

  Move-scored_pair :
      {p p' : Pc} {m' : Arena}
      → Move c o m p m' p'
      → pc i ≡ p
      → (k q out : ℕ) → m'.scores k ≡ some (q, out)
      → (job : Job) × (nth jq.jobs k ≡ some job) × (job.pair ≡ q)
  Move-scored_pair (add_result {job} {idx} {wld}) f k q out h = elim (Bool-cases (k == idx)) [
    | inl t ↦ (job, ground (arith, game_here i f), ground (arith))
    | inr t ↦ scored_pair k q out (ground arith)
  ]
  Move-scored_pair mv f k q out h = scored_pair k q out h

  Move-counted :
      {p p' : Pc} {m' : Arena}
      → Move c o m p m' p'
      → pc i ≡ p
      → (q out : ℕ) → q < length jq.results
      → count_at m'.jq.results q out ≡ count_at jq.results q out + tally m'.handed m'.scores q out
  unfolding job_queue_set_name job_queue_add_result job_queue_stop
  Move-counted (take e) f q out l =
      let (at, there, same) = popped m.jq e in
      rw same (
        counted q out l
        ∙ ap (λ t. count_at jq.results q out + t)
            (sym (tally-next m.handed m.scores q out (ahead m.handed (omega arith)).1)))
  Move-counted (add_result {job} {idx} {wld}) f q out l =
      let (below, there, over, new) = game_here i f in
      count_at-count_outcome m.jq.results job.pair wld q out (omega (arith, sizes))
      ∙ omega (
        arith,
        counted q out l,
        tally-update m.handed m.scores idx (some (job.pair, wld)) q out below new,
      )
  Move-counted mv f q out l = counted q out l

  pub Move-Inv :
      {p' : Pc} {m' : Arena} → i < n → Move c o m (pc i) m' p' → Inv n jq m' (update pc i p')
  Move-Inv l mv = record {
    jobs_same = Move-jobs_same mv;
    sizes = Move-sizes mv;
    going = Move-going mv;
    at_end = Move-at_end mv;
    few = Move-few mv;
    ahead = Move-ahead mv refl;
    job_here = Move-job_here mv refl;
    game_here = Move-game_here mv refl;
    unique = Move-unique mv refl;
    covered = Move-covered mv refl l;
    scored_game = Move-scored_game mv refl;
    scored_pair = Move-scored_pair mv refl;
    counted = Move-counted mv refl;
    left_end = Move-left_end mv refl;
  }
