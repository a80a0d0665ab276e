-- ===== src/Jobs/Totals.antt =====
-- What the workers get from the queue and leave in it, in any interleaving of their operations.
use c_chess_cli.Common.{
  ℕ, zero, suc, ◌+◌, ◌≤◌, ◌<◌, ◌≡◌, ◌≢◌, ◌↔◌, refl, ap, ◌∙◌, arith, true, List, [], ◌∷◌, ◌==◌, ◌&&◌,
  if◌then◌else◌, Option, none, some, Option-cases, inl, inr, length, take, drop,
}
use c_chess_cli.Jobs.{
  Bytes, Result, Job, JobQueue, nth, count_outcome, job_queue_pop, job_queue_add_result,
  job_queue_stop, job_queue_set_name, job_queue_done,
}

-- An operation of a worker. The mutex makes it one step.
pub data Op : Type 0 where
  pop : Op
  add_result : ℕ → ℕ → Op
  stop : Op
  set_name : ℕ → Bytes → Op

abbrev jobs_of : Option (Job × (ℕ × ℕ)) → List Job → List Job
jobs_of none js = js
jobs_of (some (j, _)) js = j ∷ js

unfoldable pub step : Op → JobQueue → JobQueue
unfolding job_queue_pop job_queue_add_result job_queue_stop job_queue_set_name
step pop jq = (job_queue_pop jq).1
step (add_result pair outcome) jq = job_queue_add_result jq pair outcome
step stop jq = job_queue_stop jq
step (set_name ei name) jq = job_queue_set_name jq ei name

unfoldable pub final : List Op → JobQueue → JobQueue
unfolding step
final [] jq = jq
final (op ∷ ops) jq = final ops (step op jq)

-- The jobs that a sequence of operations hands out.
unfoldable pub handed : List Op → JobQueue → List Job
unfolding job_queue_pop step
handed [] jq = []
handed (pop ∷ ops) jq = jobs_of (job_queue_pop jq).0 (handed ops (step pop jq))
handed (add_result pair outcome ∷ ops) jq = handed ops (step (add_result pair outcome) jq)
handed (stop ∷ ops) jq = handed ops (step stop jq)
handed (set_name ei name ∷ ops) jq = handed ops (step (set_name ei name) jq)

suc_add : (i : ℕ) → suc i + 1 ≡ suc (i + 1)
suc_add i = omega arith

drop-nth : (js : List Job) (i : ℕ) (j : Job) → nth js i ≡ some j → drop i js ≡ j ∷ drop (i + 1) js
drop-nth [] i j e = ground arith
drop-nth (x ∷ xs) zero j e = ground arith
drop-nth (x ∷ xs) (suc i) j e = rw (suc_add i) (drop-nth xs i j e)

drop-length : (js : List Job) → drop (length js) js ≡ []
drop-length [] = refl
drop-length (x ∷ xs) = drop-length xs

take-nothing : (n : ℕ) → take {A = Job} n [] ≡ []
take-nothing zero = refl
take-nothing (suc n) = refl

pub pop_none : (jq : JobQueue) → nth jq.jobs jq.idx ≡ none → job_queue_pop jq ≡ (none, jq)
unfolding job_queue_pop
pop_none jq e = rw (e, job_queue_pop) refl

pub pop_some :
    (jq : JobQueue) (j : Job)
    → nth jq.jobs jq.idx ≡ some j
    → job_queue_pop jq ≡ (some (j, (jq.idx, length jq.jobs)), record jq { idx = jq.idx + 1 })
unfolding job_queue_pop
pop_some jq j e = rw (e, job_queue_pop) refl

handed-stopped :
    (ops : List Op) (jq : JobQueue)
    → handed ops jq ≡ take (length (handed ops jq)) (drop jq.idx jq.jobs)
    → jq.idx ≡ length jq.jobs
    → handed ops jq ≡ []
handed-stopped ops jq h e =
    h
    ∙ ap (take (length (handed ops jq))) (ap (λ i. drop i jq.jobs) e ∙ drop-length jq.jobs)
    ∙ take-nothing (length (handed ops jq))

-- However the operations of the workers interleave, the jobs that are handed out are the next ones
-- of the list, in its order, each once.
pub handed-take :
    (ops : List Op) (jq : JobQueue)
    → handed ops jq ≡ take (length (handed ops jq)) (drop jq.idx jq.jobs)
unfolding handed step
handed-take [] jq = refl
handed-take (pop ∷ ops) jq = elim (Option-cases (nth jq.jobs jq.idx)) [
  | inl e ↦ rw (pop_none jq e, step) (handed-take ops jq)
  | inr (j, e) ↦
      rw (pop_some jq j e, step, drop-nth jq.jobs jq.idx j e)
        (ap (λ js. j ∷ js) (handed-take ops (record jq { idx = jq.idx + 1 })))
]
handed-take (add_result pair outcome ∷ ops) jq =
    handed-take ops (job_queue_add_result jq pair outcome)
handed-take (stop ∷ ops) jq =
    rw
      (handed-stopped ops (job_queue_stop jq) (handed-take ops (job_queue_stop jq))
        (unfold job_queue_stop in refl))
      refl
handed-take (set_name ei name ∷ ops) jq = handed-take ops (job_queue_set_name jq ei name)

-- The outcomes of a kind that are counted for a pair.
unfoldable pub count_at : List Result → ℕ → ℕ → ℕ
count_at [] p o = 0
count_at (r ∷ rs) zero o = r.count o
count_at (r ∷ rs) (suc p) o = count_at rs p o

-- How many operations report the outcome `o` for the pair `p`.
unfoldable pub reports : ℕ → ℕ → List Op → ℕ
reports p o [] = 0
reports p o (pop ∷ ops) = reports p o ops
reports p o (add_result pair outcome ∷ ops) =
    let rest = reports p o ops in if pair == p && outcome == o then suc rest else rest
reports p o (stop ∷ ops) = reports p o ops
reports p o (set_name ei name ∷ ops) = reports p o ops

pub count_at-count_outcome :
    (rs : List Result) (pair outcome p o : ℕ)
    → p < length rs
    → count_at (count_outcome rs pair outcome) p o
      ≡ count_at rs p o + (if pair == p && outcome == o then 1 else 0)
unfolding count_at count_outcome
count_at-count_outcome [] pair outcome p o h = absurd (omega arith)
count_at-count_outcome (r ∷ rs) zero outcome zero o h = ground arith
count_at-count_outcome (r ∷ rs) zero outcome (suc p) o h = ground arith
count_at-count_outcome (r ∷ rs) (suc pair) outcome zero o h = ground arith
count_at-count_outcome (r ∷ rs) (suc pair) outcome (suc p) o h =
    ground (arith, count_at-count_outcome rs pair outcome p o (omega arith))

pub length-count_outcome :
    (rs : List Result) (pair outcome : ℕ) → length (count_outcome rs pair outcome) ≡ length rs
unfolding count_outcome
length-count_outcome [] pair outcome = refl
length-count_outcome (r ∷ rs) zero outcome = refl
length-count_outcome (r ∷ rs) (suc pair) outcome = ap suc (length-count_outcome rs pair outcome)

pop_keeps : (jq : JobQueue) → (job_queue_pop jq).1.results ≡ jq.results
pop_keeps jq = elim (Option-cases (nth jq.jobs jq.idx)) [
  | inl e ↦ rw (pop_none jq e) refl
  | inr (j, e) ↦ rw (pop_some jq j e) refl
]

-- However the operations of the workers interleave, no result is lost or counted twice: the count
-- of an outcome for a pair grows by the number of times that it was reported.
pub final-count_at :
    (ops : List Op) (jq : JobQueue) (p o : ℕ)
    → p < length jq.results
    → count_at (final ops jq).results p o ≡ count_at jq.results p o + reports p o ops
unfolding final step reports job_queue_add_result job_queue_stop job_queue_set_name
final-count_at [] jq p o h = omega arith
final-count_at (pop ∷ ops) jq p o h =
    final-count_at ops (job_queue_pop jq).1 p o (rw (pop_keeps jq) h)
    ∙ ap (λ rs. count_at rs p o + reports p o ops) (pop_keeps jq)
final-count_at (add_result pair outcome ∷ ops) jq p o h =
    final-count_at ops (job_queue_add_result jq pair outcome) p o
      (unfold job_queue_add_result in rw (length-count_outcome jq.results pair outcome) h)
    ∙ ground (arith, count_at-count_outcome jq.results pair outcome p o h)
final-count_at (stop ∷ ops) jq p o h = final-count_at ops (job_queue_stop jq) p o h
final-count_at (set_name ei name ∷ ops) jq p o h =
    final-count_at ops (job_queue_set_name jq ei name) p o h

pub nth-within : (js : List Job) (i : ℕ) → i < length js → nth js i ≢ none
nth-within [] i h = absurd (omega arith)
nth-within (x ∷ xs) zero h = ground arith
nth-within (x ∷ xs) (suc i) h = nth-within xs i (omega arith)

pub nth-beyond : (js : List Job) (i : ℕ) → length js ≤ i → nth js i ≡ none
nth-beyond [] i h = refl
nth-beyond (x ∷ xs) zero h = absurd (omega arith)
nth-beyond (x ∷ xs) (suc i) h = nth-beyond xs i (omega arith)

-- The assertion of `job_queue_done`.
abbrev pub IsInRange : JobQueue → Type 0
IsInRange jq = jq.idx ≤ length jq.jobs

step-IsInRange : (op : Op) (jq : JobQueue) → IsInRange jq → IsInRange (step op jq)
unfolding step job_queue_add_result job_queue_stop job_queue_set_name
step-IsInRange pop jq h = elim (Option-cases (nth jq.jobs jq.idx)) [
  | inl e ↦ rw (pop_none jq e, step) h
  | inr (j, e) ↦ rw (pop_some jq j e, step) (ground (arith, nth-beyond jq.jobs jq.idx))
]
step-IsInRange (add_result pair outcome) jq h = h
step-IsInRange stop jq h = omega arith
step-IsInRange (set_name ei name) jq h = h

final-IsInRange : (ops : List Op) (jq : JobQueue) → IsInRange jq → IsInRange (final ops jq)
unfolding final
final-IsInRange [] jq h = h
final-IsInRange (op ∷ ops) jq h = final-IsInRange ops (step op jq) (step-IsInRange op jq h)

done-pop :
    (jq : JobQueue) → IsInRange jq → (job_queue_done jq ≡ true) ↔ ((job_queue_pop jq).0 ≡ none)
unfolding job_queue_done
done-pop jq h = elim (Option-cases (nth jq.jobs jq.idx)) [
  | inl e ↦ rw (pop_none jq e) (ground (arith, nth-within jq.jobs jq.idx))
  | inr (j, e) ↦ rw (pop_some jq j e) (ground (arith, nth-beyond jq.jobs jq.idx))
]

-- After any operations on a queue whose index is in range, the index is still in range, and the
-- queue says that it is done exactly when the next pop gets no job.
pub final-done :
    (ops : List Op) (jq : JobQueue)
    → IsInRange jq
    → IsInRange (final ops jq)
      × ((job_queue_done (final ops jq) ≡ true) ↔ ((job_queue_pop (final ops jq)).0 ≡ none))
final-done ops jq h = (final-IsInRange ops jq h, done-pop (final ops jq) (final-IsInRange ops jq h))
