-- ===== src/Main/Tournament/Order.antt =====
-- What a tournament leaves behind, in whatever order its workers take their steps.
use c_chess_cli.Common.{
  ℕ, ◌+◌, ◌≤◌, ◌<◌, ◌≡◌, ◌≢◌, refl, sym, ap, ◌∙◌, fun_ext, arith, false, List, [], ◌==◌, Option,
  none, some, Option-cases, Bool-cases, ltb, ltb→lt, inl, inr, length, update,
}
use c_chess_cli.Libc.{Libc}
use c_chess_cli.Options.{Options}
use c_chess_cli.SeqWriter.Queue.{lookup_below, joined}
use c_chess_cli.SeqWriter.Order.{
  Given, IsOrdered, seq_writer_init-IsOrdered, seq_writer_push-IsOrdered, queued_nothing,
}
use c_chess_cli.Jobs.{JobQueue, Job, nth}
use c_chess_cli.Jobs.Totals.{count_at}
use c_chess_cli.Game.Play.{Game}
use c_chess_cli.Main.Tournament.{
  Arena, Pc, playing, left, Move, play, System, pick, Reach, start, later, init, pgn_text,
  write_pgn,
}
use c_chess_cli.Main.Tournament.Invariant.{holds, tally, Inv}
use c_chess_cli.Main.Tournament.Invariant.Moves.{Move-Inv}

init-Inv :
    (n : ℕ) (jq : JobQueue) (c : Libc) (o : Options c.Double)
    → jq.idx ≡ 0
    → Inv n jq (init c o jq).arena (init c o jq).pc
unfolding tally
init-Inv n jq c o e = record {
  jobs_same = refl;
  sizes = refl;
  going = λ h. e;
  at_end = λ h. ground arith;
  few = omega arith;
  ahead = λ k h. (refl, refl);
  job_here = λ i h. absurd (ground arith);
  game_here = λ i h. absurd (ground arith);
  unique = λ i j h h'. absurd (ground arith);
  covered = λ k h h'. absurd (omega arith);
  scored_game = λ k h. absurd (h refl);
  scored_pair = λ k p out h. absurd (ground arith);
  counted = λ p out l. omega arith;
  left_end = λ i h. absurd (ground arith);
}

module _ (c : Libc) (o : Options c.Double) where
  abbrev pub text_of : Option Game → Option (List ℕ)
  text_of none = none
  text_of (some g) = some (pgn_text c o g)

  -- The texts of the games that were played, by index.
  abbrev pub texts_of : (ℕ → Option Game) → Given
  texts_of games k = text_of (games k)

  texts_of-update :
      (games : ℕ → Option Game) (idx : ℕ) (g : Game)
      → texts_of (update games idx (some g)) ≡ update (texts_of games) idx (some (pgn_text c o g))
  texts_of-update games idx g = fun_ext (λ k. pointwise games idx g k)
    where
      pointwise :
          (games : ℕ → Option Game) (idx : ℕ) (g : Game) (k : ℕ)
          → texts_of (update games idx (some g)) k
            ≡ update (texts_of games) idx (some (pgn_text c o g)) k
      pointwise games idx g k = ground arith

  pub Reach-Inv :
      {n : ℕ} {jq : JobQueue} {s : System c o}
      → jq.idx ≡ 0
      → Reach c o n jq s
      → Inv n jq s.arena s.pc
  Reach-Inv {n} {jq} e start = init-Inv n jq c o e
  Reach-Inv e (later r (pick i l mv)) = Move-Inv c o (Reach-Inv e r) i l mv

  module _ (on : (length o.pgn == 0) ≡ false) where
    Move-IsOrdered :
        {n : ℕ} {jq : JobQueue} {m m' : Arena} {pc : ℕ → Pc} {p p' : Pc} (i : ℕ)
        → Inv n jq m pc
        → pc i ≡ p
        → Move c o m p m' p'
        → IsOrdered (texts_of m.games) m.writer
        → IsOrdered (texts_of m'.games) m'.writer
    unfolding write_pgn
    Move-IsOrdered {m = m} i inv f (play {idx = idx} g wld) v =
        let (below, there, fresh, new) = inv.job_here i f in
        rw (texts_of-update m.games idx g, on)
          (seq_writer_push-IsOrdered (texts_of m.games) m.writer idx (pgn_text c o g) v
            (ap text_of fresh))
    Move-IsOrdered i inv f mv v = v

    Reach-IsOrdered :
        {n : ℕ} {jq : JobQueue} {s : System c o}
        → jq.idx ≡ 0
        → Reach c o n jq s
        → IsOrdered (texts_of s.arena.games) s.arena.writer
    Reach-IsOrdered e start = seq_writer_init-IsOrdered
    Reach-IsOrdered e (later r (pick i l mv)) =
        Move-IsOrdered i (Reach-Inv e r) refl mv (Reach-IsOrdered e r)

    -- Only games that were handed out are written.
    next-le-handed :
        {n : ℕ} {jq : JobQueue} {m : Arena} {pc : ℕ → Pc}
        → Inv n jq m pc
        → IsOrdered (texts_of m.games) m.writer
        → m.writer.idx_next ≤ m.handed
    next-le-handed {m = m} inv v = ground (arith, v.all_given m.handed, inv.ahead m.handed)

    -- However many workers there are and however their steps interleave, whatever their games: the
    -- jobs of two workers have different indices, and each is the job of the list with its index;
    -- and the PGN file holds, in the order of the list, the texts of the first games, all of which
    -- are over.
    pub Reach-joined :
        {n : ℕ} {jq : JobQueue} {s : System c o}
        → jq.idx ≡ 0
        → Reach c o n jq s
        → ((i j k : ℕ) → holds (s.pc i) ≡ some k → holds (s.pc j) ≡ some k → i ≡ j)
          × ((i : ℕ) (job : Job) (idx : ℕ) → s.pc i ≡ playing job idx → nth jq.jobs idx ≡ some job)
          × (s.arena.writer.out ≡ joined (texts_of s.arena.games) 0 s.arena.writer.idx_next)
          × ((k : ℕ) → k < s.arena.writer.idx_next → s.arena.games k ≢ none)
          × (s.arena.writer.idx_next ≤ s.arena.handed)
    Reach-joined {s = s} e r =
        let inv = Reach-Inv e r in
        let v = Reach-IsOrdered e r in
        (
          λ i j k. inv.unique i j {k = k},
          λ i job idx h. (inv.job_here i h).1,
          v.written,
          λ k h g. v.all_given k h (ap text_of g),
          next-le-handed inv v,
        )

    module _ {n : ℕ} {jq : JobQueue} {m : Arena} {pc : ℕ → Pc} (inv : Inv n jq m pc)
        (v : IsOrdered (texts_of m.games) m.writer) (all_left : (i : ℕ) → i < n → pc i ≡ left) where
      all_scored : (k : ℕ) → k < m.handed → m.scores k ≢ none
      all_scored k h z =
          let (i, l, held) = inv.covered k h z in
          let gone : pc i ≡ left = all_left i l in ground arith

      outcome :
          (k : ℕ)
          → k < m.handed
          → (job : Job) × (wld : ℕ) × (nth jq.jobs k ≡ some job)
            × (m.scores k ≡ some (job.pair, wld))
      outcome k h = elim (Option-cases (m.scores k)) [
        | inl z ↦ absurd (all_scored k h z)
        | inr ((p, wld), z) ↦
            let (job, there, same) = inv.scored_pair k p wld z in (job, wld, there, ground arith)
      ]

      next-eq-handed : m.writer.idx_next ≡ m.handed
      next-eq-handed = elim (Bool-cases (ltb m.writer.idx_next m.handed)) [
        | inl t ↦
            let h : m.writer.idx_next < m.handed = ltb→lt _ _ t in
            absurd (
              ground (
                arith,
                inv.scored_game m.writer.idx_next (all_scored m.writer.idx_next h),
                v.waiting m.writer.idx_next,
                lookup_below m.writer.idx_next (m.writer.idx_next + 1) m.writer.queued (omega arith)
                    v.gap,
              ))
        | inr t ↦ ground (arith, next-le-handed inv v)
      ]

      nothing_waits : m.writer.queued ≡ []
      nothing_waits =
          queued_nothing m.writer.idx_next m.writer.queued v.gap
            (λ k h. v.waiting k h ∙ ap text_of (inv.ahead k (omega (arith, next-eq-handed))).0)

    -- When all workers have left the loop, each job that was handed out has been played and was
    -- reported once, for its own pair, and the counts of a pair have grown by the outcomes that
    -- were reported for it; the PGN file holds the texts of all these games in the order of the
    -- list, and nothing waits to be written. If the queue was not stopped, these are all the jobs.
    pub Reach-finished :
        {n : ℕ} {jq : JobQueue} {s : System c o}
        → jq.idx ≡ 0
        → 0 < n
        → Reach c o n jq s
        → ((i : ℕ) → i < n → s.pc i ≡ left)
        → ((k : ℕ)
            → k < s.arena.handed
            → (s.arena.games k ≢ none)
              × ((job : Job) × (wld : ℕ) × (nth jq.jobs k ≡ some job)
                  × (s.arena.scores k ≡ some (job.pair, wld))))
          × ((p outcome : ℕ)
              → p < length jq.results
              → count_at s.arena.jq.results p outcome
                ≡ count_at jq.results p outcome + tally s.arena.handed s.arena.scores p outcome)
          × (s.arena.writer.out ≡ joined (texts_of s.arena.games) 0 s.arena.handed)
          × (s.arena.writer.queued ≡ [])
          × (s.arena.stopped ≡ false → s.arena.handed ≡ length jq.jobs)
    Reach-finished {n} {jq} {s} e some_worker r all_left =
        let inv = Reach-Inv e r in
        let v = Reach-IsOrdered e r in
        (
          λ k h. (inv.scored_game k (all_scored inv v all_left k h), outcome inv v all_left k h),
          inv.counted,
          v.written ∙ ap (joined (texts_of s.arena.games) 0) (next-eq-handed inv v all_left),
          nothing_waits inv v all_left,
          λ h. sym (inv.going h) ∙ inv.left_end 0 (all_left 0 some_worker),
        )
