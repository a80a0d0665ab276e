-- ===== src/SeqWriter/Order.antt =====
-- In whatever order the texts are pushed, the file holds them in the order of their indices.
use c_chess_cli.Common.{
  ℕ, zero, suc, ◌+◌, ◌≤◌, ◌<◌, ◌≡◌, ◌≢◌, refl, sym, ap, ap₂, ◌∙◌, arith, List, [], ◌∷◌, ◌++◌, ◌==◌,
  ltb, if◌then◌else◌, take, drop, Option, none, some, Bool-cases, inl, inr, update, append-nil,
  append_assoc,
}
use native.Mathlib.Nat.{zero-add}
use c_chess_cli.SeqWriter.{
  Bytes, SeqStr, SeqWriter, insert, chunk_len, texts, seq_writer_init, seq_writer_push, push_all,
}
use c_chess_cli.SeqWriter.Queue.{
  lookup, AscFrom, AscFrom-lower, lookup_below, lookup-insert, insert-AscFrom, text, joined,
  joined_ext, Flush, chunk_len-Flush,
}

-- What has been pushed so far, by index.
abbrev pub Given : Type 0
Given = ℕ → Option Bytes

-- The file holds the texts below `idx_next`, all of which were pushed; the queue holds the others,
-- in ascending order, and the text with the index `idx_next` is not among them.
pub record IsOrdered (g : Given) (sw : SeqWriter) : Type 0 where
  pub written : sw.out ≡ joined g 0 sw.idx_next
  pub all_given : (i : ℕ) → i < sw.idx_next → g i ≢ none
  pub waiting : (i : ℕ) → sw.idx_next ≤ i → lookup i sw.queued ≡ g i
  pub gap : AscFrom (sw.idx_next + 1) sw.queued

pub seq_writer_init-IsOrdered : IsOrdered (λ _. none) seq_writer_init
unfolding seq_writer_init joined lookup
seq_writer_init-IsOrdered = record {
  written = refl;
  all_given = λ i h. absurd (omega arith);
  waiting = λ i h. refl;
  gap = tt;
}

joined-add : (g : Given) (n k l : ℕ) → joined g n (k + l) ≡ joined g n k ++ joined g (n + k) l
unfolding joined
joined-add g n zero l =
    let e : zero + l ≡ l = omega arith in let e' : n + zero ≡ n = omega arith in rw (e, e')
joined-add g n (suc k) l =
    let e : suc k + l ≡ suc (k + l) = omega arith in
    let e' : n + suc k ≡ n + 1 + k = omega arith in
    rw (e, e', joined-add g (n + 1) k l) (sym (append_assoc (text (g n)) _ _))

module _ (g : Given) (sw : SeqWriter) (idx : ℕ) (str : Bytes) (v : IsOrdered g sw)
    (fresh : g idx ≡ none) where
  abbrev g' : Given
  g' = update g idx (some str)

  abbrev queue : List SeqStr
  queue = insert (record { idx = idx; str = str }) sw.queued

  late : sw.idx_next ≤ idx
  late = ground (arith, v.all_given idx)

  queue-AscFrom : AscFrom sw.idx_next queue
  queue-AscFrom =
      insert-AscFrom sw.idx_next _ sw.queued (AscFrom-lower _ _ sw.queued (omega arith) v.gap) late
        (v.waiting idx late ∙ fresh)

  queue-waiting : (i : ℕ) → sw.idx_next ≤ i → lookup i queue ≡ g' i
  queue-waiting i h =
      lookup-insert i _ _ sw.queued v.gap (v.waiting idx late ∙ fresh) ∙ ground (arith, v.waiting i)

  flush : Flush sw.idx_next queue (chunk_len sw.idx_next queue)
  flush = chunk_len-Flush sw.idx_next queue queue-AscFrom

  old_same : joined g 0 sw.idx_next ≡ joined g' 0 sw.idx_next
  old_same = joined_ext g g' 0 sw.idx_next (λ i p q. ground (arith, late))

  -- The state after the flush of a chunk, be it empty or not.
  abbrev flushed : SeqWriter
  flushed = record {
    queued = drop (chunk_len sw.idx_next queue) queue;
    out = sw.out ++ texts (take (chunk_len sw.idx_next queue) queue);
    idx_next = sw.idx_next + chunk_len sw.idx_next queue;
  }

  flushed_given : (i : ℕ) → i < sw.idx_next + chunk_len sw.idx_next queue → g' i ≢ none
  flushed_given i h = elim (Bool-cases (ltb i sw.idx_next)) [
    | inl old ↦ ground (arith, v.all_given i)
    | inr new ↦ ground (arith, flush.all_there i, queue-waiting i)
  ]

  flushed-IsOrdered : IsOrdered g' flushed
  flushed-IsOrdered = record {
    written =
        ap₂ ◌++◌ (v.written ∙ old_same) (
          flush.written
          ∙ joined_ext (λ i. lookup i queue) g' sw.idx_next (chunk_len sw.idx_next queue)
              (λ i p q. queue-waiting i p))
        ∙ sym (
            joined-add g' 0 sw.idx_next (chunk_len sw.idx_next queue)
            ∙ ap (λ n. joined g' 0 sw.idx_next ++ joined g' n (chunk_len sw.idx_next queue))
                (zero-add sw.idx_next));
    all_given = flushed_given;
    waiting = λ i h. flush.rest_same i h ∙ queue-waiting i (omega arith);
    gap = flush.rest_above;
  }

  push_flushes : seq_writer_push sw idx str ≡ flushed
  unfolding seq_writer_push texts
  push_flushes = elim (Bool-cases (chunk_len sw.idx_next queue == 0)) [
    | inl z ↦
        let e : chunk_len sw.idx_next queue ≡ 0 = ground arith in
        let e' : sw.idx_next + 0 ≡ sw.idx_next = omega arith in rw (e, e', append-nil)
    | inr more ↦ rw more
  ]

  -- A push with a new index keeps the order, whether or not it writes anything.
  pub seq_writer_push-IsOrdered : IsOrdered g' (seq_writer_push sw idx str)
  seq_writer_push-IsOrdered = rw push_flushes flushed-IsOrdered

-- No index is pushed twice, nor one that was given before.
abbrev pub IsFresh : Given → List (ℕ × Bytes) → Type 0
IsFresh g [] = Unit
IsFresh g ((idx, str) ∷ ps) = (g idx ≡ none) × IsFresh (update g idx (some str)) ps

-- What a sequence of pushes adds to what was given.
abbrev pub given : Given → List (ℕ × Bytes) → Given
given g [] = g
given g ((idx, str) ∷ ps) = given (update g idx (some str)) ps

push_all-IsOrdered :
    (g : Given) (sw : SeqWriter) (ps : List (ℕ × Bytes))
    → IsOrdered g sw
    → IsFresh g ps
    → IsOrdered (given g ps) (push_all sw ps)
unfolding push_all
push_all-IsOrdered g sw [] v f = v
push_all-IsOrdered g sw ((idx, str) ∷ ps) v f =
    push_all-IsOrdered (update g idx (some str)) (seq_writer_push sw idx str) ps
      (seq_writer_push-IsOrdered g sw idx str v f.0) f.1

pub queued_nothing :
    (n : ℕ) (q : List SeqStr) → AscFrom (n + 1) q → ((i : ℕ) → n ≤ i → lookup i q ≡ none) → q ≡ []
unfolding lookup
queued_nothing n [] a h = refl
queued_nothing n (y ∷ ys) a h = absurd (ground (arith, h y.idx))

module _ (g : Given) (sw : SeqWriter) (n : ℕ) (all_texts : ℕ → Bytes) (v : IsOrdered g sw)
    (h : (i : ℕ) → g i ≡ (if ltb i n then some (all_texts i) else none)) where
  next_eq : sw.idx_next ≡ n
  next_eq = ground (
    arith,
    v.all_given n,
    h n,
    v.waiting sw.idx_next,
    h sw.idx_next,
    lookup_below sw.idx_next (sw.idx_next + 1) sw.queued (omega arith) v.gap,
  )

  all_written :
      (sw.out ≡ joined (λ i. some (all_texts i)) 0 n) × (sw.queued ≡ []) × (sw.idx_next ≡ n)
  all_written = (
    v.written
        ∙ ap (joined g 0) next_eq
        ∙ joined_ext g (λ i. some (all_texts i)) 0 n (λ i p q. ground (arith, h i)),
    queued_nothing sw.idx_next sw.queued v.gap
        (λ i le. v.waiting i le ∙ ground (arith, h i, next_eq)),
    next_eq,
  )

-- Let texts be pushed to a new writer in any order, none of them twice, such that the indices are
-- 0, 1, ..., n - 1. Then the file holds the n texts in the order of their indices, and none is
-- left in the queue.
pub push_all-joined :
    (ps : List (ℕ × Bytes)) (n : ℕ) (all_texts : ℕ → Bytes)
    → IsFresh (λ _. none) ps
    → ((i : ℕ) → given (λ _. none) ps i ≡ (if ltb i n then some (all_texts i) else none))
    → ((push_all seq_writer_init ps).out ≡ joined (λ i. some (all_texts i)) 0 n)
      × ((push_all seq_writer_init ps).queued ≡ [])
      × ((push_all seq_writer_init ps).idx_next ≡ n)
push_all-joined ps n all_texts f h =
    all_written (given (λ _. none) ps) (push_all seq_writer_init ps) n all_texts
      (push_all-IsOrdered (λ _. none) seq_writer_init ps seq_writer_init-IsOrdered f) h
