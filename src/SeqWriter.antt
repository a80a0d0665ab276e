-- ===== src/SeqWriter.antt =====
-- src/seqwriter.h and src/seqwriter.c: texts that arrive in any order are written to a file in the
-- order of their indices. The mutex makes each push one step; the file is the list of bytes that
-- were written to it, and `size_t` does not overflow.
pub mod Queue
pub mod Order
use c_chess_cli.Common.{
  ℕ, zero, suc, ◌+◌, List, [], ◌∷◌, ◌++◌, ◌==◌, ltb, if◌then◌else◌, take, drop,
}

abbrev pub Bytes : Type 0
Bytes = List ℕ

pub record SeqStr : Type 0 where
  pub idx : ℕ
  pub str : Bytes

pub record SeqWriter : Type 0 where
  pub queued : List SeqStr
  pub out : Bytes
  pub idx_next : ℕ

unfoldable pub seq_writer_init : SeqWriter
seq_writer_init = record { queued = []; out = []; idx_next = 0 }

-- The loop that moves the new last element before the first one with a larger index.
unfoldable pub insert : SeqStr → List SeqStr → List SeqStr
insert x [] = x ∷ []
insert x (y ∷ ys) = if ltb x.idx y.idx then x ∷ y ∷ ys else y ∷ insert x ys

-- The length of the longest sequential chunk at the front.
unfoldable pub chunk_len : ℕ → List SeqStr → ℕ
chunk_len next [] = 0
chunk_len next (y ∷ ys) = if y.idx == next then suc (chunk_len (next + 1) ys) else 0

-- What the `fputs` loop writes.
unfoldable pub texts : List SeqStr → Bytes
texts [] = []
texts (y ∷ ys) = y.str ++ texts ys

unfoldable pub seq_writer_push : SeqWriter → ℕ → Bytes → SeqWriter
seq_writer_push sw idx str =
    let queued = insert (record { idx = idx; str = str }) sw.queued in
    let i = chunk_len sw.idx_next queued in
    if i == 0 then record sw { queued = queued } else record {
      queued = drop i queued;
      out = sw.out ++ texts (take i queued);
      idx_next = sw.idx_next + i;
    }

-- A sequence of pushes, in the order in which the workers get the mutex.
unfoldable pub push_all : SeqWriter → List (ℕ × Bytes) → SeqWriter
push_all sw [] = sw
push_all sw ((idx, str) ∷ ps) = push_all (seq_writer_push sw idx str) ps
