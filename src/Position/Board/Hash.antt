-- ===== src/Position/Board/Hash.antt =====
-- The hash of a board when one square changes.
use c_chess_cli.Common.{
  ℕ, zero, suc, ◌≤◌, ◌<◌, ◌≡◌, refl, sym, ap, ◌∙◌, arith, bit_xor, Option, Bool-cases, inl, inr,
  ◌==◌, none, some, false,
}
use c_chess_cli.Bits.{xor_cancel, xor_assoc, xor_swap, xor_zero}
use c_chess_cli.Position.Board.{Man, Board, put, man_key, board_hash}

board_hash-put_above :
    (n : ℕ) (b : Board) (s : ℕ) (x : Option Man) → n ≤ s → board_hash n (put b s x) ≡ board_hash n b
unfolding board_hash
board_hash-put_above zero b s x h = refl
board_hash-put_above (suc n) b s x h =
    let off : (n == s) ≡ false = ground arith in
    rw off (ap (λ k. bit_xor k (man_key (b n) n)) (board_hash-put_above n b s x (omega arith)))

-- The old man's number is taken out and the new one's put in.
pub board_hash-put :
    (n : ℕ) (b : Board) (s : ℕ) (x : Option Man)
    → s < n
    → board_hash n (put b s x) ≡ bit_xor (bit_xor (board_hash n b) (man_key (b s) s)) (man_key x s)
unfolding board_hash
board_hash-put zero b s x h = absurd (omega arith)
board_hash-put (suc n) b s x h = elim (Bool-cases (n == s)) [
  | inl e ↦
      let same : n ≡ s = ground arith in
      rw (e, ← same)
        (ap (λ k. bit_xor k (man_key x n))
          (board_hash-put_above n b n x (omega arith)
            ∙ sym (xor_cancel (board_hash n b) (man_key (b n) n))))
  | inr off ↦
      rw (off, board_hash-put n b s x (ground arith))
        (xor_swap _ (man_key x s) (man_key (b n) n)
          ∙ ap (λ k. bit_xor k (man_key x s))
              (xor_swap (board_hash n b) (man_key (b s) s) (man_key (b n) n)))
]

module _ (side key : ℕ) (b : Board) (s : ℕ) (h : s < 64)
    (e : key ≡ bit_xor side (board_hash 64 b)) where
  -- The key when a man appears on an empty square.
  pub key-put :
      (m : Man)
      → b s ≡ none
      → bit_xor key (man_key (some m) s) ≡ bit_xor side (board_hash 64 (put b s (some m)))
  key-put m empty =
      rw (e, board_hash-put 64 b s (some m) h, empty, xor_zero)
        (xor_assoc side (board_hash 64 b) (man_key (some m) s))

  -- The key when the man on a square disappears.
  pub key-take :
      (m : Man)
      → b s ≡ some m
      → bit_xor key (man_key (some m) s) ≡ bit_xor side (board_hash 64 (put b s none))
  key-take m held =
      rw (e, board_hash-put 64 b s none h, held, xor_zero)
        (xor_assoc side (board_hash 64 b) (man_key (some m) s))
