-- ===== src/Position/Board/Query.antt =====
-- What the queries of src/position.c say of the board, and what `set_square` and `clear_square` do
-- to it.
use c_chess_cli.Common.{
  subst, fun_ext, ℕ, zero, suc, ◌+◌, ◌≤◌, ◌<◌, ◌≡◌, refl, sym, ◌∙◌, arith, true, false, Bool-cases,
  inl, inr, Option, none, some,
}
use c_chess_cli.Bits.{test_bit}
use c_chess_cli.Bitboard.Word.{bb_test}
use c_chess_cli.Bitboard.Word.Laws.{bb_test-test_bit, test_bit-bb_set, test_bit-bb_clear}
use c_chess_cli.Position.State.{
  Position, clear_square, set_square, pos_color_on, pos_piece_on, first_piece,
}
use c_chess_cli.Position.Board.{Man, man, Board, put, has_piece, IsMan, Represents, Shows}
use c_chess_cli.Position.Board.Hash.{key-put, key-take}

-- What `pos_piece_on` says of a square.
abbrev pub piece_code : Option Man → ℕ
piece_code none = 6
piece_code (some m) = m.piece

pub Represents-ext :
    {bc bp : ℕ → ℕ} {key side : ℕ} (b b' : Board)
    → ((s : ℕ) → b s ≡ b' s)
    → Represents bc bp key side b
    → Represents bc bp key side b'
Represents-ext {bc} {bp} {key} {side} b b' e r = subst (Represents bc bp key side) (fun_ext e) r

code_hit : (x : Option Man) (k : ℕ) → has_piece x k ≡ true → k ≡ piece_code x
code_hit none k h = cc
code_hit (some m) k h = ground arith

code_miss :
    (x : Option Man) (k : ℕ)
    → IsMan x
    → k ≤ piece_code x
    → k < 6
    → has_piece x k ≡ false
    → k + 1 ≤ piece_code x
code_miss none k m le lt h = omega arith
code_miss (some y) k m le lt h = ground arith

-- The loop from `k` on, where no smaller piece is on the square.
first_piece-piece_code :
    (by_piece : ℕ → ℕ) (s : ℕ) (x : Option Man) (n k : ℕ)
    → n + k ≡ 6
    → ((p : ℕ) → p < 6 → test_bit (by_piece p) s ≡ has_piece x p)
    → IsMan x
    → k ≤ piece_code x
    → first_piece by_piece s n k ≡ piece_code x
unfolding first_piece
first_piece-piece_code by_piece s none zero k e h m le = refl
first_piece-piece_code by_piece s (some y) zero k e h m le = omega arith
first_piece-piece_code by_piece s x (suc n) k e h m le =
    elim (Bool-cases (bb_test (by_piece k) s)) [
      | inl hit ↦ rw hit (code_hit x k (sym (h k (omega arith)) ∙ sym (bb_test-test_bit _ s) ∙ hit))
      | inr miss ↦ rw miss (
          first_piece-piece_code by_piece s x n (k + 1) (omega arith) h m (
            code_miss x k m le (omega arith)
              (sym (h k (omega arith)) ∙ sym (bb_test-test_bit _ s) ∙ miss)))
    ]

-- `pos_piece_on` gives the piece on the square, and NB_PIECE on an empty one.
pub pos_piece_on-piece_code :
    (side : ℕ) (pos : Position) (b : Board) (s : ℕ)
    → Shows side pos b
    → pos_piece_on pos s ≡ piece_code (b s)
unfolding pos_piece_on
pos_piece_on-piece_code side pos b s r =
    first_piece-piece_code pos.by_piece s (b s) 6 0 refl (λ p. r.pieces p s) (r.men s) (omega arith)

pub pos_color_on_lem :
    (side : ℕ) (pos : Position) (b : Board) (s : ℕ) (m : Man)
    → Shows side pos b
    → b s ≡ some m
    → pos_color_on pos s ≡ m.color
unfolding pos_color_on
pos_color_on_lem side pos b s m r e =
    ground (arith, bb_test-test_bit (pos.by_color 0) s, r.colors 0 s, r.men s)

module _ (side : ℕ) (pos : Position) (b : Board) (c p s : ℕ) (r : Shows side pos b) where
  -- Putting a man on an empty square.
  pub set_square-Shows :
      c < 2 → p < 6 → s < 64 → b s ≡ none → Shows side (set_square pos c p s) (put b s (man c p))
  unfolding set_square
  set_square-Shows hc hp hs e = record {
    colors =
        λ c' t h. ground (arith, r.colors c' t, r.colors c s, test_bit-bb_set (pos.by_color c) s t);
    pieces =
        λ p' t h. ground (arith, r.pieces p' t, r.pieces p s, test_bit-bb_set (pos.by_piece p) s t);
    men = λ t. ground (arith, r.men t);
    within = λ t h. ground (arith, r.within t);
    hash = key-put side pos.key b s hs r.hash (record { color = c; piece = p }) e;
  }

  -- Men stand on the board.
  below : b s ≡ man c p → s < 64
  below e = ground (arith, r.within s)

  -- Taking the man away that is there.
  pub clear_square-Shows : b s ≡ man c p → Shows side (clear_square pos c p s) (put b s none)
  unfolding clear_square
  clear_square-Shows e = record {
    colors = λ c' t h.
        ground
          (arith, r.colors c' t, r.colors c s, r.men s, test_bit-bb_clear (pos.by_color c) s t);
    pieces = λ p' t h.
        ground
          (arith, r.pieces p' t, r.pieces p s, r.men s, test_bit-bb_clear (pos.by_piece p) s t);
    men = λ t. ground (arith, r.men t);
    within = λ t h. ground (arith, r.within t);
    hash = key-take side pos.key b s (below e) r.hash (record { color = c; piece = p }) e;
  }
