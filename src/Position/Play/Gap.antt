-- ===== src/Position/Play/Gap.antt =====
-- What the hash key does not tell apart. `zobrist_init` draws the numbers for castling rooks and en
-- passant squares in a loop over the squares below NB_COLOR, so that all other entries stay 0.
use c_chess_cli.Common.{
  ℕ, zero, suc, ◌%◌, ◌^◌, ◌≤◌, ◌<◌, ◌≡◌, refl, ◌∙◌, arith, Bool, false, ◌==◌, ltb, if◌then◌else◌,
  List, [], ◌∷◌, range, Bool-cases, inl, inr,
}
use c_chess_cli.Bits.{test_bit, xor_zero}
use c_chess_cli.Bitboard.Word.{bb_test}
use c_chess_cli.Bitboard.Word.Laws.{bb_test-test_bit}
use c_chess_cli.Position.Zobrist.{zobrist_castling_square, zobrist_castling, zobrist_en_passant}
use c_chess_cli.Position.Board.{side_hash}
use c_chess_cli.Position.Play.Rooks.{castle_sum, zobrist_castling-castle_sum}

castle_sum_zero :
    (p : ℕ → Bool) (ss : List ℕ)
    → ((s : ℕ) → (if p s then zobrist_castling_square s else 0) ≡ 0)
    → castle_sum p ss ≡ 0
unfolding castle_sum
castle_sum_zero p [] h = refl
castle_sum_zero p (s ∷ ss) h = rw (h s, castle_sum_zero p ss h) (xor_zero 0)

undrawn_castling : (s : ℕ) → 2 ≤ s → zobrist_castling_square s ≡ 0
unfolding zobrist_castling_square
undrawn_castling s h = let e : ltb s 2 ≡ false = ground arith in rw e

undrawn_en_passant : (s : ℕ) → 2 ≤ s → s < 64 → zobrist_en_passant s ≡ 0
unfolding zobrist_en_passant
undrawn_en_passant s h h' =
    let e : ltb s 2 ≡ false = ground arith in
    let e' : (s == 64) ≡ false = ground arith in rw (e, e')

low_bits : (rooks s : ℕ) → rooks % 4 ≡ 0 → s < 2 → test_bit rooks s ≡ false
unfolding test_bit
low_bits rooks zero h l = ground arith
low_bits rooks (suc zero) h l = ground arith
low_bits rooks (suc (suc s)) h l = absurd (omega arith)

no_low_rooks :
    (rooks s : ℕ) → rooks % 4 ≡ 0 → (if bb_test rooks s then zobrist_castling_square s else 0) ≡ 0
no_low_rooks rooks s h = elim (Bool-cases (ltb s 2)) [
  | inl low ↦ ground (arith, bb_test-test_bit rooks s, low_bits rooks s)
  | inr high ↦ ground (arith, undrawn_castling s)
]

castling_blind : (rooks : ℕ) → rooks < 2 ^ 64 → rooks % 4 ≡ 0 → zobrist_castling rooks ≡ 0
castling_blind rooks h e =
    zobrist_castling-castle_sum rooks h
    ∙ castle_sum_zero (bb_test rooks) (range 64) (λ s. no_low_rooks rooks s e)

-- The code differs here from the comment on the key. Positions with the same side to move get the
-- same contribution to the key whatever their castling rights, as long as the rooks of a1 and b1
-- have none, and whichever en passant square they have.
pub side_hash_blind :
    (turn rooks rooks' ep ep' : ℕ)
    → rooks < 2 ^ 64
    → rooks' < 2 ^ 64
    → rooks % 4 ≡ 0
    → rooks' % 4 ≡ 0
    → 2 ≤ ep
    → ep < 64
    → 2 ≤ ep'
    → ep' < 64
    → side_hash turn rooks ep ≡ side_hash turn rooks' ep'
unfolding side_hash
side_hash_blind turn rooks rooks' ep ep' h h' e e' l u l' u' = rw (
  castling_blind rooks h e,
  castling_blind rooks' h' e',
  undrawn_en_passant ep l u,
  undrawn_en_passant ep' l' u',
)
