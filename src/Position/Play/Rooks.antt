-- ===== src/Position/Play/Rooks.antt =====
-- Castling rights only shrink in `pos_move`, and their hash follows by `^`.
use mathlib.Core.Bool.{xor}
use c_chess_cli.Common.{
  ℕ, ◌≤◌, ◌<◌, ◌^◌, ◌≡◌, sym, ap, ap₂, ◌∙◌, arith, bit_xor, Bool, true, false, if◌then◌else◌, List,
  [], ◌∷◌, keep, range, fun_ext, Bool-cases, inl, inr, if_both,
}
use native.Mathlib.Nat.{le_refl}
use c_chess_cli.Bits.{
  bit_and-le, bit_xor-lt, xor_assoc, xor_zero, xor_self, xor_medial, xor_comm, test_bit-xor,
}
use c_chess_cli.Bitboard.Word.{bb_not, bb_test}
use c_chess_cli.Bitboard.Word.Laws.{bb_test-test_bit}
use c_chess_cli.Bitboard.Word.Pop.{squares-keep-range}
use c_chess_cli.Position.State.{Position, clear_square, set_square}
use c_chess_cli.Position.Zobrist.{zobrist_castling, zobrist_castling_square, xor_castling}
use c_chess_cli.Position.Play.{
  capture_on, move_piece, set_ep_square, after_pawn, after_king, move_any,
}

-- `q` has lost castling rights, or none, on the way from `p`.
abbrev Fewer : Position → Position → Type 0
Fewer p q = q.castle_rooks ≤ p.castle_rooks

pub capture_on_rooks : (p : Position) (to : ℕ) → Fewer p (capture_on p to)
unfolding capture_on clear_square
capture_on_rooks p to = if_both (Fewer p) _ _ _ (le_refl _) (bit_and-le _ _)

set_ep_square_rooks : (p : Position) (us from to : ℕ) → Fewer p (set_ep_square p us from to)
unfolding set_ep_square
set_ep_square_rooks p us from to = if_both (Fewer p) _ _ _ (le_refl _) (le_refl _)

after_pawn_rooks :
    (p : Position) (ep us from to prom : ℕ) → Fewer p (after_pawn p ep us from to prom)
unfolding after_pawn clear_square set_square
after_pawn_rooks p ep us from to prom =
    ground (arith, set_ep_square_rooks (record p { rule50 = 0 }) us from to)

after_king_rooks : (p : Position) (ours us from to : ℕ) → Fewer p (after_king p ours us from to)
unfolding after_king clear_square set_square
after_king_rooks p ours us from to = if_both (Fewer p) _ _ _ (bit_and-le _ _) (bit_and-le _ _)

pub move_any_rooks :
    (before p : Position) (piece from to prom : ℕ) → Fewer p (move_any before p piece from to prom)
unfolding move_any move_piece clear_square set_square
move_any_rooks before p piece from to prom =
    let m = move_piece p before.turn piece from to in
    ground (
      arith,
      bit_and-le p.castle_rooks (bb_not (2 ^ from)),
      after_pawn_rooks m before.ep_square before.turn from to prom,
      after_king_rooks m (before.by_color before.turn) before.turn from to,
    )

-- The castling hash as a sum over all squares.
unfoldable pub castle_sum : (ℕ → Bool) → List ℕ → ℕ
castle_sum p [] = 0
castle_sum p (s ∷ ss) = bit_xor (if p s then zobrist_castling_square s else 0) (castle_sum p ss)

xor_castling-castle_sum :
    (p : ℕ → Bool) (ss : List ℕ) (k : ℕ) → xor_castling (keep p ss) k ≡ bit_xor k (castle_sum p ss)
unfolding xor_castling castle_sum
xor_castling-castle_sum p [] k = sym (xor_zero k)
xor_castling-castle_sum p (s ∷ ss) k = elim (Bool-cases (p s)) [
  | inl t ↦
      rw (t, xor_castling-castle_sum p ss)
        (xor_assoc k (zobrist_castling_square s) (castle_sum p ss))
  | inr f ↦ rw (f, xor_castling-castle_sum p ss) (ap (bit_xor k) (sym (xor_zero _) ∙ xor_comm _ 0))
]

pub zobrist_castling-castle_sum :
    (b : ℕ) → b < 2 ^ 64 → zobrist_castling b ≡ castle_sum (bb_test b) (range 64)
unfolding zobrist_castling
zobrist_castling-castle_sum b h =
    ap (λ l. xor_castling l 0) (squares-keep-range b h)
    ∙ xor_castling-castle_sum (bb_test b) (range 64) 0
    ∙ xor_comm 0 _
    ∙ xor_zero _

pick :
    (c d : Bool) (z : ℕ)
    → (if xor c d then z else 0) ≡ bit_xor (if c then z else 0) (if d then z else 0)
unfolding xor
pick true true z = sym (xor_self z)
pick true false z = sym (xor_zero z)
pick false true z = sym (xor_zero z) ∙ xor_comm z 0
pick false false z = sym (xor_zero 0)

castle_sum-xor :
    (p q : ℕ → Bool) (ss : List ℕ)
    → castle_sum (λ s. xor (p s) (q s)) ss ≡ bit_xor (castle_sum p ss) (castle_sum q ss)
unfolding castle_sum
castle_sum-xor p q [] = sym (xor_zero 0)
castle_sum-xor p q (s ∷ ss) =
    ap₂ bit_xor (pick (p s) (q s) (zobrist_castling_square s)) (castle_sum-xor p q ss)
    ∙ xor_medial _ _ _ _

-- The castling part of the key turns a symmetric difference of two 64-bit sets of rooks into the
-- symmetric difference of their parts, which is why `pos_move` may update the key by the rights
-- that were lost.
pub zobrist_castling-xor :
    (a b : ℕ)
    → a < 2 ^ 64
    → b < 2 ^ 64
    → zobrist_castling (bit_xor a b) ≡ bit_xor (zobrist_castling a) (zobrist_castling b)
zobrist_castling-xor a b ha hb =
    zobrist_castling-castle_sum (bit_xor a b) (bit_xor-lt 64 a b ha hb)
    ∙ ap (λ p. castle_sum p (range 64))
        (fun_ext λ s.
          bb_test-test_bit _ s
          ∙ test_bit-xor a b s
          ∙ ap₂ xor (sym (bb_test-test_bit a s)) (sym (bb_test-test_bit b s)))
    ∙ castle_sum-xor (bb_test a) (bb_test b) (range 64)
    ∙ ap₂ bit_xor (sym (zobrist_castling-castle_sum a ha)) (sym (zobrist_castling-castle_sum b hb))
