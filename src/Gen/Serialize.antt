-- ===== src/Gen/Serialize.antt =====
-- The two functions that turn sets of squares into moves.
use c_chess_cli.Common.{
  ℕ, ◌<◌, ◌^◌, ◌≡◌, refl, sym, ap, ap₂, ◌∙◌, fun_ext, arith, bit_and, Bool, ◌&&◌, List, [], ◌∷◌,
  ◌++◌, map, append-nil, append_assoc, if◌then◌else◌, keep, range, Bool-cases, inl, inr,
}
use c_chess_cli.Common.Int.{ℤ, offset}
use c_chess_cli.Bits.{test_bit-and, bit_and-le}
use c_chess_cli.Bitboard.Square.{nb_piece}
use c_chess_cli.Bitboard.Word.{bb_test, squares}
use c_chess_cli.Bitboard.Word.Laws.{bb_test-test_bit}
use c_chess_cli.Bitboard.Word.Pop.{squares-keep-range}
use c_chess_cli.Bitboard.Move.{move_build}
use c_chess_cli.Bitboard.Attacks.Leaper.{ray}
use c_chess_cli.Gen.{
  Moves, push_targets, serialize_piece_moves, pin_allows, push_pawns, serialize_pawn_moves,
}

push_targets_lem :
    (from prom : ℕ) (tos : List ℕ) (moves : Moves)
    → push_targets from prom tos moves ≡ moves ++ map (λ to. move_build from to prom) tos
unfolding push_targets
push_targets_lem from prom [] moves = sym (append-nil moves)
push_targets_lem from prom (to ∷ tos) moves =
    push_targets_lem from prom tos (moves ++ move_build from to prom ∷ []) ∙ append_assoc moves _ _

push_pawns_lem :
    (froms : List ℕ) (pins king_sq : ℕ) (shift : ℤ) (moves : Moves)
    → push_pawns froms pins king_sq shift moves
      ≡ moves
        ++ map
            (λ from. move_build from (offset from shift) nb_piece)
            (keep (λ from. pin_allows pins king_sq from (offset from shift)) froms)
unfolding push_pawns
push_pawns_lem [] pins king_sq shift moves = sym (append-nil moves)
push_pawns_lem (from ∷ froms) pins king_sq shift moves =
    elim (Bool-cases (pin_allows pins king_sq from (offset from shift))) [
      | inl e ↦ rw e (
          push_pawns_lem froms pins king_sq shift
            (moves ++ move_build from (offset from shift) nb_piece ∷ [])
          ∙ append_assoc moves _ _)
      | inr e ↦ rw e (push_pawns_lem froms pins king_sq shift moves)
    ]

keep-keep {ℓ} :
    {A : Type ℓ} (p q : A → Bool) (xs : List A) → keep p (keep q xs) ≡ keep (λ x. q x && p x) xs
keep-keep p q [] = refl
keep-keep p q (x ∷ xs) = elim (Bool-cases (q x)) [
  | inl e ↦ rw e (ap (λ ys. if p x then x ∷ ys else ys) (keep-keep p q xs))
  | inr e ↦ rw e (keep-keep p q xs)
]

bb_test-and : (a b s : ℕ) → bb_test (bit_and a b) s ≡ (bb_test a s && bb_test b s)
bb_test-and a b s =
    bb_test-test_bit (bit_and a b) s
    ∙ test_bit-and a b s
    ∙ ap₂ ◌&&◌ (sym (bb_test-test_bit a s)) (sym (bb_test-test_bit b s))

allowed_targets : (from pins king_sq targets : ℕ) → ℕ
allowed_targets from pins king_sq targets =
    if bb_test pins from then bit_and targets (ray king_sq from) else targets

allowed-bb_test :
    (from pins king_sq targets to : ℕ)
    → bb_test (allowed_targets from pins king_sq targets) to
      ≡ (bb_test targets to && pin_allows pins king_sq from to)
unfolding allowed_targets pin_allows
allowed-bb_test from pins king_sq targets to = elim (Bool-cases (bb_test pins from)) [
  | inl e ↦ rw e (bb_test-and targets (ray king_sq from) to)
  | inr e ↦ rw e (ground arith)
]

allowed-lt :
    (from pins king_sq targets : ℕ)
    → targets < 2 ^ 64
    → allowed_targets from pins king_sq targets < 2 ^ 64
unfolding allowed_targets
allowed-lt from pins king_sq targets h = ground (arith, bit_and-le targets (ray king_sq from))

piece_moves_lem :
    (from pins king_sq targets : ℕ) (moves : Moves)
    → serialize_piece_moves from pins king_sq targets moves
      ≡ moves
        ++ map
            (λ to. move_build from to nb_piece)
            (squares (allowed_targets from pins king_sq targets))
unfolding serialize_piece_moves allowed_targets
piece_moves_lem from pins king_sq targets moves = push_targets_lem from nb_piece _ moves

-- For a set of targets, or of pawns, of 64 bits: a piece gets, after the moves that are there, an
-- ordinary move to each square of its targets, in ascending order, that lies on the ray of its pin
-- if it is pinned; and each pawn of a set gets, in ascending order, the move by the shift, unless
-- it is pinned and would leave the ray of the pin.
pub serialize_moves-keep :
    (from pins king_sq targets pawns : ℕ) (shift : ℤ) (moves : Moves)
    → targets < 2 ^ 64
    → pawns < 2 ^ 64
    → (serialize_piece_moves from pins king_sq targets moves
        ≡ moves
          ++ map
              (λ to. move_build from to nb_piece)
              (keep (λ to. bb_test targets to && pin_allows pins king_sq from to) (range 64)))
      × (serialize_pawn_moves pawns pins king_sq shift moves
          ≡ moves
            ++ map
                (λ s. move_build s (offset s shift) nb_piece)
                (keep
                  (λ s. bb_test pawns s && pin_allows pins king_sq s (offset s shift))
                  (range 64)))
unfolding serialize_pawn_moves
serialize_moves-keep from pins king_sq targets pawns shift moves ht hp = (
  piece_moves_lem from pins king_sq targets moves
      ∙ ap (λ tos. moves ++ map (λ to. move_build from to nb_piece) tos)
          (squares-keep-range _ (allowed-lt from pins king_sq targets ht)
            ∙ ap (λ p. keep p (range 64)) (fun_ext (allowed-bb_test from pins king_sq targets))),
  push_pawns_lem (squares pawns) pins king_sq shift moves
      ∙ ap (λ ss. moves ++ map (λ s. move_build s (offset s shift) nb_piece) ss)
          (ap (keep (λ s. pin_allows pins king_sq s (offset s shift))) (squares-keep-range pawns hp)
            ∙ keep-keep _ (bb_test pawns) (range 64)),
)
