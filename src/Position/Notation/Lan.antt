-- ===== src/Position/Notation/Lan.antt =====
-- A move survives the way to an engine and back: `pos_lan_to_move` after `pos_move_to_lan`.
use c_chess_cli.Common.{
  ℕ, zero, suc, ◌+◌, ◌-◌, ◌/◌, ◌^◌, ◌≤◌, ◌<◌, ◌≡◌, ◌≢◌, ◌⊎◌, refl, ap, ◌∙◌, arith, true, false, [],
  ◌∷◌, ◌++◌, ltb, if◌then◌else◌, some, Bool-cases, inl, inr, bit_or, ==_ne,
}
use c_chess_cli.Bits.{bit_and_mask}
use c_chess_cli.Bitboard.Square.{black, king, nb_piece, square_from, rank_of, file_of}
use c_chess_cli.Bitboard.Move.{
  move_build, move_from, move_to, move_prom, move_build-move_from-move_to-move_prom,
}
use c_chess_cli.Position.State.{Position, pos_piece_on, pos_move_is_castling}
use c_chess_cli.Position.Notation.{
  Bytes, piece_label, label_index, square_to_string, string_to_square, lan_to, pos_move_to_lan,
  lan_castling, is_square, lan_prom, pos_lan_to_move,
}

square_chars : (s : ℕ) → s < 64 → square_to_string s ≡ (97 + file_of s) ∷ (49 + rank_of s) ∷ []
unfolding square_to_string
square_chars s h = rw (==_ne s 64 (omega arith)) refl

chars_square :
    (s : ℕ)
    → s < 64
    → (is_square (97 + file_of s) (49 + rank_of s) ≡ true)
      × (square_from (49 + rank_of s - 49) (97 + file_of s - 97) ≡ s)
unfolding is_square square_from rank_of file_of
chars_square s h = (ground arith, omega arith)

-- Squares, and the sign for no square, are read back as they were printed.
pub string_to_square-square_to_string :
    (square : ℕ) → square ≤ 64 → string_to_square (square_to_string square) ≡ square
unfolding string_to_square square_to_string square_from rank_of file_of
string_to_square-square_to_string square h = ground arith

prom_chars : ℕ → Bytes
prom_chars prom = if ltb prom nb_piece then piece_label black prom ∷ [] else []

read_prom : (prom : ℕ) → prom ≤ 6 → lan_prom (prom_chars prom) ≡ some prom
unfolding lan_prom prom_chars label_index
read_prom zero h = refl
read_prom (suc zero) h = refl
read_prom (suc (suc zero)) h = refl
read_prom (suc (suc (suc zero))) h = refl
read_prom (suc (suc (suc (suc zero)))) h = refl
read_prom (suc (suc (suc (suc (suc zero))))) h = refl
read_prom (suc (suc (suc (suc (suc (suc prom)))))) h = let e : prom ≡ 0 = omega arith in rw e refl

read_lan :
    (p : Position) (from to prom : ℕ)
    → from < 64
    → to < 64
    → prom ≤ 6
    → pos_lan_to_move p (square_to_string from ++ (square_to_string to ++ prom_chars prom))
      ≡ some (move_build from (lan_castling p from to) prom)
unfolding pos_lan_to_move
read_lan p from to prom hf ht hp =
    let f = chars_square from hf in
    let t = chars_square to ht in
    rw
      (
        square_chars from hf,
        square_chars to ht,
        pos_lan_to_move,
        read_prom prom hp,
        f.0,
        t.0,
        f.1,
        t.1,
      )
      refl

-- In a game of ordinary chess, a castling move is a king's move onto a rook three files to the
-- right or four to the left, and no other king's move goes two files.
pub record IsPlain (p : Position) (m : ℕ) : Type 0 where
  pub castles :
      pos_move_is_castling p m ≡ true
      → (pos_piece_on p (move_from m) ≡ king)
        × ((move_to m ≡ move_from m + 3) ⊎ (move_to m + 4 ≡ move_from m))
  pub walks :
      pos_move_is_castling p m ≡ false
      → pos_piece_on p (move_from m) ≡ king
      → (move_to m ≢ move_from m + 2) × (move_to m + 2 ≢ move_from m)

lan_castling-lan_to :
    (p : Position) (m : ℕ)
    → (p.chess960 ≡ false → IsPlain p m)
    → lan_castling p (move_from m) (lan_to p m) ≡ move_to m
unfolding lan_castling lan_to
lan_castling-lan_to p m h = elim (Bool-cases p.chess960) [
  | inl e ↦ rw e refl
  | inr e ↦ elim (Bool-cases (pos_move_is_castling p m)) [
    | inl c ↦ rw (c, e) (ground (arith, (h e).castles c))
    | inr c ↦ rw (c, e) (ground (arith, (h e).walks c))
  ]
]

field_bounds : (m : ℕ) → (move_from m < 64) × (move_to m < 64)
unfolding move_from move_to
field_bounds m = rw (bit_and_mask 6 m, bit_and_mask 6 (m / 2 ^ 6)) (omega arith)

lan_to-bound : (p : Position) (m : ℕ) → (p.chess960 ≡ false → IsPlain p m) → lan_to p m < 64
unfolding lan_to
lan_to-bound p m h = elim (Bool-cases p.chess960) [
  | inl e ↦ rw e (field_bounds m).1
  | inr e ↦ elim (Bool-cases (pos_move_is_castling p m)) [
    | inl c ↦ rw (c, e) (ground (arith, (h e).castles c, field_bounds m))
    | inr c ↦ rw (c, e) (field_bounds m).1
  ]
]

-- A move that is not the null move, with a promotion that exists, is read back from its text as the
-- same 16 bits; unless the game is chess960, castling and king moves must be those of chess.
pub pos_lan_to_move-pos_move_to_lan :
    (p : Position) (m : ℕ)
    → m < 2 ^ 16
    → move_prom m ≤ 6
    → bit_or (bit_or (move_from m) (move_to m)) (move_prom m) ≢ 0
    → (p.chess960 ≡ false → IsPlain p m)
    → pos_lan_to_move p (pos_move_to_lan p m) ≡ some m
unfolding pos_move_to_lan prom_chars
pos_lan_to_move-pos_move_to_lan p m h hp nz plain = rw (==_ne _ 0 nz) (
    read_lan p (move_from m) (lan_to p m) (move_prom m) (field_bounds m).0 (lan_to-bound p m plain)
      hp
    ∙ ap some (
        ap (λ to. move_build (move_from m) to (move_prom m)) (lan_castling-lan_to p m plain)
        ∙ move_build-move_from-move_to-move_prom m h))
