-- ===== src/Position/Fen/Placement.antt =====
-- The piece placement of a FEN text, as `pos_set` of src/position.c reads it.
use c_chess_cli.Common.{
  ℕ, ◌+◌, ◌-◌, ◌*◌, Bool, false, ◌&&◌, [], ◌∷◌, ◌==◌, ltb, leb, if◌then◌else◌, Option, none, some,
}
use c_chess_cli.Common.Int.{ℤ, pos, negsuc, ◌+ℤ◌}
use c_chess_cli.Bitboard.Square.{white, black}
use c_chess_cli.Position.State.{Position, set_square}
use c_chess_cli.Position.Notation.{Bytes, piece_labels, label_index}

-- How reading goes on: with a value, with a return of false, or nowhere, after an access out of
-- bounds or a builtin on 0.
pub data Outcome {ℓ} (A : Type ℓ) : Type ℓ where
  ok : A → Outcome A
  rejected : Outcome A
  undefined : Outcome A

infixl 20 ◌then_do◌
abbrev pub ◌then_do◌ {ℓ κ} : {A : Type ℓ} {B : Type κ} → Outcome A → (A → Outcome B) → Outcome B
ok a then_do f = f a
rejected then_do f = rejected
undefined then_do f = undefined

-- `*pos = (Position){.fullMove = 1}`
unfoldable pub blank : Position
blank = record {
  by_color = λ _. 0;
  by_piece = λ _. 0;
  castle_rooks = 0;
  key = 0;
  attacked = 0;
  checkers = 0;
  pins = 0;
  last_move = 0;
  full_move = 1;
  turn = 0;
  ep_square = 0;
  rule50 = 0;
  chess960 = false;
}

-- The variables `rank` and `file` with the position.
pub record Placing : Type 0 where
  pub placed : Position
  pub rank : ℤ
  pub file : ℕ

-- `square_from(rank, file)`, if it is a square.
unfoldable pub placing_square : ℤ → ℕ → Option ℕ
placing_square (pos r) file = if ltb (8 * r + file) 64 then some (8 * r + file) else none
placing_square (negsuc r) file =
    if leb (8 * r + 8) file && ltb (file - (8 * r + 8)) 64 then some (file - (8 * r + 8)) else none

abbrev pub is_lower : ℕ → Bool
is_lower c = leb 97 c && leb c 122

abbrev pub is_upper : ℕ → Bool
is_upper c = leb 65 c && leb c 90

unfoldable pub place_piece : ℕ → Placing → Outcome Placing
place_piece c st =
    let color = if is_lower c then black else white in
    elim (label_index (piece_labels color) c) [
      | none ↦ rejected
      | some piece ↦ elim (placing_square st.rank st.file) [
        | none ↦ undefined
        | some square ↦ ok (record {
          placed = set_square st.placed color piece square;
          rank = st.rank;
          file = st.file + 1;
        })
      ]
    ]

-- One character of the piece placement. The label '.' is not among the pieces.
unfoldable pub place_char : ℕ → Placing → Outcome Placing
place_char c st =
    if leb 49 c && leb c 56
    then if ltb 8 (st.file + (c - 48))
      then rejected
      else ok (record st { file = st.file + (c - 48) })
    else if c == 47
    then ok (record st { rank = st.rank +ℤ negsuc 0; file = 0 })
    else if c == 46
    then rejected
    else place_piece c st

unfoldable pub place_chars : Bytes → Outcome Placing → Outcome Placing
place_chars [] st = st
place_chars (c ∷ s) st = place_chars s (st then_do place_char c)

-- `rank != RANK_1`
abbrev pub is_first_rank : ℤ → Bool
is_first_rank (pos r) = r == 0
is_first_rank (negsuc r) = false

unfoldable pub set_placement : Bytes → Outcome Position
set_placement token =
    place_chars token (ok (record { placed = blank; rank = pos 7; file = 0 })) then_do λ st.
    if is_first_rank st.rank then ok st.placed else rejected
