-- ===== src/Position/Notation.antt =====
-- Squares, moves and labels as text: `square_to_string`, `string_to_square`, `pos_move_to_lan`,
-- `pos_lan_to_move` and `pos_move_to_san` of src/position.c. The text that a function appends to
-- an empty string is its result.
pub mod Lan
use c_chess_cli.Common.{
  ℕ, zero, suc, ◌+◌, ◌-◌, ◌≤◌, bit_and, bit_or, Bool, true, false, not, ◌&&◌, ◌||◌, List, [], ◌∷◌,
  ◌++◌, ◌==◌, ltb, leb, if◌then◌else◌, Option, none, some, get_or,
}
use c_chess_cli.Bitboard.Square.{
  white, black, knight, bishop, rook, queen, king, pawn, nb_piece, nb_square, square_from, rank_of,
  file_of,
}
use c_chess_cli.Bitboard.Word.{bb_not, bb_test, bb_clear, squares}
use c_chess_cli.Bitboard.Move.{move_build, move_from, move_to, move_prom}
use c_chess_cli.Bitboard.Attacks.Slider.{bb_bishop_attacks, bb_rook_attacks, rank_mask, file_mask}
use c_chess_cli.Bitboard.Attacks.Leaper.{knight_attacks, ray}
use c_chess_cli.Position.State.{
  Position, pos_pieces, pos_pieces_cp, pos_king_square, pos_piece_on, pos_move_is_capture,
  pos_move_is_castling,
}

abbrev pub Bytes : Type 0
Bytes = List ℕ

-- `PieceLabel[color]`: "NBRQKP." and "nbrqkp."
abbrev pub piece_labels : ℕ → Bytes
piece_labels zero = 78 ∷ 66 ∷ 82 ∷ 81 ∷ 75 ∷ 80 ∷ 46 ∷ []
piece_labels (suc color) = 110 ∷ 98 ∷ 114 ∷ 113 ∷ 107 ∷ 112 ∷ 46 ∷ []

abbrev pub piece_label : ℕ → ℕ → ℕ
piece_label color piece = get_or (piece_labels color) piece 0

-- `FileLabel[color][file]`
abbrev pub file_label : ℕ → ℕ → ℕ
file_label zero file = 65 + file
file_label (suc color) file = 97 + file

-- `strchr(labels, c) - labels`
unfoldable pub label_index : Bytes → ℕ → Option ℕ
label_index [] c = none
label_index (l ∷ ls) c =
    if l == c then some 0 else elim (label_index ls c) [ none ↦ none | some i ↦ some (suc i) ]

unfoldable pub square_to_string : ℕ → Bytes
square_to_string square =
    if square == nb_square then 45 ∷ [] else (97 + file_of square) ∷ (49 + rank_of square) ∷ []

-- A difference that is negative is too large as an unsigned number.
unfoldable pub string_to_square : Bytes → ℕ
string_to_square s =
    let c0 = get_or s 0 0 in
    let c1 = get_or s 1 0 in
    if c0 == 45
    then nb_square
    else if (leb 49 c1 && leb c1 56) && (leb 97 c0 && leb c0 104)
    then square_from (c1 - 49) (c0 - 97)
    else nb_square + 1

unfoldable pub lan_to : Position → ℕ → ℕ
lan_to p m =
    if not p.chess960 && pos_move_is_castling p m
    then if ltb (move_from m) (move_to m) then move_from m + 2 else move_from m - 2
    else move_to m

unfoldable pub pos_move_to_lan : Position → ℕ → Bytes
pos_move_to_lan p m =
    if bit_or (bit_or (move_from m) (move_to m)) (move_prom m) == 0
    then 48 ∷ 48 ∷ 48 ∷ 48 ∷ []
    else square_to_string (move_from m)
      ++ (square_to_string (lan_to p m)
          ++ (if ltb (move_prom m) nb_piece then piece_label black (move_prom m) ∷ [] else []))

-- The castling move that a king's step of two files stands for.
unfoldable pub lan_castling : Position → ℕ → ℕ → ℕ
lan_castling p from to =
    if not p.chess960 && pos_piece_on p from == king
    then if to == from + 2 then to + 1 else if to + 2 == from then to - 2 else to
    else to

unfoldable pub is_square : ℕ → ℕ → Bool
is_square file rank = (leb 97 file && leb file 104) && (leb 49 rank && leb rank 56)

unfoldable pub lan_prom : Bytes → Option ℕ
lan_prom [] = some nb_piece
lan_prom (c ∷ s) = label_index (piece_labels black) c

-- None where the text is no move, which the code leaves to its callers to rule out.
unfoldable pub pos_lan_to_move : Position → Bytes → Option ℕ
pos_lan_to_move p [] = none
pos_lan_to_move p (f1 ∷ []) = none
pos_lan_to_move p (f1 ∷ r1 ∷ []) = none
pos_lan_to_move p (f1 ∷ r1 ∷ f2 ∷ []) = none
pos_lan_to_move p (f1 ∷ r1 ∷ f2 ∷ r2 ∷ s) = elim (lan_prom s) [
  | none ↦ none
  | some prom ↦
      let from = square_from (r1 - 49) (f1 - 97) in
      let to = square_from (r2 - 49) (f2 - 97) in
      if is_square f1 r1 && is_square f2 r2
      then some (move_build from (lan_castling p from to) prom)
      else none
]

-- The sliders that can reach `to` without leaving the ray of a pin.
unfoldable pub unpinned_contesters : Position → ℕ → List ℕ → ℕ → ℕ
unpinned_contesters p to [] contesters = contesters
unpinned_contesters p to (s ∷ ss) contesters =
    unpinned_contesters p to ss
      (if bb_test (ray (pos_king_square p p.turn) s) to then contesters else bb_clear contesters s)

unfoldable pub slider_reach : Position → ℕ → ℕ → ℕ
slider_reach p piece to =
    let diagonal = bb_bishop_attacks to (pos_pieces p) in
    let straight = bb_rook_attacks to (pos_pieces p) in
    if piece == bishop
    then diagonal
    else if piece == rook
    then straight
    else bit_or diagonal straight

unfoldable pub contesters_of : Position → ℕ → ℕ → ℕ → ℕ
contesters_of p piece from to =
    let others = bb_clear (pos_pieces_cp p p.turn piece) from in
    let sliders = bit_and others (slider_reach p piece to) in
    if piece == knight
    then bit_and others (bit_and (knight_attacks to) (bb_not p.pins))
    else unpinned_contesters p to (squares (bit_and sliders p.pins)) sliders

unfoldable pub disambiguation : ℕ → ℕ → Bytes
disambiguation from contesters =
    let by_file = (97 + file_of from) ∷ [] in
    let by_rank = (49 + rank_of from) ∷ [] in
    if contesters == 0
    then []
    else if not (bit_and (bb_rook_attacks from 0) contesters == 0)
    then (if bit_and (rank_mask (rank_of from)) contesters == 0 then [] else by_file)
      ++ (if bit_and (file_mask (file_of from)) contesters == 0 then [] else by_rank)
    else by_file

unfoldable pub capture_mark : Position → ℕ → Bytes
capture_mark p m = if pos_move_is_capture p m then 120 ∷ [] else []

unfoldable pub pawn_san : Position → ℕ → Bytes
pawn_san p m =
    let to = move_to m in
    let file = 97 + file_of to in
    (97 + file_of (move_from m))
      ∷ (if pos_move_is_capture p m || to == p.ep_square then 120 ∷ file ∷ [] else [])
    ++ ((49 + rank_of to)
        ∷ (if ltb (move_prom m) nb_piece then 61 ∷ piece_label white (move_prom m) ∷ [] else []))

unfoldable pub king_san : Position → ℕ → Bytes
king_san p m =
    let short = 79 ∷ 45 ∷ 79 ∷ [] in
    if pos_move_is_castling p m
    then if ltb (move_from m) (move_to m) then short else short ++ 45 ∷ 79 ∷ []
    else 75 ∷ capture_mark p m ++ square_to_string (move_to m)

unfoldable pub pos_move_to_san : Position → ℕ → Bytes
pos_move_to_san p m =
    let from = move_from m in
    let to = move_to m in
    let piece = pos_piece_on p from in
    if piece == pawn
    then pawn_san p m
    else if piece == king
    then king_san p m
    else piece_label white piece ∷ disambiguation from (contesters_of p piece from to)
      ++ (capture_mark p m ++ square_to_string to)
