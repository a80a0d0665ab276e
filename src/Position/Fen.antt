-- ===== src/Position/Fen.antt =====
-- `pos_set` of src/position.c: positions from their text in FEN.
pub mod Placement
pub mod Verify
use c_chess_cli.Common.{
  ℕ, zero, suc, ◌+◌, ◌-◌, ◌*◌, ◌/◌, ◌%◌, ◌≤◌, bit_and, bit_or, bit_xor, Bool, true, false, not,
  ◌&&◌, ◌||◌, List, [], ◌∷◌, ◌++◌, ◌==◌, ltb, leb, if◌then◌else◌, Option, none, some, length,
  get_or,
}
use c_chess_cli.Common.Int.{ℤ, pos, negsuc, ◌+ℤ◌, neg, offset}
use c_chess_cli.Bitboard.Square.{
  white, black, knight, bishop, rook, queen, king, pawn, nb_square, square_from, rank_of, file_of,
  push_inc,
}
use c_chess_cli.Bitboard.Word.{bb_not, bb_test, bb_set, bb_count, bb_lsb, bb_msb, squares}
use c_chess_cli.Bitboard.Attacks.Slider.{rank_mask, file_mask}
use c_chess_cli.Bitboard.Attacks.Leaper.{segment, ray}
use c_chess_cli.Position.Zobrist.{zobrist_castling, zobrist_en_passant, zobrist_turn}
use c_chess_cli.Position.State.{
  Position, set_square, pos_pieces, pos_pieces_cp, pos_pieces_cpp, pos_king_square, pos_color_on,
  pos_piece_on,
}
use c_chess_cli.Position.Play.{finish}
use c_chess_cli.Position.Notation.{
  Bytes, piece_labels, piece_label, file_label, label_index, square_to_string, string_to_square,
}
use c_chess_cli.Str.{str_tok, str_to_uint8, str_to_uint16, do_fmt_u}
use c_chess_cli.Position.Fen.Placement.{
  Outcome, ok, rejected, undefined, ◌then_do◌, is_upper, is_lower, set_placement,
}
use c_chess_cli.Position.Fen.Verify.{verify}

unfoldable pub set_turn : Bytes → Position → Outcome Position
set_turn token p =
    let c = get_or token 0 0 in
    if not (length token == 1)
    then rejected
    else if c == 119
    then ok (record p { turn = white })
    else if c == 98
    then ok (record p { turn = black; key = bit_xor p.key zobrist_turn })
    else rejected

abbrev pub upper : ℕ → ℕ
upper c = if is_lower c then c - 32 else c

-- One castling right; `last` says that it is the last character.
unfoldable pub castling_char : ℕ → Bool → Position → Outcome Position
castling_char c last p =
    let rank = if is_upper c then 0 else 7 in
    let our_rooks = bit_and (rank_mask rank) (pos_pieces_cp p (rank / 7) rook) in
    let uc = upper c in
    let with_rook : ℕ → Outcome Position =
      λ square. ok (record p { castle_rooks = bb_set p.castle_rooks square }) in
    if uc == 75
    then if our_rooks == 0 then undefined else with_rook (bb_msb our_rooks)
    else if uc == 81
    then if our_rooks == 0 then undefined else with_rook (bb_lsb our_rooks)
    else if leb 65 uc && leb uc 72
    then with_rook (square_from rank (uc - 65))
    else if not (c == 45) || not (p.castle_rooks == 0) || not last
    then rejected
    else ok p

abbrev pub is_empty : Bytes → Bool
is_empty [] = true
is_empty (c ∷ s) = false

unfoldable pub castling_chars : Bytes → Outcome Position → Outcome Position
castling_chars [] o = o
castling_chars (c ∷ s) o = castling_chars s (o then_do castling_char c (is_empty s))

unfoldable pub set_castling : Bool → Bytes → Position → Outcome Position
set_castling given token p =
    if given && ltb 4 (length token)
    then rejected
    else castling_chars (if given then token else []) (ok p) then_do λ q.
        ok (record q { key = bit_xor q.key (zobrist_castling q.castle_rooks) })

-- The loop over the castling rooks. Of a position without a king, which is rejected below, it says
-- anything.
unfoldable pub is_chess960 : Position → List ℕ → Bool
is_chess960 p [] = false
is_chess960 p (r ∷ rooks) =
    let king_sq = pos_king_square p (pos_color_on p r) in
    ((ltb 0 (file_of r) && ltb (file_of r) 7) || not (file_of king_sq == 4)) || is_chess960 p rooks

unfoldable pub set_chess960 : Bool → Position → Position
set_chess960 force960 p = record p { chess960 = force960 || is_chess960 p (squares p.castle_rooks) }

unfoldable pub set_en_passant : Bytes → Position → Outcome Position
set_en_passant token p =
    let square = string_to_square token in
    if ltb 2 (length token) || ltb nb_square square
    then rejected
    else ok (record p { ep_square = square; key = bit_xor p.key (zobrist_en_passant square) })

unfoldable pub set_rule50 : Bool → Bytes → Position → Outcome Position
set_rule50 given token p = elim (str_to_uint8 token) [
  | none ↦ if given then rejected else ok p
  | some n ↦ if given then if leb 100 n then rejected else ok (record p { rule50 = n }) else ok p
]

unfoldable pub set_full_move : Bool → Bytes → Position → Outcome Position
set_full_move given token p = elim (str_to_uint16 token) [
  | none ↦ if given then rejected else ok p
  | some n ↦ if given then if ltb n 1 then rejected else ok (record p { full_move = n }) else ok p
]

abbrev pub is_some {ℓ} : {A : Type ℓ} → Option A → Bool
is_some none = false
is_some (some a) = true

unfoldable pub pos_set : Bytes → Bool → Outcome Position
pos_set fen force960 =
    let space = 32 ∷ [] in
    let t1 = str_tok (some fen) [] space in
    let t2 = str_tok t1.0 t1.1 space in
    let t3 = str_tok t2.0 t2.1 space in
    let t4 = str_tok t3.0 t3.1 space in
    let t5 = str_tok t4.0 t4.1 space in
    let t6 = str_tok t5.0 t5.1 space in
    set_placement t1.1 then_do set_turn t2.1 then_do set_castling (is_some t3.0) t3.1 then_do λ p.
    set_en_passant (if is_some t4.0 then t4.1 else 45 ∷ []) (set_chess960 force960 p)
    then_do set_rule50 (is_some t5.0) t5.1
    then_do set_full_move (is_some t6.0) t6.1
    then_do verify
