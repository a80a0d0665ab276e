-- ===== src/Position/Print.antt =====
-- `pos_get` and `pos_pack` of src/position.c: a position as text, and in 4 bits for each piece.
pub mod Ascii
use c_chess_cli.Common.{
  ℕ, ◌+◌, ◌-◌, ◌*◌, ◌/◌, ◌%◌, bit_and, bit_or, ◌&&◌, List, [], ◌∷◌, ◌++◌, ◌==◌, if◌then◌else◌,
  length, update, range, reverse,
}
use c_chess_cli.Common.Int.{is_offset}
use c_chess_cli.Bitboard.Square.{
  white, black, rook, queen, king, pawn, square_from, file_of, push_inc,
}
use c_chess_cli.Bitboard.Word.{bb_test, bb_lsb, squares}
use c_chess_cli.Bitboard.Attacks.Leaper.{ray}
use c_chess_cli.Position.State.{Position, pos_pieces, pos_king_square, pos_color_on, pos_piece_on}
use c_chess_cli.Position.Notation.{Bytes, piece_label, file_label, square_to_string}
use c_chess_cli.Str.{do_fmt_u}

abbrev pub count_char : ℕ → Bytes
count_char cnt = if cnt == 0 then [] else (48 + cnt) ∷ []

-- The loop over the files of a rank, with the number of empty squares just seen.
unfoldable pub rank_text : Position → ℕ → List ℕ → ℕ → Bytes
rank_text p rank [] cnt = count_char cnt
rank_text p rank (file ∷ files) cnt =
    let square = square_from rank file in
    let filled = bb_test (pos_pieces p) square in
    let rest = rank_text p rank files (if filled then 0 else cnt + 1) in
    if filled
    then count_char cnt ++ piece_label (pos_color_on p square) (pos_piece_on p square) ∷ rest
    else rest

unfoldable pub ranks_text : Position → List ℕ → Bytes
ranks_text p [] = []
ranks_text p (rank ∷ ranks) =
    rank_text p rank (range 8) 0 ++ (if rank == 0 then 32 else 47) ∷ ranks_text p ranks

-- The castling rook on one side of the king, if any. `last_file` is the file of the edge there.
unfoldable pub castling_rook : Position → ℕ → ℕ → ℕ → ℕ
castling_rook p color last_file next =
    let king_sq = pos_king_square p color in
    if file_of king_sq == last_file
    then 0
    else bit_and (bit_and p.castle_rooks (p.by_color color)) (ray king_sq next)

unfoldable pub castling_label : Position → ℕ → ℕ → ℕ → Bytes
castling_label p color rook_set piece =
    if rook_set == 0
    then []
    else (if p.chess960
        then file_label color (file_of (bb_lsb rook_set))
        else piece_label color piece)
      ∷ []

unfoldable pub castling_text : Position → ℕ → Bytes
castling_text p color =
    let king_sq = pos_king_square p color in
    castling_label p color (castling_rook p color 7 (king_sq + 1)) king
    ++ castling_label p color (castling_rook p color 0 (king_sq - 1)) queen

unfoldable pub pos_get : Position → Bytes
pos_get p =
    ranks_text p (reverse (range 8))
    ++ ((if p.turn == white then 119 else 98)
        ∷ 32
        ∷ (if p.castle_rooks == 0 then 45 ∷ [] else castling_text p white ++ castling_text p black))
    ++ (32 ∷ square_to_string p.ep_square)
    ++ (32 ∷ do_fmt_u p.rule50)
    ++ (32 ∷ do_fmt_u p.full_move)

pub record PackedPos : Type 0 where
  pub occ : ℕ
  pub turn : ℕ
  pub rule50 : ℕ
  pub packed_pieces : ℕ → ℕ

-- Also tells a rook that can castle and a pawn that can be captured en passant.
unfoldable pub ext_piece : Position → ℕ → ℕ
ext_piece p square =
    let piece = pos_piece_on p square in
    if piece == rook && bb_test p.castle_rooks square
    then pawn + 1
    else if piece == pawn && is_offset p.ep_square square (push_inc p.turn)
    then pawn + 2
    else piece

unfoldable pub nibble : Position → ℕ → ℕ
nibble p square = 2 * ext_piece p square + pos_color_on p square

-- `packedPieces[nibbleIdx / 2] |= nibbleIdx % 2 ? nibble << 4 : nibble`
unfoldable pub put_nibble : (ℕ → ℕ) → ℕ → ℕ → ℕ → ℕ
put_nibble bytes idx n =
    update bytes (idx / 2) (bit_or (bytes (idx / 2)) (if idx % 2 == 1 then n * 16 % 256 else n))

unfoldable pub put_nibbles : Position → List ℕ → ℕ → (ℕ → ℕ) → ℕ → ℕ
put_nibbles p [] idx bytes = bytes
put_nibbles p (s ∷ ss) idx bytes = put_nibbles p ss (idx + 1) (put_nibble bytes idx (nibble p s))

-- The packed position, and its size: `occ` takes 8 bytes, and `turn` and `rule50` share one, as
-- fields of 1 and 7 bits.
unfoldable pub pos_pack : Position → PackedPos × ℕ
pos_pack p = (
  record {
    occ = pos_pieces p;
    turn = p.turn % 2;
    rule50 = p.rule50 % 128;
    packed_pieces = put_nibbles p (squares (pos_pieces p)) 0 (λ _. 0);
  },
  9 + (length (squares (pos_pieces p)) + 1) / 2,
)
