-- ===== src/Position/Board/Rules.antt =====
-- The effect of a move on the board, as a relation: `Plays b us ep from to prom b'` says what a move
-- of the side `us` makes of the board `b`, where `ep` is the square of a pawn to be taken en passant.
-- How the men go is the matter of `Goes`, in the module Goes. Whether the own king is left in check
-- is the matter of neither.
pub mod Keeps
pub mod Goes
use c_chess_cli.Common.{ℕ, ◌<◌, ◌≡◌, ◌≢◌, ltb, if◌then◌else◌, Option, none, ◌⊎◌}
use c_chess_cli.Common.Int.{neg, offset}
use c_chess_cli.Bitboard.Square.{king, pawn, rook, opposite, push_inc, square_from, rank_of}
use c_chess_cli.Position.Board.{Man, man, Board, put}

-- Where a castling king and rook land: on files g and f, or c and d.
abbrev pub castled_king : ℕ → ℕ → ℕ
castled_king from to = square_from (rank_of from) (if ltb from to then 6 else 2)

abbrev pub castled_rook : ℕ → ℕ → ℕ
castled_rook from to = square_from (rank_of from) (if ltb from to then 5 else 3)

-- A square that a man of the other side holds, or nobody.
abbrev pub IsFree : Board → ℕ → ℕ → Type 0
IsFree b us s = (b s ≡ none) ⊎ ((p : ℕ) × (b s ≡ man (opposite us) p))

abbrev pub IsLastRank : ℕ → Type 0
IsLastRank to = (rank_of to ≡ 7) ⊎ (rank_of to ≡ 0)

abbrev pub moved : Board → ℕ → ℕ → Option Man → Board
moved b from to x = put (put b from none) to x

pub data Plays (b : Board) (us ep from to prom : ℕ) (b' : Board) : Type 0 where
  -- A knight, bishop, rook or queen.
  officer :
      (piece : ℕ)
      → piece < 4
      → b from ≡ man us piece
      → IsFree b us to
      → b' ≡ moved b from to (man us piece)
      → Plays b us ep from to prom b'
  king_step :
      b from ≡ man us king
      → IsFree b us to
      → b' ≡ moved b from to (man us king)
      → Plays b us ep from to prom b'
  -- The move goes onto the own rook; the squares where the two land are empty but for them.
  castling :
      b from ≡ man us king
      → b to ≡ man us rook
      → moved b from to none (castled_king from to) ≡ none
      → moved b from to none (castled_rook from to) ≡ none
      → castled_king from to < 64
      → castled_rook from to < 64
      → b'
        ≡ put
            (put (moved b from to none) (castled_king from to) (man us king))
            (castled_rook from to)
            (man us rook)
      → Plays b us ep from to prom b'
  pawn_step :
      b from ≡ man us pawn
      → IsFree b us to
      → to ≢ ep
      → rank_of to ≢ 7
      → rank_of to ≢ 0
      → b' ≡ moved b from to (man us pawn)
      → Plays b us ep from to prom b'
  -- The pawn that is taken stands behind the `to` square.
  en_passant :
      b from ≡ man us pawn
      → b to ≡ none
      → to ≡ ep
      → b (offset to (neg (push_inc us))) ≡ man (opposite us) pawn
      → b' ≡ put (moved b from to (man us pawn)) (offset to (neg (push_inc us))) none
      → Plays b us ep from to prom b'
  promotion :
      b from ≡ man us pawn
      → IsFree b us to
      → to ≢ ep
      → IsLastRank to
      → prom < 4
      → b' ≡ moved b from to (man us prom)
      → Plays b us ep from to prom b'
