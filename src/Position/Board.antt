-- ===== src/Position/Board.antt =====
-- The abstract board that a Position stands for: what each square holds.
pub mod Hash
pub mod Query
pub mod Rules
use c_chess_cli.Common.{
  ℕ, zero, suc, bit_xor, ◌≤◌, ◌<◌, ◌≡◌, Bool, false, ◌==◌, if◌then◌else◌, Option, none, some,
}
use c_chess_cli.Bits.{test_bit}
use c_chess_cli.Bitboard.Square.{white}
use c_chess_cli.Position.State.{Position}
use c_chess_cli.Position.Zobrist.{zobrist_key, zobrist_castling, zobrist_en_passant, zobrist_turn}

pub record Man : Type 0 where
  pub color : ℕ
  pub piece : ℕ

abbrev pub man : ℕ → ℕ → Option Man
man c p = some (record { color = c; piece = p })

abbrev pub Board : Type 0
Board = ℕ → Option Man

abbrev pub put : Board → ℕ → Option Man → Board
put b s x t = if t == s then x else b t

abbrev pub has_color : Option Man → ℕ → Bool
has_color none c = false
has_color (some m) c = m.color == c

abbrev pub has_piece : Option Man → ℕ → Bool
has_piece none p = false
has_piece (some m) p = m.piece == p

abbrev pub IsMan : Option Man → Type 0
IsMan none = Unit
IsMan (some m) = (m.color < 2) × (m.piece < 6)

-- What a square contributes to the hash key.
abbrev pub man_key : Option Man → ℕ → ℕ
man_key none s = 0
man_key (some m) s = zobrist_key m.color m.piece s

-- The hash of the squares below `n`, computed from scratch.
unfoldable pub board_hash : ℕ → Board → ℕ
board_hash zero b = 0
board_hash (suc n) b = bit_xor (board_hash n b) (man_key (b n) n)

-- The part of the key that does not depend on the board.
unfoldable pub side_hash : ℕ → ℕ → ℕ → ℕ
side_hash turn castle_rooks ep =
    bit_xor (bit_xor (if turn == white then 0 else zobrist_turn) (zobrist_castling castle_rooks))
      (zobrist_en_passant ep)

-- The two arrays of bitboards agree with the board on every square: each square is in the set of
-- its man's color and in that of its man's piece, and in no other. The key is the hash of the
-- board, over the part `side` that has other sources.
pub record Represents (by_color by_piece : ℕ → ℕ) (key side : ℕ) (b : Board) : Type 0 where
  pub colors : (c s : ℕ) → c < 2 → test_bit (by_color c) s ≡ has_color (b s) c
  pub pieces : (p s : ℕ) → p < 6 → test_bit (by_piece p) s ≡ has_piece (b s) p
  pub men : (s : ℕ) → IsMan (b s)
  pub within : (s : ℕ) → 64 ≤ s → b s ≡ none
  pub hash : key ≡ bit_xor side (board_hash 64 b)

-- A position shows a board, where `side` is the rest of its key.
abbrev pub Shows : ℕ → Position → Board → Type 0
Shows side pos b = Represents pos.by_color pos.by_piece pos.key side b

-- A position shows a board, and its key is the hash of all that it depends on.
abbrev pub IsConsistent : Position → Board → Type 0
IsConsistent pos b = Shows (side_hash pos.turn pos.castle_rooks pos.ep_square) pos b
