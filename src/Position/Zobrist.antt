-- ===== src/Position/Zobrist.antt =====
-- The random numbers of the hash key: `zobrist_init` and `zobrist_castling` of src/position.c.
use c_chess_cli.Common.{ℕ, zero, suc, ◌+◌, ◌*◌, bit_xor, ◌==◌, ltb, if◌then◌else◌, List, [], ◌∷◌}
use c_chess_cli.Util.{prng}
use c_chess_cli.Bitboard.Word.{squares}

-- The state of the generator after `n` draws from the seed 0.
unfoldable pub seed_after : ℕ → ℕ
unfolding prng
seed_after zero = 0
seed_after (suc n) = (prng (seed_after n)).1

-- The draw with index `n`.
unfoldable pub draw : ℕ → ℕ
unfolding prng seed_after
draw n = (prng (seed_after n)).0

-- `ZobristKey[color][piece][square]`: the first 768 draws, in the order of the three loops.
unfoldable pub zobrist_key : ℕ → ℕ → ℕ → ℕ
unfolding draw
zobrist_key color piece square = draw ((color * 6 + piece) * 64 + square)

-- `ZobristCastling[square]`. The loop that draws these runs over the squares below NB_COLOR, and
-- the rest of the array stays 0.
unfoldable pub zobrist_castling_square : ℕ → ℕ
unfolding draw
zobrist_castling_square square =
    let drawn = draw (768 + 2 * square) in if ltb square 2 then drawn else 0

-- `ZobristEnPassant[square]`: drawn in the same loop, and once more for NB_SQUARE.
unfoldable pub zobrist_en_passant : ℕ → ℕ
unfolding draw
zobrist_en_passant square =
    let drawn = draw (769 + 2 * square) in
    let last = draw 772 in if ltb square 2 then drawn else if square == 64 then last else 0

unfoldable pub zobrist_turn : ℕ
unfolding draw
zobrist_turn = draw 773

unfoldable pub xor_castling : List ℕ → ℕ → ℕ
unfolding zobrist_castling_square
xor_castling [] k = k
xor_castling (s ∷ ss) k = xor_castling ss (bit_xor k (zobrist_castling_square s))

unfoldable pub zobrist_castling : ℕ → ℕ
unfolding xor_castling squares
zobrist_castling castle_rooks = xor_castling (squares castle_rooks) 0
