-- ===== src/Bitboard.antt =====
-- src/bitboard.h and src/bitboard.c: squares, moves and sets of squares.
pub mod Square
pub mod Move
pub mod Word
pub mod Attacks
pub mod Ranks
pub mod Print
