-- ===== src/Position.antt =====
-- src/position.h and src/position.c.
pub mod Zobrist
pub mod State
pub mod Play
pub mod Board
pub mod Notation
pub mod Fen
pub mod Print
