-- ===== src/Bitboard/Attacks.antt =====
-- The attack tables of src/bitboard.c.
pub mod Magic
pub mod Slider
pub mod Leaper
