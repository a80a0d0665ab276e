-- ===== src/Bits.antt =====
-- The C operators `&`, `|`, `^`, `~`, `<<`, `>>` on unsigned 64-bit words, seen bit by bit.
mod Step
mod Test
mod Fields
mod Xor
pub use Test.*
pub use Fields.*
pub use Xor.*
pub use Step.{bit_and_step}
unfoldable pub use Test.{test_bit}
