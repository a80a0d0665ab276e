-- ===== src/Bitboard/Word.antt =====
-- Sets of squares as 64-bit words (src/bitboard.c). The compiler's builtins ctz, clz and popcount
-- are recursions on the binary digits.
pub mod Laws
pub mod Pop
pub mod Count
pub mod Members
use c_chess_cli.Common.{
  ℕ, zero, suc, ◌+◌, ◌-◌, ◌*◌, ◌/◌, ◌%◌, ◌^◌, ◌≤◌, ◌<◌, bit_and, bit_or, bit_xor, ◌≡◌, refl, arith,
  Bool, not, List, [], ◌∷◌, ◌==◌, if◌then◌else◌,
}
use c_chess_cli.Common.Int.{ℤ, pos, negsuc}

abbrev pub all_ones : ℕ
all_ones = 0xffff_ffff_ffff_ffff

-- `~b` on uint64_t.
unfoldable pub bb_not : ℕ → ℕ
bb_not b = bit_xor b all_ones

-- `b & (1ULL << square)` as a condition.
unfoldable pub bb_test : ℕ → ℕ → Bool
bb_test b square = not (bit_and b (2 ^ square) == 0)

unfoldable pub bb_clear : ℕ → ℕ → ℕ
bb_clear b square = bit_xor b (2 ^ square)

unfoldable pub bb_set : ℕ → ℕ → ℕ
bb_set b square = bit_xor b (2 ^ square)

unfoldable pub bb_shift : ℕ → ℤ → ℕ
bb_shift b (pos i) = b * 2 ^ i % 2 ^ 64
bb_shift b (negsuc i) = b / 2 ^ suc i

-- `__builtin_ctzll` on the lowest `n` digits.
unfoldable pub ctz : ℕ → ℕ → ℕ
ctz zero b = 0
ctz (suc n) b = let rest = ctz n (b / 2) in if b % 2 == 1 then 0 else suc rest

-- `63 - __builtin_clzll(b)`: the index of the highest 1 among the lowest `n` digits.
unfoldable pub highest : ℕ → ℕ → ℕ
highest zero b = 0
highest (suc n) b = let rest = highest n (b / 2) in if b / 2 == 0 then 0 else suc rest

-- `__builtin_popcountll` on the lowest `n` digits.
unfoldable pub popcount : ℕ → ℕ → ℕ
popcount zero b = 0
popcount (suc n) b = b % 2 + popcount n (b / 2)

unfoldable pub bb_lsb : ℕ → ℕ
unfolding ctz
bb_lsb b = ctz 64 b

unfoldable pub bb_msb : ℕ → ℕ
unfolding highest
bb_msb b = highest 64 b

-- What `bb_pop_lsb` leaves; the square that it returns is `bb_lsb b`.
unfoldable pub bb_pop_lsb : ℕ → ℕ
bb_pop_lsb b = bit_and b (b - 1)

unfoldable pub bb_several : ℕ → Bool
bb_several b = not (bit_and b (b - 1) == 0)

unfoldable pub bb_count : ℕ → ℕ
unfolding popcount
bb_count b = popcount 64 b

-- The squares that `while (b) { sq = bb_pop_lsb(&b); ... }` visits, in order, on fuel.
unfoldable pub pop_all : ℕ → ℕ → List ℕ
unfolding bb_lsb bb_pop_lsb
pop_all zero b = []
pop_all (suc n) b = let rest = pop_all n (bb_pop_lsb b) in if b == 0 then [] else bb_lsb b ∷ rest

-- A word has at most 64 squares, so 64 rounds end the loop.
unfoldable pub squares : ℕ → List ℕ
unfolding pop_all
squares b = pop_all 64 b
