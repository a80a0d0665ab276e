-- ===== src/Util.antt =====
-- The pseudo random generator of src/util.c (SplitMix64).
use c_chess_cli.Common.{ℕ, ◌+◌, ◌*◌, ◌/◌, ◌%◌, ◌^◌, bit_xor}

-- The number drawn, and the new state.
unfoldable pub prng : ℕ → ℕ × ℕ
prng state =
    let state' = (state + 0x9e37_79b9_7f4a_7c15) % 2 ^ 64 in
    let r1 = bit_xor state' (state' / 2 ^ 30) * 0xbf58_476d_1ce4_e5b9 % 2 ^ 64 in
    let r2 = bit_xor r1 (r1 / 2 ^ 27) * 0x94d0_49bb_1331_11eb % 2 ^ 64 in
    (bit_xor r2 (r2 / 2 ^ 31), state')

-- The number of `prngf` before its conversion and its multiplication by 2 ^ -53.
unfoldable pub prng_bits : ℕ → ℕ × ℕ
unfolding prng
prng_bits state = let (r, state') = prng state in (r / 2 ^ 11, state')
