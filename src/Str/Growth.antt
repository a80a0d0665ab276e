-- ===== src/Str/Growth.antt =====
-- The buffer of a string always has room for its text and the terminator.
use c_chess_cli.Common.{
  ℕ, zero, suc, ◌+◌, ◌*◌, ◌/◌, ◌^◌, ◌≤◌, ◌<◌, ◌≡◌, arith, [], ◌∷◌, ◌==◌, Bool-cases, inl, inr,
  length, length-append,
}
use c_chess_cli.Common.Int.{pos, negsuc}
use native.Mathlib.Nat.{pow-suc}
use c_chess_cli.Bitboard.Word.{highest, bb_msb}
use c_chess_cli.Str.{
  Bytes, Str, round_loop, str_round_up, str_resize, str_clear, str_init, do_str_cat, str_init_from,
  str_cpy, str_ncpy, str_push, str_ncat, str_cat_int, str_cat_uint,
}

round_loop-ge : (fuel n p : ℕ) → 2 ≤ p → n ≤ p + fuel → n ≤ round_loop fuel n p
unfolding round_loop
round_loop-ge zero n p h l = omega arith
round_loop-ge (suc fuel) n p h l = ground (arith, round_loop-ge fuel n (p + p / 2))

highest-bound : (k n : ℕ) → n < 2 ^ k → n < 2 ^ (highest k n + 1)
unfolding highest
highest-bound zero n h = omega (arith, pow-suc 2 0)
highest-bound (suc k) n h = elim (Bool-cases (n / 2 == 0)) [
  | inl e ↦ rw e (ground (arith, pow-suc 2 0))
  | inr more ↦
      let e : suc (highest k (n / 2)) + 1 ≡ suc (highest k (n / 2) + 1) = omega arith in
      let twice : 2 ^ (suc (highest k (n / 2)) + 1) ≡ 2 ^ (highest k (n / 2) + 1) * 2 =
        rw e (pow-suc 2 (highest k (n / 2) + 1)) in
      let half : n / 2 < 2 ^ (highest k (n / 2) + 1) =
        highest-bound k (n / 2) (omega (arith, pow-suc 2 k)) in
      rw more (omega arith)
]

msb-bound : (n : ℕ) → n < 4096 → n < 2 ^ (bb_msb n + 1)
unfolding bb_msb
msb-bound n h = highest-bound 64 n (omega arith)

-- The rounded size is enough.
str_round_up-ge : (n : ℕ) → n ≤ str_round_up n
unfolding str_round_up
str_round_up-ge n = ground (arith, msb-bound n, round_loop-ge n n 4096)

-- The buffer holds the text and the terminator (the part of `str_ok` on the sizes).
abbrev pub HasRoom : Str → Type 0
HasRoom s = length s.text < s.alloc

resize-room : (alloc len : ℕ) → len < str_resize alloc len
unfolding str_resize
resize-room alloc len = ground (arith, str_round_up-ge (len + 1))

cat-room : (dest : Str) (src : Bytes) → HasRoom (do_str_cat dest src)
unfolding do_str_cat
cat-room dest src =
    omega
      (arith, length-append dest.text src, resize-room dest.alloc (length dest.text + length src))

-- After each of the operations that write a string, the allocated size is larger than its length,
-- whatever it was before.
pub str_ops-HasRoom :
    (s : Str) (src : Bytes) (n c : ℕ)
    → HasRoom str_init
      × HasRoom (str_clear s)
      × HasRoom (str_init_from src)
      × HasRoom (str_cpy s src)
      × HasRoom (str_ncpy s src n)
      × HasRoom (str_ncat s src n)
      × HasRoom (str_push s c)
      × HasRoom (str_cat_uint s n)
      × HasRoom (str_cat_int s (pos n))
      × HasRoom (str_cat_int s (negsuc n))
unfolding str_init str_clear str_init_from str_cpy str_ncpy str_ncat str_push str_cat_uint
    str_cat_int
str_ops-HasRoom s src n c = (
  resize-room 0 0,
  resize-room s.alloc 0,
  resize-room 0 (length src),
  cat-room _ src,
  cat-room _ _,
  cat-room s _,
  omega (arith, length-append s.text (c ∷ []), resize-room s.alloc (length s.text + 1)),
  cat-room s _,
  cat-room s _,
  cat-room s _,
)
