-- ===== src/Str/Digits.antt =====
-- Numbers are read back as they were printed.
use c_chess_cli.Common.{
  ℕ, zero, suc, ◌+◌, ◌-◌, ◌*◌, ◌/◌, ◌%◌, ◌^◌, ◌<◌, ◌≡◌, refl, ap, ◌∙◌, arith, true, false, [], ◌∷◌,
  ◌==◌, ltb, leb, if◌then◌else◌, none, some, Bool-cases, inl, inr,
}
use native.Mathlib.Nat.{pow-suc}
use c_chess_cli.Str.{
  Bytes, fmt_loop, do_fmt_u, to_uintmax, str_to_uintmax, str_to_uint8, str_to_uint16, at_most,
}

read_digit :
    (n : ℕ) (s : Bytes) → n < 2 ^ 64 → to_uintmax ((48 + n % 10) ∷ s) (n / 10) ≡ to_uintmax s n
unfolding to_uintmax
read_digit n s h =
    let e : (10 * (n / 10) + (48 + n % 10 - 48)) % 2 ^ 64 ≡ n = omega arith in
    let a : leb 48 (48 + n % 10) ≡ true = ground arith in
    let b : leb (48 + n % 10) 57 ≡ true = ground arith in
    let c : ltb n (n / 10) ≡ false = ground arith in rw (e, a, b, c) refl

read_digits :
    (fuel n : ℕ) (s : Bytes)
    → n < 10 ^ suc fuel
    → n < 2 ^ 64
    → to_uintmax (fmt_loop (suc fuel) n s) 0 ≡ to_uintmax s n
unfolding fmt_loop
read_digits zero n s h h64 =
    let e : (n / 10 == 0) ≡ true = ground (arith, pow-suc 10 0) in
    let z : 0 ≡ n / 10 = ground arith in
    rw e (ap (to_uintmax ((48 + n % 10) ∷ s)) z ∙ read_digit n s h64)
read_digits (suc fuel) n s h h64 = elim (Bool-cases (n / 10 == 0)) [
  | inl e ↦
      let z : 0 ≡ n / 10 = ground arith in
      rw e (ap (to_uintmax ((48 + n % 10) ∷ s)) z ∙ read_digit n s h64)
  | inr more ↦ rw more (
      read_digits fuel (n / 10) ((48 + n % 10) ∷ s) (omega (arith, pow-suc 10 (suc fuel)))
        (omega arith)
      ∙ read_digit n s h64)
]

-- What `str_cat_uint` appends is read by `str_to_uintmax` as the number that was printed, and by
-- `str_to_uint8` and `str_to_uint16` if the number fits them.
pub str_to_uintmax-do_fmt_u :
    (n : ℕ)
    → n < 2 ^ 64
    → (str_to_uintmax (do_fmt_u n) ≡ some n)
      × (str_to_uint8 (do_fmt_u n) ≡ (if leb n 255 then some n else none))
      × (str_to_uint16 (do_fmt_u n) ≡ (if leb n 65535 then some n else none))
unfolding str_to_uintmax do_fmt_u str_to_uint8 str_to_uint16 at_most
str_to_uintmax-do_fmt_u n h =
    let e : to_uintmax (fmt_loop 20 n []) 0 ≡ some n =
      read_digits 19 n [] (omega arith) h ∙ (unfold to_uintmax in refl) in
    (e, rw e refl, rw e refl)
