-- ===== src/Str.antt =====
-- src/str.c: strings. A `str_t` is its text, the `len` bytes at `buf` before the terminator, with
-- the allocated size; a C string is the list of its bytes, none of them 0. No `size_t` overflows.
pub mod Digits
pub mod Tokens
pub mod Growth
pub mod Format
use c_chess_cli.Common.{
  ℕ, zero, suc, ◌+◌, ◌-◌, ◌*◌, ◌/◌, ◌%◌, ◌^◌, ◌≤◌, bit_and, Bool, true, false, not, ◌&&◌, ◌||◌,
  List, [], ◌∷◌, ◌++◌, ◌==◌, ltb, leb, if◌then◌else◌, Option, none, some, length, take, min,
}
use c_chess_cli.Common.Int.{ℤ, pos, negsuc}
use c_chess_cli.Bitboard.Word.{bb_msb}

abbrev pub Bytes : Type 0
Bytes = List ℕ

-- `while (p < n) p += p / 2;` Each turn adds at least 1, so `n` turns are enough.
unfoldable pub round_loop : ℕ → ℕ → ℕ → ℕ
round_loop zero n p = p
round_loop (suc fuel) n p = let rest = round_loop fuel n (p + p / 2) in if ltb p n then rest else p

unfoldable pub str_round_up : ℕ → ℕ
unfolding bb_msb round_loop
str_round_up n =
    if ltb n 16
    then 16
    else if ltb n 4096
    then if bit_and n (n - 1) == 0 then n else 2 ^ (bb_msb n + 1)
    else round_loop n n 4096

pub record Str : Type 0 where
  pub text : Bytes
  pub alloc : ℕ

-- What `str_resize` makes of the allocated size.
unfoldable pub str_resize : ℕ → ℕ → ℕ
str_resize alloc len = if ltb alloc (str_round_up (len + 1)) then str_round_up (len + 1) else alloc

unfoldable pub str_clear : Str → Str
str_clear s = record { text = []; alloc = str_resize s.alloc 0 }

unfoldable pub str_init : Str
str_init = record { text = []; alloc = str_resize 0 0 }

unfoldable pub do_str_cat : Str → Bytes → Str
do_str_cat dest src = record {
  text = dest.text ++ src;
  alloc = str_resize dest.alloc (length dest.text + length src);
}

unfoldable pub str_init_from : Bytes → Str
str_init_from src = record { text = src; alloc = str_resize 0 (length src) }

unfoldable pub str_cpy : Str → Bytes → Str
str_cpy dest src = do_str_cat (str_clear dest) src

unfoldable pub str_ncpy : Str → Bytes → ℕ → Str
str_ncpy dest src n = do_str_cat (str_clear dest) (take (min n (length src)) src)

unfoldable pub str_push : Str → ℕ → Str
str_push dest c = record {
  text = dest.text ++ c ∷ [];
  alloc = str_resize dest.alloc (length dest.text + 1);
}

unfoldable pub str_ncat : Str → Bytes → ℕ → Str
str_ncat dest src n = do_str_cat dest (take (min n (length src)) src)

-- The digits of `n`, put before those that are there. A number below 10 ^ fuel ends the loop.
unfoldable pub fmt_loop : ℕ → ℕ → Bytes → Bytes
fmt_loop zero n s = s
fmt_loop (suc fuel) n s =
    let s' = (48 + n % 10) ∷ s in
    let rest = fmt_loop fuel (n / 10) s' in if n / 10 == 0 then s' else rest

-- A uintmax_t of 64 bits has at most 20 digits.
unfoldable pub do_fmt_u : ℕ → Bytes
do_fmt_u n = fmt_loop 20 n []

-- `-INTMAX_MIN`, which C leaves undefined, is 2 ^ 63 here.
unfoldable pub str_cat_int : Str → ℤ → Str
str_cat_int dest (pos n) = do_str_cat dest (do_fmt_u n)
str_cat_int dest (negsuc n) = do_str_cat dest (45 ∷ do_fmt_u (suc n))

unfoldable pub str_cat_uint : Str → ℕ → Str
str_cat_uint dest u = do_str_cat dest (do_fmt_u u)

unfoldable pub mem : ℕ → Bytes → Bool
mem c [] = false
mem c (d ∷ ds) = (c == d) || mem c ds

-- What follows the first `strspn(s, delim)` bytes.
unfoldable pub skip : Bytes → Bytes → Bytes
skip delim [] = []
skip delim (c ∷ s) = if mem c delim then skip delim s else c ∷ s

-- The first `strcspn(s, delim)` bytes, and what follows them.
unfoldable pub span : Bytes → Bytes → Bytes × Bytes
span delim [] = ([], [])
span delim (c ∷ s) =
    let rest = span delim s in if mem c delim then ([], c ∷ s) else (c ∷ rest.0, rest.1)

-- The tail, or none for NULL, and the token, which stays as it was if there is no string.
unfoldable pub str_tok : Option Bytes → Bytes → Bytes → Option Bytes × Bytes
str_tok none token delim = (none, token)
str_tok (some s) token delim =
    let parts = span delim (skip delim s) in
    (if length parts.0 == 0 then none else some parts.1, parts.0)

-- The loop of `str_tok_esc`. A string that ends in the escape character makes the code read past
-- the terminator; the loop is given up there, as none.
unfoldable pub tok_esc : Bytes → Bool → Bytes → ℕ → ℕ → Option (Bytes × Bytes)
tok_esc [] accumulate token delim esc = some (token, [])
tok_esc (c ∷ []) accumulate token delim esc =
    if c == esc then none else if c == delim then some (token, []) else some (token ++ c ∷ [], [])
tok_esc (c ∷ d ∷ s) accumulate token delim esc =
    let escaped = tok_esc s true (token ++ d ∷ []) delim esc in
    let next =
      tok_esc (d ∷ s) (accumulate || not (c == delim))
        (if c == delim then token else token ++ c ∷ []) delim esc in
    if c == esc then escaped else if c == delim && accumulate then some (token, d ∷ s) else next

unfoldable pub str_prefix : Bytes → Bytes → Option Bytes
str_prefix s [] = some s
str_prefix [] (p ∷ ps) = none
str_prefix (c ∷ s) (p ∷ ps) = if c == p then str_prefix s ps else none

-- The line, the number that is returned, and what is left of the file.
unfoldable pub getline : Bytes → Bytes → Bytes × (ℕ × Bytes)
getline [] out = (out, (length out, []))
getline (c ∷ file) out =
    let rest = getline file (if c == 13 then out else out ++ c ∷ []) in
    if c == 10 then (out, (length out + 1, file)) else rest

unfoldable pub str_getline : Bytes → Bytes × (ℕ × Bytes)
str_getline file = getline file []

-- The result, or none where the code returns false.
unfoldable pub to_uintmax : Bytes → ℕ → Option ℕ
to_uintmax [] previous = some previous
to_uintmax (c ∷ s) previous =
    let result = (10 * previous + (c - 48)) % 2 ^ 64 in
    if (leb 48 c && leb c 57) && not (ltb result previous) then to_uintmax s result else none

unfoldable pub str_to_uintmax : Bytes → Option ℕ
str_to_uintmax s = to_uintmax s 0

unfoldable pub at_most : ℕ → Option ℕ → Option ℕ
at_most bound none = none
at_most bound (some n) = if leb n bound then some n else none

unfoldable pub str_to_uint8 : Bytes → Option ℕ
str_to_uint8 s = at_most 255 (str_to_uintmax s)

unfoldable pub str_to_uint16 : Bytes → Option ℕ
str_to_uint16 s = at_most 65535 (str_to_uintmax s)

abbrev pub not_empty : Bytes → Bytes → Option Bytes
not_empty [] tail = none
not_empty (c ∷ token) tail = some tail

-- The tail, or none for NULL, and the token; none at all where the code reads out of bounds.
unfoldable pub str_tok_esc : Option Bytes → Bytes → ℕ → ℕ → Option (Option Bytes × Bytes)
str_tok_esc none token delim esc = some (none, token)
str_tok_esc (some s) token delim esc = elim (tok_esc s false [] delim esc) [
  | none ↦ none
  | some (token', tail) ↦ some (not_empty token' tail, token')
]
