-- ===== src/Openings/Shuffle.antt =====
-- The shuffle of src/openings.c loses and repeats no opening.
use c_chess_cli.Common.{
  ℕ, zero, suc, ◌+◌, ◌-◌, ◌%◌, ◌≤◌, ◌<◌, ◌≡◌, refl, ap, ◌∙◌, arith, List, [], ◌∷◌, ◌==◌,
  if◌then◌else◌, length, get_or, set, true, false,
}
use native.Mathlib.Nat.{mod-lt}
use c_chess_cli.Util.{prng}
use c_chess_cli.Str.{Bytes}
use c_chess_cli.Openings.{line_offsets, swap, shuffle, openings_init}

-- How often a number occurs.
unfoldable pub count : ℕ → List ℕ → ℕ
count x [] = 0
count x (y ∷ ys) = let rest = count x ys in if y == x then suc rest else rest

abbrev one_if : ℕ → ℕ → ℕ
one_if x y = if y == x then 1 else 0

count-set :
    (x : ℕ) (xs : List ℕ) (i v : ℕ)
    → i < length xs
    → count x (set xs i v) + one_if x (get_or xs i 0) ≡ count x xs + one_if x v
unfolding count
count-set x [] i v h = absurd (omega arith)
count-set x (y ∷ ys) zero v h = ground arith
count-set x (y ∷ ys) (suc i) v h = ground (arith, count-set x ys i v (omega arith))

length-set : (xs : List ℕ) (i v : ℕ) → length (set xs i v) ≡ length xs
length-set [] i v = refl
length-set (y ∷ ys) zero v = refl
length-set (y ∷ ys) (suc i) v = ap suc (length-set ys i v)

-- Also where the two indices are the same.
get_or-set :
    (xs : List ℕ) (i j : ℕ) → j < length xs → get_or (set xs i (get_or xs j 0)) j 0 ≡ get_or xs j 0
get_or-set [] i j h = refl
get_or-set (y ∷ ys) zero zero h = refl
get_or-set (y ∷ ys) zero (suc j) h = refl
get_or-set (y ∷ ys) (suc i) zero h = refl
get_or-set (y ∷ ys) (suc i) (suc j) h = get_or-set ys i j (omega arith)

count-swap :
    (x : ℕ) (xs : List ℕ) (i j : ℕ)
    → i < length xs
    → j < length xs
    → count x (swap xs i j) ≡ count x xs
unfolding swap
count-swap x xs i j hi hj =
    let first = count-set x xs i (get_or xs j 0) hi in
    let inside : j < length (set xs i (get_or xs j 0)) =
      omega (arith, length-set xs i (get_or xs j 0)) in
    let second = count-set x (set xs i (get_or xs j 0)) j (get_or xs i 0) inside in
    let same = ap (one_if x) (get_or-set xs i j hj) in omega (arith, first, second, same)

length-swap : (xs : List ℕ) (i j : ℕ) → length (swap xs i j) ≡ length xs
unfolding swap
length-swap xs i j =
    length-set (set xs i (get_or xs j 0)) j (get_or xs i 0) ∙ length-set xs i (get_or xs j 0)

count-shuffle :
    (x n : ℕ) (xs : List ℕ) (seed : ℕ)
    → n ≤ length xs - 1
    → count x (shuffle n xs seed) ≡ count x xs
unfolding shuffle
count-shuffle x zero xs seed h = refl
count-shuffle x (suc n) xs seed h =
    let j = (prng seed).0 % (suc n + 1) in
    let in_range : j < length xs =
      omega (arith, mod-lt ((prng seed).0) {m = suc n + 1} (omega arith)) in
    count-shuffle x n (swap xs (suc n) j) (prng seed).1 (omega (arith, length-swap xs (suc n) j))
    ∙ count-swap x xs (suc n) j (omega arith) in_range

-- If a file has at least one line, its shuffled index has each offset as often as its index in
-- order.
pub openings_init-count :
    (file : Bytes) (seed x : ℕ)
    → 0 < length (openings_init file false seed)
    → count x (openings_init file true seed) ≡ count x (openings_init file false seed)
unfolding openings_init
openings_init-count file seed x h =
    count-shuffle x (length (line_offsets (length file) 0 file) - 1)
      (line_offsets (length file) 0 file) seed (omega arith)
