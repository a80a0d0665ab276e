-- ===== src/Vec.antt =====
-- src/vec.h and src/vec.c: growable arrays. A vector is the list of its elements, with its capacity;
-- `esize` is the size of an element in bytes, and a `size_t` has 8 bytes. No `size_t` overflows.
pub mod Growth
use c_chess_cli.Common.{
  ℕ, zero, suc, ◌+◌, ◌*◌, ◌/◌, List, [], ◌∷◌, ◌++◌, ◌==◌, ltb, length, if◌then◌else◌,
}

pub record Vec {ℓ} (A : Type ℓ) : Type ℓ where
  pub capacity : ℕ
  pub items : List A

-- One turn of the loop.
unfoldable pub next_capacity : ℕ → ℕ → ℕ
next_capacity esize n =
    if ltb (n * esize) 16
    then (16 + esize) / esize
    else if ltb (n * esize + 16) 4096
    then n * 2
    else n + (n + 1) / 2

-- `while (n < need)`. Each turn adds 1 at least, so that `need` turns are enough.
unfoldable pub grow_loop : ℕ → ℕ → ℕ → ℕ → ℕ
unfolding next_capacity
grow_loop zero esize need n = n
grow_loop (suc fuel) esize need n =
    let rest = grow_loop fuel esize need (next_capacity esize n) in if ltb n need then rest else n

module _ {ℓ} {A : Type ℓ} where
  unfoldable pub vec_do_init : ℕ → Vec A
  vec_do_init capacity = record { capacity = capacity; items = [] }

  unfoldable pub vec_size : Vec A → ℕ
  vec_size v = length v.items

  unfoldable pub vec_do_grow : ℕ → ℕ → Vec A → Vec A
  unfolding grow_loop vec_size
  vec_do_grow esize additional v =
      let need = vec_size v + additional in
      let n = grow_loop need esize need v.capacity in
      if ltb v.capacity n then record v { capacity = n } else v

  unfoldable pub push_grown : A → Vec A → Vec A
  push_grown x v = record v { items = v.items ++ x ∷ [] }

  unfoldable pub vec_push : ℕ → A → Vec A → Vec A
  unfolding vec_do_grow vec_size push_grown
  vec_push esize x v = push_grown x (if v.capacity == vec_size v then vec_do_grow esize 1 v else v)

  unfoldable pub vec_clear : Vec A → Vec A
  vec_clear v = record v { items = [] }
