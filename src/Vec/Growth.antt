-- ===== src/Vec/Growth.antt =====
-- A vector always has room for its elements.
use c_chess_cli.Common.{
  ℕ, zero, suc, ◌+◌, ◌*◌, ◌≡◌, ◌≤◌, ◌<◌, refl, ap, arith, false, List, [], ◌∷◌, ◌++◌, ◌==◌, ltb,
  length, length-append, Bool-cases, ltb→lt, inl, inr,
}
use native.Mathlib.Nat.{le-div_iff_mul-le}
use c_chess_cli.Vec.{
  Vec, next_capacity, grow_loop, vec_do_grow, vec_push, push_grown, vec_size, vec_clear,
}

positive : (n esize : ℕ) → ltb (n * esize) 16 ≡ false → 0 < n
positive zero esize h = absurd (ground arith)
positive (suc n) esize h = omega arith

lt-next_capacity : (esize n : ℕ) → 0 < esize → n < next_capacity esize n
unfolding next_capacity
lt-next_capacity esize n h = elim (Bool-cases (ltb (n * esize) 16)) [
  | inl t ↦
      let small : n * esize < 16 = ltb→lt (n * esize) 16 t in
      let e : suc n * esize ≡ n * esize + esize = grind arith in
      rw (t, next_capacity)
        ((le-div_iff_mul-le {k = esize} {x = suc n} {y = 16 + esize} h).1 (omega (arith, e, small)))
  | inr t ↦ let some_item : 0 < n = positive n esize t in rw (t, next_capacity) (ground arith)
]

grow_loop-le :
    (fuel esize need n : ℕ)
    → 0 < esize
    → need ≤ fuel + n
    → (need ≤ grow_loop fuel esize need n) × (n ≤ grow_loop fuel esize need n)
unfolding grow_loop
grow_loop-le zero esize need n h l = (omega arith, omega arith)
grow_loop-le (suc fuel) esize need n h l = elim (Bool-cases (ltb n need)) [
  | inl t ↦
      let grows = lt-next_capacity esize n h in
      let (p, q) =
        grow_loop-le fuel esize need (next_capacity esize n) h (omega (arith, grows, l)) in
      rw (t, grow_loop) (p, omega (arith, q, grows))
  | inr t ↦ rw (t, grow_loop) (ground arith, omega arith)
]

-- The capacity is not below the number of elements.
abbrev pub IsFit {ℓ} : {A : Type ℓ} → Vec A → Type 0
IsFit v = length v.items ≤ v.capacity

module _ {ℓ} {A : Type ℓ} where
  -- Growing leaves the elements, never shrinks the vector, and makes room for as many more.
  vec_do_grow-room :
      (esize additional : ℕ) (v : Vec A)
      → 0 < esize
      → ((vec_do_grow esize additional v).items ≡ v.items)
        × (v.capacity ≤ (vec_do_grow esize additional v).capacity)
        × (length v.items + additional ≤ (vec_do_grow esize additional v).capacity)
  unfolding vec_do_grow vec_size
  vec_do_grow-room esize additional v h =
      let need = length v.items + additional in
      let (p, q) = grow_loop-le need esize need v.capacity h (omega arith) in
      elim (Bool-cases (ltb v.capacity (grow_loop need esize need v.capacity))) [
        | inl t ↦ rw (t, vec_do_grow) (refl, q, p)
        | inr t ↦ rw (t, vec_do_grow) (refl, omega arith, ground (arith, p, q))
      ]

  push_grown-room :
      (x : A) (u v : Vec A)
      → u.items ≡ v.items
      → v.capacity ≤ u.capacity
      → length v.items + 1 ≤ u.capacity
      → IsFit (push_grown x u)
        × ((push_grown x u).items ≡ v.items ++ x ∷ [])
        × (v.capacity ≤ (push_grown x u).capacity)
  unfolding push_grown
  push_grown-room x u v same kept room = (
    omega (arith, length-append u.items (x ∷ []), ap (λ (xs : List A). length xs) same),
    ap (λ (xs : List A). xs ++ x ∷ []) same,
    kept,
  )

  -- If a vector has room for its elements, it has after a push, which puts one element behind the
  -- others and never shrinks the vector, and after it is cleared, which keeps the capacity.
  pub vec_push-IsFit :
      (esize : ℕ) (x : A) (v : Vec A)
      → 0 < esize
      → IsFit v
      → IsFit (vec_push esize x v)
        × ((vec_push esize x v).items ≡ v.items ++ x ∷ [])
        × (v.capacity ≤ (vec_push esize x v).capacity)
        × IsFit (vec_clear v)
        × ((vec_clear v).capacity ≡ v.capacity)
  unfolding vec_push vec_clear
  vec_push-IsFit esize x v h fit =
      let (same, kept, room) = vec_do_grow-room esize 1 v h in
      elim (Bool-cases (v.capacity == length v.items)) [
        | inl t ↦
            let (p, q, r) = push_grown-room x (vec_do_grow esize 1 v) v same kept room in
            rw (vec_push, vec_size, t) (p, q, r, omega arith, refl)
        | inr t ↦
            let (p, q, r) = push_grown-room x v v refl (omega arith) (ground arith) in
            rw (vec_push, vec_size, t) (p, q, r, omega arith, refl)
      ]
