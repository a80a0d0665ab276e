-- ===== src/Common/Loops.antt =====
-- C loops with a counter, and lists that a loop builds by pushing.
use Prim.Native.Nat.{ℕ, zero, suc, ◌+◌, ◌<◌}
use mathlib.Core.Path.{◌≡◌, refl, sym, ap₂}
use mathlib.Core.List.{List, [], ◌∷◌, ◌++◌, append-nil, append_assoc}
use native.Mathlib.Omega.{arith}

-- `for (i = lo; i < lo + n; i++)` with the state passed on.
unfoldable pub for_loop {ℓ} : {S : Type ℓ} → ℕ → ℕ → (ℕ → S → S) → S → S
for_loop i zero body s = s
for_loop i (suc n) body s = for_loop (i + 1) n body (body i s)

-- What holds before each turn of a loop holds after it. The turns are counted from 0.
pub for_loop_inv {ℓ κ} :
    {S : Type ℓ} (P : ℕ → S → Type κ) (body : ℕ → S → S) (lo n : ℕ) (s : S)
    → P 0 s
    → ((j : ℕ) (t : S) → j < n → P j t → P (suc j) (body (lo + j) t))
    → P n (for_loop lo n body s)
unfolding for_loop
for_loop_inv P body lo zero s p h = p
for_loop_inv P body lo (suc n) s p h =
    for_loop_inv (λ j. P (suc j)) body (lo + 1) n (body lo s)
      (let e : lo ≡ lo + 0 = omega arith in rw e (h 0 s (omega arith) p))
      (λ j t l q.
        let e : lo + 1 + j ≡ lo + suc j = omega arith in rw e (h (suc j) t (omega arith) q))

-- Two loops in step.
pub for_loop_both {ℓ κ μ} :
    {S : Type ℓ} {T : Type κ} (P : ℕ → S → T → Type μ) (f : ℕ → S → S) (g : ℕ → T → T) (lo n : ℕ)
    (s : S) (t : T)
    → P 0 s t
    → ((j : ℕ) (s : S) (t : T) → j < n → P j s t → P (suc j) (f (lo + j) s) (g (lo + j) t))
    → P n (for_loop lo n f s) (for_loop lo n g t)
unfolding for_loop
for_loop_both P f g lo zero s t p h = p
for_loop_both P f g lo (suc n) s t p h =
    for_loop_both (λ j. P (suc j)) f g (lo + 1) n (f lo s) (g lo t)
      (let e : lo ≡ lo + 0 = omega arith in rw e (h 0 s t (omega arith) p))
      (λ j s t l q.
        let e : lo + 1 + j ≡ lo + suc j = omega arith in rw e (h (suc j) s t (omega arith) q))

-- f 0, f 1, ..., f (n - 1), as a loop that pushes them one by one.
abbrev pub tab {ℓ} : {A : Type ℓ} → (ℕ → A) → ℕ → List A
tab f zero = []
tab f (suc n) = tab f n ++ f n ∷ []

module _ {ℓ} {A : Type ℓ} where
  pub tab_ext : (f g : ℕ → A) (n : ℕ) → ((i : ℕ) → i < n → f i ≡ g i) → tab f n ≡ tab g n
  tab_ext f g zero h = refl
  tab_ext f g (suc n) h =
      ap₂ (λ xs x. xs ++ x ∷ []) (tab_ext f g n (λ i l. h i (omega arith))) (h n (omega arith))

  pub tab_add : (f : ℕ → A) (m n : ℕ) → tab f (m + n) ≡ tab f m ++ tab (λ i. f (m + i)) n
  tab_add f m zero = let e : m + 0 ≡ m = omega arith in rw e (sym (append-nil _))
  tab_add f m (suc n) =
      let e : m + suc n ≡ suc (m + n) = omega arith in
      rw (e, tab_add f m n) (append_assoc (tab f m) _ _)
