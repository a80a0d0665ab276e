-- ===== src/Common/Below.antt =====
-- Over a small range a Boolean property is checked by evaluation.
use Prim.Native.Nat.{ℕ, zero, suc, ◌<◌}
use mathlib.Core.Path.{◌≡◌}
use mathlib.Core.Bool.{Bool, true, ◌&&◌}
use native.Mathlib.Omega.{arith}

-- `p` at `n - 1`, ..., 1, 0.
unfoldable pub holds_below : ℕ → (ℕ → Bool) → Bool
holds_below zero p = true
holds_below (suc n) p = let rest = holds_below n p in rest && p n

pub holds_below_sound : (n : ℕ) (p : ℕ → Bool) (s : ℕ) → holds_below n p ≡ true → s < n → p s ≡ true
unfolding holds_below
holds_below_sound zero p s all below = absurd (omega arith)
holds_below_sound (suc n) p s all below = ground (arith, holds_below_sound n p s)
