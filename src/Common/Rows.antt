-- ===== src/Common/Rows.antt =====
-- Numbers as the cells of a table with `w` columns, counted row by row.
use Prim.Native.Nat.{ℕ, zero, suc, ◌+◌, ◌*◌, ◌/◌, ◌%◌, ◌<◌}
use mathlib.Core.Path.{◌≡◌, ◌∙◌}
use native.Mathlib.Nat.{
  mul-add-div_right, mul-add-mod_self_right, div-eq_of_lt, mod-eq_of_lt, div-lt_iff_lt-mul,
}
use native.Mathlib.Omega.{arith}

pub row_div : (r c w : ℕ) → c < w → (r * w + c) / w ≡ r
row_div r c w h = omega (arith, mul-add-div_right {m = w} (omega arith) r c, div-eq_of_lt h)

pub row_mod : (r c w : ℕ) → c < w → (r * w + c) % w ≡ c
row_mod r c w h = mul-add-mod_self_right r w c ∙ mod-eq_of_lt h

pub row_below : (k n w : ℕ) → k < n * w → k / w < n
row_below k n zero h = absurd (omega arith)
row_below k n (suc w) h = (div-lt_iff_lt-mul {k = suc w} {x = k} {y = n} (omega arith)).1 h
