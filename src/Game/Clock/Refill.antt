-- ===== src/Game/Clock/Refill.antt =====
-- The number of moves to the next time control, which the command `go` tells the engine.
use c_chess_cli.Common.{
  ℕ, ◌++◌, codes, ◌+◌, ◌-◌, ◌*◌, ◌/◌, ◌%◌, ◌≡◌, ◌≤◌, ◌<◌, refl, sym, ◌∙◌, ◌||◌, arith, true, false,
  ◌==◌, ltb, if◌then◌else◌, Bool-cases, ==_iff, inl, inr,
}
use native.Mathlib.Nat.{mod-lt, mod-add-mod, mod-eq_of_lt, mod_self}
use c_chess_cli.Common.Int.{ℤ, pos, ◌+ℤ◌, ◌-ℤ◌}
use c_chess_cli.Workers.{fmt_int}
use c_chess_cli.Options.{EngineOptions}
use c_chess_cli.Game.Clock.{moves_done, prepare_time, go_limits, uci_go_command, is_set}

-- Moves before the next control: none of them has the remainder 0, and the control has.
mod_steps : (a k m : ℕ) → 0 < k → k < m - a % m → 0 < m → (a + k) % m ≡ a % m + k
mod_steps a k m h l p = sym (mod-add-mod a m k) ∙ mod-eq_of_lt (omega arith)

mod_reach : (a m : ℕ) → 0 < m → (a + (m - a % m)) % m ≡ 0
mod_reach a m p =
    let e : a % m + (m - a % m) ≡ m = omega (arith, mod-lt a p) in
    sym (mod-add-mod a m (m - a % m)) ∙ rw e (mod_self m)

-- The moves of an engine between two times.
half : (ply k : ℕ) → (ply + 2 * k) / 2 ≡ ply / 2 + k
half ply k = omega arith

moves_done_lem : (ply m : ℕ) → moves_done ply (pos m) ≡ (ply / 2) % m
unfolding moves_done
moves_done_lem ply m = let e : m + 0 ≡ m = omega arith in rw e refl

-- The control is reached when the moves that were announced are made, and not before.
moves_done-reached :
    (ply m k : ℕ)
    → 0 < m
    → 0 < k
    → k ≤ m - moves_done ply (pos m)
    → (moves_done (ply + 2 * k) (pos m) == 0) ≡ (k == m - moves_done ply (pos m))
moves_done-reached ply m k p h l =
    let l' : k ≤ m - (ply / 2) % m = rw (moves_done_lem ply m) at l in
    rw (moves_done_lem ply m, moves_done_lem (ply + 2 * k) m, half ply k)
      (elim (Bool-cases (k == m - (ply / 2) % m)) [
        | inl e ↦
            let k' : k ≡ m - (ply / 2) % m = (==_iff k (m - (ply / 2) % m)).0 e in
            let z : (ply / 2 + k) % m ≡ 0 = rw k' (mod_reach (ply / 2) m p) in rw (z, e) refl
        | inr e ↦
            let z : (ply / 2 + k) % m ≡ (ply / 2) % m + k =
              mod_steps (ply / 2) k m h (ground (arith)) p in
            rw (z, e) (ground arith)
      ])

-- The end of the command.
go_ends :
    (eos : ℕ → EngineOptions) (ei ply turn m : ℕ) (clocks : ℕ → ℤ)
    → (eos ei).movestogo ≡ pos m
    → is_set (pos m) ≡ true
    → pos m -ℤ pos (moves_done ply (pos m)) ≡ pos (m - moves_done ply (pos m))
    → uci_go_command eos ei ply turn clocks
      ≡ go_limits eos ei turn clocks
        ++ (codes " movestogo " ++ fmt_int (pos (m - moves_done ply (pos m))))
unfolding uci_go_command
go_ends eos ei ply turn m clocks e d left = rw (uci_go_command, e, d, left) refl

-- With a time control of `m` moves, the command `go` of an engine ends with a number of moves that
-- is from 1 to `m`; that many of its own moves later its clock gets the time of the control with the
-- increment, and at each move before it gets the increment only.
pub prepare_time-movestogo :
    (eos : ℕ → EngineOptions) (ei ply turn m k : ℕ) (clocks : ℕ → ℤ) (time_left : ℤ)
    → (eos ei).movestogo ≡ pos m
    → 0 < m
    → is_set (eos ei).movetime ≡ false
    → (is_set (eos ei).time || is_set (eos ei).increment) ≡ true
    → 0 < k
    → k ≤ m - moves_done ply (pos m)
    → (uci_go_command eos ei ply turn clocks
        ≡ go_limits eos ei turn clocks
          ++ (codes " movestogo " ++ fmt_int (pos (m - moves_done ply (pos m)))))
      × (1 ≤ m - moves_done ply (pos m))
      × (m - moves_done ply (pos m) ≤ m)
      × (prepare_time (eos ei) (ply + 2 * k) time_left ≡ (
          if k == m - moves_done ply (pos m)
          then time_left +ℤ (eos ei).increment +ℤ (eos ei).time
          else time_left +ℤ (eos ei).increment))
unfolding prepare_time
prepare_time-movestogo eos ei ply turn m k clocks t e p a b h l =
    let below : moves_done ply (pos m) < m = rw (moves_done_lem ply m) (mod-lt (ply / 2) p) in
    let d0 : is_set (pos m) ≡ true = ground arith in
    let d1 : ltb 1 (ply + 2 * k) ≡ true = ground arith in
    (
      go_ends eos ei ply turn m clocks e d0 (ground arith),
      omega arith,
      omega arith,
      rw (prepare_time, a, b, e, d0, d1, moves_done-reached ply m k p h l) refl,
    )
