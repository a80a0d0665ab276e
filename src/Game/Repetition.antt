-- ===== src/Game/Repetition.antt =====
-- Threefold repetition.
use c_chess_cli.Common.{
  ℕ, zero, suc, ◌+◌, ◌-◌, ◌*◌, ◌%◌, ◌<◌, ◌≡◌, refl, arith, Bool, false, ◌&&◌, ◌==◌, leb,
  if◌then◌else◌, length, ◌∙◌,
}
use c_chess_cli.Position.State.{Position, pos_insufficient_material}
use c_chess_cli.Gen.{gen_all_moves}
use c_chess_cli.Game.{
  scan, game_apply_chess_rules, state_stalemate, state_checkmate, state_fifty_moves,
  state_insufficient_material, state_threefold, state_none,
}

-- Does the position `d` plies back repeat the last one, with the same side to move and within the
-- moves that the rule50 counter counts?
unfoldable pub repeats : (ℕ → Position) → ℕ → ℕ → Bool
repeats positions ply d =
    (d % 2 == 0)
    && (leb d (positions ply).rule50
        && (leb d ply && (positions (ply - d)).key == (positions ply).key))

-- The number of repetitions among the distances `d`, `d + 1`, ..., `n` of them.
unfoldable pub count_repeats : (ℕ → Position) → ℕ → ℕ → ℕ → ℕ
unfolding repeats
count_repeats positions ply d zero = 0
count_repeats positions ply d (suc n) =
    let rest = count_repeats positions ply (d + 1) n in
    if repeats positions ply d then suc rest else rest

none_beyond :
    (positions : ℕ → Position) (ply d n : ℕ)
    → (leb d (positions ply).rule50 && leb d ply) ≡ false
    → count_repeats positions ply d n ≡ 0
unfolding count_repeats repeats
none_beyond positions ply d zero h = refl
none_beyond positions ply d (suc n) h = ground (arith, none_beyond positions ply (d + 1) n)

-- A turn of the loop passes two distances, the second of which is odd.
count-two :
    (positions : ℕ → Position) (ply d n : ℕ)
    → d % 2 ≡ 0
    → count_repeats positions ply d (suc (suc n))
      ≡ (if repeats positions ply d then 1 else 0) + count_repeats positions ply (d + 2) n
unfolding count_repeats repeats
count-two positions ply d n h =
    let e : d + 1 + 1 ≡ d + 2 = omega arith in
    let odd : ((d + 1) % 2 == 0) ≡ false = ground arith in rw (e, odd) (ground arith)

no_turns : (positions : ℕ → Position) (ply i : ℕ) → count_repeats positions ply i (2 * 0) ≡ 0
unfolding count_repeats
no_turns positions ply i = refl

scan-count :
    (fuel : ℕ) (positions : ℕ → Position) (ply i found : ℕ)
    → found < 3
    → i % 2 ≡ 0
    → scan fuel positions ply i found ≡ leb 3 (found + count_repeats positions ply i (2 * fuel))
unfolding scan repeats
scan-count zero positions ply i found h even = ground (arith, no_turns positions ply i)
scan-count (suc fuel) positions ply i found h even =
    let e : 2 * suc fuel ≡ suc (suc (2 * fuel)) = omega arith in
    rw (e, count-two positions ply i (2 * fuel) even)
      (ground (
        arith,
        none_beyond positions ply i (2 * fuel),
        none_beyond positions ply (i + 2) (2 * fuel),
        scan-count fuel positions ply (i + 2) found,
        scan-count fuel positions ply (i + 2) (found + 1),
      ))

-- The state after a move is decided in this order: no legal move, fifty moves, insufficient
-- material, and then threefold repetition, which holds exactly if two of the positions at an even
-- distance of 4 or more, within the count of the rule50 counter, have the key of the last one.
pub game_apply_chess_rules-threefold :
    (positions : ℕ → Position) (ply : ℕ)
    → let here = positions ply in
      game_apply_chess_rules positions ply ≡ (
        if length (gen_all_moves here) == 0
        then if here.checkers == 0 then state_stalemate else state_checkmate
        else if leb 100 here.rule50
        then state_fifty_moves
        else if pos_insufficient_material here
        then state_insufficient_material
        else if leb 2 (count_repeats positions ply 4 (2 * (here.rule50 + 1)))
        then state_threefold
        else state_none)
unfolding game_apply_chess_rules
game_apply_chess_rules-threefold positions ply =
    let here = positions ply in
    let e : scan (here.rule50 + 1) positions ply 4 1
        ≡ leb 2 (count_repeats positions ply 4 (2 * (here.rule50 + 1))) =
      scan-count (here.rule50 + 1) positions ply 4 1 (omega arith) refl ∙ ground arith in
    rw e refl
