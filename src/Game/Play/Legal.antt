-- ===== src/Game/Play/Legal.antt =====
-- The moves that are played in a game are moves that were generated.
use c_chess_cli.Common.{
  ℕ, zero, suc, ◌+◌, ◌≡◌, ◌≢◌, ◌≤◌, refl, sym, ap, subst, ◌∙◌, arith, Bool, false, Option, none,
  some, length, update, Option-cases, inl, inr,
}
use c_chess_cli.Common.Int.{ℤ}
use c_chess_cli.Str.{Bytes}
use c_chess_cli.Libc.{Libc}
use c_chess_cli.Options.{Options, EngineOptions}
use c_chess_cli.Engine.{Engine}
use c_chess_cli.Position.State.{Position}
use c_chess_cli.Gen.{gen_all_moves}
use c_chess_cli.Game.{state_none, illegal_move}
use c_chess_cli.Game.Play.{
  Game, Table, Playing, Turn, over, goes_on, died, out_of_fuel, next_position, next_turn, play_turn,
  game_loop, set_up, start, finish_game, game_play,
}
use c_chess_cli.Game.Play.Turns.{
  SameGame, IsExplained, Turn-cases, play_turn-goes_on, play_turn-over,
}

-- Each of the first `n` positions is left by a move that is generated in it.
abbrev pub IsLegal : (ℕ → Position) → ℕ → Type 0
IsLegal positions zero = Unit
IsLegal positions (suc n) =
    IsLegal positions n
    × ((m : ℕ) × (illegal_move m (gen_all_moves (positions n)) ≡ false)
        × (positions (suc n) ≡ next_position (positions n) m))

IsLegal-agree :
    (f g : ℕ → Position) (n : ℕ) → ((i : ℕ) → i ≤ n → f i ≡ g i) → IsLegal f n → IsLegal g n
IsLegal-agree f g zero h l = tt
IsLegal-agree f g (suc n) h (l, (m, legal, next)) =
    let e = h n (omega arith) in
    (
      IsLegal-agree f g n (λ i k. h i (omega arith)) l,
      (
        m,
        rw (← e) legal,
        sym (h (suc n) (omega arith)) ∙ next ∙ ap (λ (p : Position). next_position p m) e,
      ),
    )

update-le : (f : ℕ → Position) (n i : ℕ) (p : Position) → i ≤ n → update f (suc n) p i ≡ f i
update-le f n i p h = ground arith

update_self : (f : ℕ → Position) (n : ℕ) (p : Position) → update f n p n ≡ p
update_self f n p = ground arith

-- The next position, put behind the others.
IsLegal-update :
    (f : ℕ → Position) (n m : ℕ)
    → IsLegal f n
    → illegal_move m (gen_all_moves (f n)) ≡ false
    → IsLegal (update f (n + 1) (next_position (f n) m)) (n + 1)
IsLegal-update f n m l h =
    let e : n + 1 ≡ suc n = omega arith in
    let next = next_position (f n) m in
    rw e (
      IsLegal-agree f (update f (suc n) next) n (λ i k. sym (update-le f n i next k)) l,
      (
        m,
        rw (update-le f n n next (omega arith)) h,
        rw (update-le f n n next (omega arith)) (update_self f (suc n) next),
      ),
    )

module _ (c : Libc) (msec : ℕ → ℤ) (garbage : Position → Bytes → ℕ) (engines : ℕ → Engine)
    (o : Options c.Double) (eo : ℕ → EngineOptions) where
  -- What holds of the variables before each turn, holds after the last one.
  pub game_loop-inv {ℓ} :
      (P : Playing → Type ℓ)
      → ((p p' : Playing) (m : ℕ)
          → P p
          → SameGame p p'
          → illegal_move m (gen_all_moves (p.game.vec_pos p.game.ply)) ≡ false
          → P (next_turn m p'))
      → ((p p' : Playing) → P p → SameGame p p' → P p')
      → (fuel : ℕ) (p p' : Playing) → P p
      → game_loop c msec garbage engines o eo fuel p ≡ over p'
      → P p' × (p'.game.state ≢ state_none) × IsExplained c msec garbage engines o eo p'
  unfolding game_loop
  game_loop-inv P step last zero p p' i h = absurd (ground arith)
  game_loop-inv P step last (suc fuel) p p' i h =
      elim (Turn-cases (play_turn c msec garbage engines o eo p)) [
        | inl (q, e) ↦
            let same : q ≡ p' = cc (rw (e, game_loop) at h) in
            let (kept, ended, why) = play_turn-over c msec garbage engines o eo p q e in
            subst
              (λ (r : Playing).
                P r × (r.game.state ≢ state_none) × IsExplained c msec garbage engines o eo r)
              same (last p q i kept, ended, why)
        | inr (inl (m, q, e)) ↦
            let (kept, legal) = play_turn-goes_on c msec garbage engines o eo p q m e in
            game_loop-inv P step last fuel (next_turn m q) p' (step p q m i kept legal)
              (rw (e, game_loop) at h)
        | inr (inr (inl e)) ↦ absurd (ground arith)
        | inr (inr (inr e)) ↦ absurd (ground arith)
      ]

  -- The first position and the moves up to now.
  abbrev FromStart : Position → Playing → Type 0
  FromStart p0 p = (p.game.vec_pos 0 ≡ p0) × IsLegal p.game.vec_pos p.game.ply

  next_turn-FromStart :
      (p0 : Position) (p p' : Playing) (m : ℕ)
      → FromStart p0 p
      → SameGame p p'
      → illegal_move m (gen_all_moves (p.game.vec_pos p.game.ply)) ≡ false
      → FromStart p0 (next_turn m p')
  unfolding next_turn
  next_turn-FromStart p0 p p' m (first, legal) (v, l, n, e) h =
      let f = p.game.vec_pos in
      let k = p.game.ply in
      let g = p'.game.vec_pos in
      subst
        (λ (g : ℕ → Position).
          (update g (p'.game.ply + 1) (next_position (g p'.game.ply) m) 0 ≡ p0)
          × IsLegal (update g (p'.game.ply + 1) (next_position (g p'.game.ply) m))
              (p'.game.ply + 1))
        (sym v)
        (subst
          (λ (k : ℕ).
            (update f (k + 1) (next_position (f k) m) 0 ≡ p0)
            × IsLegal (update f (k + 1) (next_position (f k) m)) (k + 1))
          (sym l) (ground arith, IsLegal-update f k m legal h))

  SameGame-FromStart :
      (p0 : Position) (p p' : Playing) → FromStart p0 p → SameGame p p' → FromStart p0 p'
  SameGame-FromStart p0 p p' h (v, l, n, e) =
      subst (λ (f : ℕ → Position). (f 0 ≡ p0) × IsLegal f p'.game.ply) (sym v)
        (subst (λ (k : ℕ). (p.game.vec_pos 0 ≡ p0) × IsLegal p.game.vec_pos k) (sym l) h)

  abbrev outcome : Turn → Option (ℕ × Playing)
  outcome (over p) = some (finish_game c msec garbage engines o eo p)
  outcome (goes_on m p) = none
  outcome died = none
  outcome out_of_fuel = none

  -- The last variables of the loop, before the results are set.
  abbrev pub Ended : Game → Bool → ℕ → Playing → Type 0
  Ended g reverse result p =
      (fuel : ℕ) × (t : Table) × (q : Playing) × (game_loop c msec garbage engines o eo fuel
          (start c msec garbage engines o eo g t reverse)
        ≡ over q)
      × (finish_game c msec garbage engines o eo q ≡ (result, p))

  outcome-Ended :
      (g : Game) (t : Table) (reverse : Bool) (fuel result : ℕ) (p : Playing)
      → outcome (
          game_loop c msec garbage engines o eo fuel
            (start c msec garbage engines o eo g t reverse))
        ≡ some (result, p)
      → Ended g reverse result p
  outcome-Ended g t reverse fuel result p h =
      elim (Turn-cases (
        game_loop c msec garbage engines o eo fuel
          (start c msec garbage engines o eo g t reverse))) [
            | inl (q, e) ↦ (fuel, t, q, e, cc (rw e at h))
            | inr (inl (m, q, e)) ↦ absurd (ground arith)
            | inr (inr (inl e)) ↦ absurd (ground arith)
            | inr (inr (inr e)) ↦ absurd (ground arith)
          ]

  pub game_play-Ended :
      (g : Game) (t : Table) (reverse : Bool) (result : ℕ) (p : Playing)
      → game_play c msec garbage engines o eo g t reverse ≡ some (result, p)
      → Ended g reverse result p
  unfolding game_play
  game_play-Ended g t reverse result p h =
      let chess960 = (g.vec_pos 0).chess960 in
      elim (Option-cases (set_up c msec garbage engines chess960 0 t)) [
        | inl e ↦ absurd (ground arith)
        | inr (t0, e0) ↦ elim (Option-cases (set_up c msec garbage engines chess960 1 t0)) [
          | inl e ↦ absurd (ground arith)
          | inr (t1, e1) ↦
              let fuel = length (t1.lines 0) + length (t1.lines 1) + 1 in
              outcome-Ended g t1 reverse fuel result p (rw (e0, e1, game_play) at h)
        ]
      ]

  pub game_play-IsLegal :
      (g : Game) (t : Table) (reverse : Bool) (result : ℕ) (p : Playing)
      → game_play c msec garbage engines o eo g t reverse ≡ some (result, p)
      → (p.game.vec_pos 0 ≡ g.vec_pos 0)
        × IsLegal p.game.vec_pos p.game.ply
        × (p.game.state ≢ state_none)
        × IsExplained c msec garbage engines o eo p
  game_play-IsLegal g t reverse result p h =
      let (fuel, t', q, e, f) = game_play-Ended g t reverse result p h in
      let p0 = start c msec garbage engines o eo g t' reverse in
      let (legal, ended, why) =
        game_loop-inv (FromStart (g.vec_pos 0)) (next_turn-FromStart (g.vec_pos 0))
          (SameGame-FromStart (g.vec_pos 0)) fuel p0 q (unfold start in (refl, tt)) e in
      let same : (finish_game c msec garbage engines o eo q).1 ≡ p =
        ap (λ (u : ℕ × Playing). u.1) f in
      subst
        (λ (p : Playing).
          (p.game.vec_pos 0 ≡ g.vec_pos 0)
          × IsLegal p.game.vec_pos p.game.ply
          × (p.game.state ≢ state_none)
          × IsExplained c msec garbage engines o eo p)
        same (unfold finish_game in (legal.0, legal.1, ended, why))
