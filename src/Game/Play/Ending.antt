-- ===== src/Game/Play/Ending.antt =====
-- A game ends: each turn reads lines of an engine, and there are only so many.
use c_chess_cli.Common.{
  ℕ, zero, suc, ◌+◌, ◌≡◌, ◌≢◌, ◌<◌, subst, arith, Bool, List, [], ◌∷◌, some, length, ◌==◌, update,
  Option-cases, Bool-cases, inl, inr,
}
use c_chess_cli.Common.Int.{ℤ}
use c_chess_cli.Str.{Bytes}
use c_chess_cli.Libc.{Libc}
use c_chess_cli.Options.{Options, EngineOptions}
use c_chess_cli.Engine.{Engine, Side, engine_sync}
use c_chess_cli.Engine.Bestmove.{Answer, is_bestmove, engine_bestmove}
use c_chess_cli.Engine.Bestmove.Sync.{after, engine_bestmove-Answered}
use c_chess_cli.Engine.Bestmove.Live.{is_readyok, engine_sync-ready}
use c_chess_cli.Position.State.{Position}
use c_chess_cli.Game.{state_none, uci_position_command, game_apply_chess_rules}
use c_chess_cli.Game.Clock.{prepare_time, uci_go_command}
use c_chess_cli.Game.Play.{
  Table, Playing, goes_on, out_of_fuel, no_info, side, next_turn, tell, sync, ask_engine, play_turn,
  game_loop, break_with, sample_with, resolved,
}
use c_chess_cli.Game.Play.Turns.{Turn-cases, play_turn-goes_on, take_answer-cases}

length-after :
    (last : Bytes → Bool) (lines : List Bytes) (line : Bytes) (rest : List Bytes)
    → after last lines ≡ some (line, rest)
    → length rest < length lines
length-after last [] line rest h = absurd (ground arith)
length-after last (l ∷ lines) line rest h = ground (arith, length-after last lines line rest)

sync-after :
    (msec : ℕ → ℤ) (e : Engine) (lines rest : List Bytes) (s s' : Side)
    → engine_sync msec e lines s ≡ some (rest, s')
    → length rest < length lines
sync-after msec e lines rest s s' h = elim (Option-cases (after is_readyok lines)) [
  | inl n ↦ absurd (ground (arith, engine_sync-ready msec e lines s))
  | inr ((line, rest'), a) ↦
      ground (arith, engine_sync-ready msec e lines s, length-after is_readyok lines line rest' a)
]

-- The lines that the engines have left to say.
abbrev left : Table → ℕ
left t = length (t.lines 0) + length (t.lines 1)

left-update :
    (f : ℕ → List Bytes) (i : ℕ) (rest : List Bytes)
    → i < 2
    → length rest < length (f i)
    → length (update f i rest 0) + length (update f i rest 1) < length (f 0) + length (f 1)
left-update f zero rest h k = omega (arith, k)
left-update f (suc zero) rest h k = omega (arith, k)
left-update f (suc (suc i)) rest h k = absurd (omega arith)

left-twice :
    (f g h : ℕ → List Bytes) (i : ℕ) (rest rest' : List Bytes)
    → i < 2
    → g ≡ update f i rest
    → length rest < length (f i)
    → h ≡ update g i rest'
    → length rest' < length (g i)
    → length (h 0) + length (h 1) < length (f 0) + length (f 1)
left-twice f g h i rest rest' l e k e' k' =
    let first : length (g 0) + length (g 1) < length (f 0) + length (f 1) =
      rw e (left-update f i rest l k) in
    let second : length (h 0) + length (h 1) < length (g 0) + length (g 1) =
      rw e' (left-update g i rest' l k') in
    omega (arith, first, second)

module _ (c : Libc) (msec : ℕ → ℤ) (garbage : Position → Bytes → ℕ) (engines : ℕ → Engine)
    (o : Options c.Double) (eo : ℕ → EngineOptions) where
  sync-left :
      (i : ℕ) (t t' : Table)
      → sync c msec garbage engines i t ≡ some t'
      → (rest : List Bytes) × (t'.lines ≡ update t.lines i rest)
        × (length rest < length (t.lines i))
  unfolding sync
  sync-left i t t' h = elim (Option-cases (engine_sync msec (engines i) (t.lines i) (side t i))) [
    | inl n ↦ absurd (ground arith)
    | inr ((rest, s), e) ↦
        (rest, ground arith, sync-after msec (engines i) (t.lines i) rest (side t i) s e)
  ]

  ask_engine-left :
      (p p' : Playing) (a : Answer)
      → p.ei < 2
      → ask_engine c msec garbage engines o eo p ≡ some (a, p')
      → left p'.table < left p.table
  unfolding ask_engine
  ask_engine-left p p' a l h =
      let g = p.game in
      let i = p.ei in
      let turn = (g.vec_pos g.ply).turn in
      let time_left = update p.time_left i (prepare_time (eo i) g.ply (p.time_left i)) in
      let t0 = tell c msec garbage engines i (uci_position_command g.vec_pos g.ply) p.table in
      elim (Option-cases (sync c msec garbage engines i t0)) [
        | inl n ↦ absurd (ground arith)
        | inr (t, e) ↦
            let t' = tell c msec garbage engines i (uci_go_command eo i g.ply turn time_left) t in
            elim (Option-cases (
              engine_bestmove msec c.atoi (engines i) (time_left i) p.best no_info (t'.lines i)
                (side t' i))) [
                  | inl n ↦ absurd (ground arith)
                  | inr ((lines, a'), b) ↦
                      let (rest, first, less) = sync-left i t0 t e in
                      let ((line, found, x, y, z), clear) =
                        engine_bestmove-Answered msec c.atoi (engines i) (time_left i) p.best
                          no_info (t'.lines i) lines (side t' i) a' b in
                      let less' = length-after is_bestmove (t'.lines i) line lines found in
                      let last : p'.table.lines ≡ update t.lines i lines =
                        unfold tell in ground arith in
                      let less1 : length rest < length (p.table.lines i) = unfold tell in less in
                      let less2 : length lines < length (t.lines i) = unfold tell in less' in
                      left-twice p.table.lines t.lines p'.table.lines i rest lines l
                        (unfold tell in first) less1 last less2
                ]
      ]

  play_turn-left :
      (p p' : Playing) (m : ℕ)
      → p.ei < 2
      → play_turn c msec garbage engines o eo p ≡ goes_on m p'
      → left p'.table < left p.table
  unfolding play_turn
  play_turn-left p p' m l h =
      elim (Bool-cases (game_apply_chess_rules p.game.vec_pos p.game.ply == state_none)) [
        | inr e ↦ absurd (ground arith)
        | inl e ↦ elim (Option-cases (ask_engine c msec garbage engines o eo p)) [
          | inl n ↦ absurd (ground arith)
          | inr ((a, q), k) ↦ elim (take_answer-cases c msec garbage engines o eo a q) [
            | inr (t, n) ↦ absurd (ground arith)
            | inl (t, n) ↦
                let next : sample_with c msec garbage engines o eo
                      (resolved c msec garbage engines o eo a q).0 a
                      (break_with c msec garbage engines o eo a q)
                    ≡ p' =
                  ground arith in
                subst (λ (r : Playing). left r.table < left p.table) next
                  (unfold sample_with break_with in (ask_engine-left p q a l k))
          ]
        ]
      ]

  play_turn-fuel : (p : Playing) → play_turn c msec garbage engines o eo p ≢ out_of_fuel
  unfolding play_turn
  play_turn-fuel p h =
      elim (Bool-cases (game_apply_chess_rules p.game.vec_pos p.game.ply == state_none)) [
        | inr e ↦ ground arith
        | inl e ↦ elim (Option-cases (ask_engine c msec garbage engines o eo p)) [
          | inl n ↦ ground arith
          | inr ((a, q), k) ↦ elim (take_answer-cases c msec garbage engines o eo a q) [
            | inr (t, n) ↦ ground arith
            | inl (t, n) ↦ ground arith
          ]
        ]
      ]

  -- From any state of the loop, a game is over, or the program ends, within as many turns as there
  -- are lines that the two engines have left to say, and one more.
  pub game_loop-ends :
      (fuel : ℕ) (p : Playing)
      → p.ei < 2
      → length (p.table.lines 0) + length (p.table.lines 1) < fuel
      → game_loop c msec garbage engines o eo fuel p ≢ out_of_fuel
  unfolding game_loop
  game_loop-ends zero p l k = absurd (omega arith)
  game_loop-ends (suc fuel) p l k = elim (Turn-cases (play_turn c msec garbage engines o eo p)) [
    | inl (q, e) ↦ rw (e, game_loop) (ground arith)
    | inr (inl (m, q, e)) ↦
        let (kept, legal) = play_turn-goes_on c msec garbage engines o eo p q m e in
        let less = play_turn-left p q m l e in
        rw (e, game_loop)
          (game_loop-ends fuel (next_turn m q) (unfold next_turn in omega (arith, kept.3))
            (unfold next_turn in omega (arith, less, k)))
    | inr (inr (inl e)) ↦ rw (e, game_loop) (ground arith)
    | inr (inr (inr e)) ↦ absurd (play_turn-fuel p e)
  ]
