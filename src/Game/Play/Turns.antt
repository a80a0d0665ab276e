-- ===== src/Game/Play/Turns.antt =====
-- What a turn of the loop of `game_play` changes, and what it leaves.
use c_chess_cli.Common.{
  ℕ, ◌≡◌, ◌≢◌, refl, subst, ◌∙◌, arith, Bool, true, false, some, ◌==◌, Option-cases, Bool-cases,
  inl, inr, ◌⊎◌,
}
use c_chess_cli.Common.Int.{ℤ}
use c_chess_cli.Str.{Bytes}
use c_chess_cli.Libc.{Libc}
use c_chess_cli.Options.{Options, EngineOptions}
use c_chess_cli.Engine.{Engine}
use c_chess_cli.Engine.Bestmove.{Answer}
use c_chess_cli.Position.State.{Position}
use c_chess_cli.Gen.{gen_all_moves}
use c_chess_cli.Game.{state_none, game_apply_chess_rules, illegal_move}
use c_chess_cli.Game.Judge.{Counters, judge_move}
use c_chess_cli.Game.Judge.Reason.{Reason, judge_move-Reason}
use c_chess_cli.Game.Sampling.{lan_move}
use c_chess_cli.Game.Play.{
  Playing, Turn, over, goes_on, died, out_of_fuel, ask_engine, take_answer, play_turn, played_move,
  verdict, resolved, break_with, sample_with,
}

-- What the turn leaves as it is.
abbrev pub SameGame : Playing → Playing → Type 0
SameGame p p' =
    (p'.game.vec_pos ≡ p.game.vec_pos)
    × (p'.game.ply ≡ p.game.ply)
    × (p'.game.names ≡ p.game.names)
    × (p'.ei ≡ p.ei)

pub Turn-cases :
    (t : Turn)
    → ((p : Playing) × (t ≡ over p))
      ⊎ (((m : ℕ) × (p : Playing) × (t ≡ goes_on m p)) ⊎ ((t ≡ died) ⊎ (t ≡ out_of_fuel)))
Turn-cases (over p) = inl (p, refl)
Turn-cases (goes_on m p) = inr (inl (m, p, refl))
Turn-cases died = inr (inr (inl refl))
Turn-cases out_of_fuel = inr (inr (inr refl))

judge_move-legal :
    {D : Type 0} (o : Options D) (eo : EngineOptions) (ply ei : ℕ) (score : ℤ)
    (answered illegal : Bool) (time_left : ℤ) (c : Counters)
    → (judge_move o eo ply ei score answered illegal time_left c).0 ≡ state_none
    → illegal ≡ false
unfolding judge_move
judge_move-legal o eo ply ei score false illegal time_left c h = absurd (omega arith)
judge_move-legal o eo ply ei score true true time_left c h = absurd (omega arith)
judge_move-legal o eo ply ei score true false time_left c h = refl

module _ (c : Libc) (msec : ℕ → ℤ) (garbage : Position → Bytes → ℕ) (engines : ℕ → Engine)
    (o : Options c.Double) (eo : ℕ → EngineOptions) where
  pub ask_engine-SameGame :
      (p p' : Playing) (a : Answer)
      → ask_engine c msec garbage engines o eo p ≡ some (a, p')
      → SameGame p p'
  unfolding ask_engine
  ask_engine-SameGame p p' a h = ground arith

  pub take_answer-cases :
      (a : Answer) (p : Playing)
      → ((take_answer c msec garbage engines o eo a p
            ≡ goes_on (played_move c msec garbage engines o eo a p) (
                sample_with c msec garbage engines o eo
                  (resolved c msec garbage engines o eo a p).0
                  a
                  (break_with c msec garbage engines o eo a p)))
          × ((verdict c msec garbage engines o eo a p).0 ≡ state_none))
        ⊎ ((take_answer c msec garbage engines o eo a p
              ≡ over (break_with c msec garbage engines o eo a p))
            × ((verdict c msec garbage engines o eo a p).0 ≢ state_none))
  unfolding take_answer
  take_answer-cases a p =
      elim (Bool-cases ((verdict c msec garbage engines o eo a p).0 == state_none)) [
        | inl e ↦ inl (unfold break_with in ground arith, ground arith)
        | inr e ↦ inr (unfold break_with in ground arith, ground arith)
      ]

  take_answer-goes_on :
      (a : Answer) (p p' : Playing) (m : ℕ)
      → take_answer c msec garbage engines o eo a p ≡ goes_on m p'
      → SameGame p p' × (illegal_move m (gen_all_moves (p.game.vec_pos p.game.ply)) ≡ false)
  take_answer-goes_on a p p' m h = elim (take_answer-cases a p) [
    | inr (e, n) ↦ absurd (ground arith)
    | inl (e, n) ↦
        let same : played_move c msec garbage engines o eo a p ≡ m = cc in
        let next : sample_with c msec garbage engines o eo
              (resolved c msec garbage engines o eo a p).0 a
              (break_with c msec garbage engines o eo a p)
            ≡ p' =
          cc in
        (
          subst (SameGame p) next (unfold sample_with break_with in (refl, refl, refl, refl)),
          subst (λ (k : ℕ). illegal_move k (gen_all_moves (p.game.vec_pos p.game.ply)) ≡ false) same
              (judge_move-legal o (eo p.ei) p.game.ply p.ei a.info.score a.result
                (illegal_move (played_move c msec garbage engines o eo a p)
                  (gen_all_moves (p.game.vec_pos p.game.ply)))
                a.time_left p.counters (unfold verdict in n)),
        )
  ]

  verdict-Reason :
      (a : Answer) (p : Playing)
      → (verdict c msec garbage engines o eo a p).0 ≢ state_none
      → Reason o
          (eo p.ei)
          a.info.score
          a.result
          (illegal_move
            (lan_move garbage (p.game.vec_pos p.game.ply) a.best)
            (gen_all_moves (p.game.vec_pos p.game.ply)))
          a.time_left
          (verdict c msec garbage engines o eo a p).0
  unfolding verdict played_move
  verdict-Reason a p n =
      judge_move-Reason o (eo p.ei) p.game.ply p.ei a.info.score a.result _ a.time_left p.counters n

  -- Why the state of the variables ends the game, if the answer is the last one.
  abbrev pub Answered : Answer → Playing → Type 0
  Answered a p =
      Reason o (eo p.ei) a.info.score a.result
        (illegal_move (lan_move garbage (p.game.vec_pos p.game.ply) a.best)
          (gen_all_moves (p.game.vec_pos p.game.ply)))
        a.time_left p.game.state

  -- The state is what `game_apply_chess_rules` gives for the last position, or the engine to move was
  -- asked, and its answer is a reason for the state.
  abbrev pub IsExplained : Playing → Type 0
  IsExplained p =
      (p.game.state ≡ game_apply_chess_rules p.game.vec_pos p.game.ply)
      ⊎ ((q : Playing) × (r : Playing) × (a : Answer) × (ask_engine c msec garbage engines o eo q
            ≡ some (a, r))
          × SameGame q p
          × Answered a p)

  take_answer-over :
      (a : Answer) (p p' : Playing)
      → take_answer c msec garbage engines o eo a p ≡ over p'
      → SameGame p p' × (p'.game.state ≢ state_none) × Answered a p'
  take_answer-over a p p' h = elim (take_answer-cases a p) [
    | inl (e, n) ↦ absurd (ground arith)
    | inr (e, n) ↦
        let next : break_with c msec garbage engines o eo a p ≡ p' = cc in
        subst (λ (q : Playing). SameGame p q × (q.game.state ≢ state_none) × Answered a q) next
          (unfold break_with in ((refl, refl, refl, refl), n, verdict-Reason a p n))
  ]

  SameGame-trans : (p q r : Playing) → SameGame p q → SameGame q r → SameGame p r
  SameGame-trans p q r (a, b, d, e) (a', b', d', e') = (a' ∙ a, b' ∙ b, d' ∙ d, e' ∙ e)

  -- A turn that goes on plays a move that was generated, in a position that does not end the game.
  pub play_turn-goes_on :
      (p p' : Playing) (m : ℕ)
      → play_turn c msec garbage engines o eo p ≡ goes_on m p'
      → SameGame p p' × (illegal_move m (gen_all_moves (p.game.vec_pos p.game.ply)) ≡ false)
  unfolding play_turn
  play_turn-goes_on p p' m h =
      elim (Bool-cases (game_apply_chess_rules p.game.vec_pos p.game.ply == state_none)) [
        | inr e ↦ absurd (ground arith)
        | inl e ↦ elim (Option-cases (ask_engine c msec garbage engines o eo p)) [
          | inl n ↦ absurd (ground arith)
          | inr ((a, q), k) ↦
              let same = ask_engine-SameGame p q a k in
              let (same', legal) = take_answer-goes_on a q p' m (rw (e, k, play_turn) at h) in
              (SameGame-trans p q p' same same', cc)
        ]
      ]

  -- A turn that ends the game leaves a state that says why.
  pub play_turn-over :
      (p p' : Playing)
      → play_turn c msec garbage engines o eo p ≡ over p'
      → SameGame p p' × (p'.game.state ≢ state_none) × IsExplained p'
  unfolding play_turn
  play_turn-over p p' h =
      elim (Bool-cases (game_apply_chess_rules p.game.vec_pos p.game.ply == state_none)) [
        | inr e ↦
            let state = game_apply_chess_rules p.game.vec_pos p.game.ply in
            let next : record p { game = record (p.game) { state = state } } ≡ p' = ground arith in
            subst (λ (q : Playing). SameGame p q × (q.game.state ≢ state_none) × IsExplained q) next
              ((refl, refl, refl, refl), ground arith, inl refl)
        | inl e ↦ elim (Option-cases (ask_engine c msec garbage engines o eo p)) [
          | inl n ↦ absurd (ground arith)
          | inr ((a, q), k) ↦
              let same = ask_engine-SameGame p q a k in
              let (same', ended, answered) = take_answer-over a q p' (rw (e, k, play_turn) at h) in
              let kept = SameGame-trans p q p' same same' in
              (kept, ended, inr (p, q, a, k, kept, answered))
        ]
      ]
