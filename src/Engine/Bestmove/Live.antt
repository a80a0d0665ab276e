-- ===== src/Engine/Bestmove/Live.antt =====
-- The dialogue with an engine goes on: if the engine answers, the request returns.
use c_chess_cli.Common.{
  ℕ, ◌≡◌, ◌≢◌, refl, arith, Bool, true, false, List, [], ◌∷◌, ◌++◌, Option, none, some, codes,
  str_eq, Option-cases, Bool-cases, ◌⊎◌, inl, inr,
}
use c_chess_cli.Common.Int.{ℤ, ◌+ℤ◌, ◌-ℤ◌}
use c_chess_cli.Str.{Bytes, str_prefix}
use c_chess_cli.Workers.{deadline_clear}
use c_chess_cli.Engine.{
  Engine, Side, engine_readln, engine_writeln, set_deadline, clear_deadline, read_until,
  engine_sync,
}
use c_chess_cli.Engine.Info.{Info, died, engine_parse_info, engine_parse_info-ends}
use c_chess_cli.Engine.Bestmove.{
  Answer, ask, is_bestmove, answer_line, waits, bestmove_loop, stop, engine_bestmove,
}
use c_chess_cli.Engine.Bestmove.Sync.{
  after, answer_line-Heeds, bestmove_loop-done, bestmove_loop-Ends,
}

-- The code can read the info line, so that it does not end the program.
abbrev pub Legible : (Bytes → ℤ) → Bytes → Type 0
Legible atoi line =
    (tail : Bytes) (info : Info) (pv : Bytes)
    → str_prefix line (codes "info ") ≡ some tail
    → engine_parse_info atoi tail info pv ≢ died

abbrev pub AllLegible : (Bytes → ℤ) → List Bytes → Type 0
AllLegible atoi [] = Unit
AllLegible atoi (line ∷ lines) = Legible atoi line × AllLegible atoi lines

read_until-returns :
    (last : Bytes → Bool) (name : Bytes) (lines : List Bytes) (s : Side)
    → after last lines ≢ none
    → read_until last name lines s ≢ none
unfolding read_until
read_until-returns last name [] s h = absurd (h refl)
read_until-returns last name (line ∷ lines) s h = elim (Bool-cases (last line)) [
  | inl e ↦ ground arith
  | inr e ↦
      rw (e, read_until)
        (read_until-returns last name lines (engine_readln name line s) (rw e at h))
]

abbrev pub is_readyok : Bytes → Bool
is_readyok line = str_eq line (codes "readyok")

-- What `engine_sync` leaves, and what it should leave: the lines after the answer, the lines that
-- were sent, and whether a deadline is set.
abbrev pub synced : Option (List Bytes × Side) → Option (List Bytes × (List Bytes × Bool))
synced none = none
synced (some (rest, s)) = some (rest, (s.sent, s.worker.deadline.set))

abbrev pub ready :
    List Bytes → Option (Bytes × List Bytes) → Option (List Bytes × (List Bytes × Bool))
ready sent none = none
ready sent (some (line, rest)) = some (rest, (sent ++ codes "isready" ∷ [], false))

abbrev read : Option (List Bytes × Side) → Option (List Bytes × List Bytes)
read none = none
read (some (rest, s)) = some (rest, s.sent)

abbrev passed : List Bytes → Option (Bytes × List Bytes) → Option (List Bytes × List Bytes)
passed sent none = none
passed sent (some (line, rest)) = some (rest, sent)

read_until-rest :
    (last : Bytes → Bool) (name : Bytes) (lines : List Bytes) (s : Side)
    → read (read_until last name lines s) ≡ passed s.sent (after last lines)
unfolding read_until
read_until-rest last name [] s = refl
read_until-rest last name (line ∷ lines) s = elim (Bool-cases (last line)) [
  | inl e ↦ rw (e, read_until) (unfold engine_readln in refl)
  | inr e ↦
      rw (e, read_until)
        (unfold engine_readln in (read_until-rest last name lines (engine_readln name line s)))
]

-- `isready` is sent, and the lines are read up to the first `readyok` and no further, with the
-- deadline cleared; without such a line, and only then, the program ends.
pub engine_sync-ready :
    (msec : ℕ → ℤ) (e : Engine) (lines : List Bytes) (s : Side)
    → synced (engine_sync msec e lines s) ≡ ready s.sent (after is_readyok lines)
unfolding engine_sync
engine_sync-ready msec e lines s =
    let s' = engine_writeln e.name (codes "isready") (set_deadline msec e.name e.time_out s) in
    elim (Option-cases (read_until is_readyok e.name lines s')) [
      | inl n ↦ ground (arith, read_until-rest is_readyok e.name lines s')
      | inr ((rest, s''), r) ↦
          rw (r, engine_sync)
            (unfold engine_writeln set_deadline clear_deadline deadline_clear in
              ground (arith, read_until-rest is_readyok e.name lines s'))
    ]

stop-returns :
    (name : Bytes) (lines : List Bytes) (a : Answer)
    → (a.result ≡ true) ⊎ (after is_bestmove lines ≢ none)
    → stop name lines a ≢ none
unfolding stop
stop-returns name lines a (inl r) = ground arith
stop-returns name lines a (inr h) =
    ground (
      arith,
      read_until-returns is_bestmove name lines (engine_writeln name (codes "stop") a.side) h,
    )

module _ (msec : ℕ → ℤ) (atoi : Bytes → ℤ) where
  answer_line-returns :
      (name : Bytes) (start time_limit : ℤ) (line : Bytes) (a : Answer)
      → Legible atoi line
      → answer_line msec atoi name start time_limit line a ≢ none
  unfolding answer_line
  answer_line-returns name start time_limit line a h =
      let now = msec (engine_readln name line a.side).ticks in
      let info = record (a.info) { time = now -ℤ start } in
      elim (Option-cases (str_prefix line (codes "info "))) [
        | inl e ↦ ground arith
        | inr (tail, e) ↦
            ground (arith, h tail info a.pv e, engine_parse_info-ends atoi tail info a.pv)
      ]

  bestmove_loop-returns :
      (name : Bytes) (start time_limit : ℤ) (lines : List Bytes) (a : Answer)
      → AllLegible atoi lines
      → after is_bestmove lines ≢ none
      → bestmove_loop msec atoi name start time_limit lines a ≢ none
  unfolding bestmove_loop
  bestmove_loop-returns name start time_limit [] a l h = absurd (h refl)
  bestmove_loop-returns name start time_limit (line ∷ lines) a l h = elim (Bool-cases (waits a)) [
    | inr w ↦ rw (w, bestmove_loop) (ground arith)
    | inl w ↦ elim (Option-cases (answer_line msec atoi name start time_limit line a)) [
      | inl e ↦ absurd (answer_line-returns name start time_limit line a l.0 e)
      | inr (a', e) ↦
          let (res, best, sent) = answer_line-Heeds msec atoi name start time_limit line a a' e in
          rw (w, e, bestmove_loop)
            (elim (Bool-cases (is_bestmove line)) [
              | inl b ↦
                  rw
                    (bestmove_loop-done msec atoi name start time_limit lines a'
                      (unfold waits in ground arith))
                    (ground arith)
              | inr b ↦ bestmove_loop-returns name start time_limit lines a' l.1 (rw b at h)
            ])
    ]
  ]

  -- If the code can read all info lines and there is an answer among the lines, `engine_bestmove`
  -- returns, however the clock runs and whatever time is left.
  pub engine_bestmove-returns :
      (e : Engine) (time_left : ℤ) (best : Bytes) (info : Info) (lines : List Bytes) (s : Side)
      → AllLegible atoi lines
      → after is_bestmove lines ≢ none
      → engine_bestmove msec atoi e time_left best info lines s ≢ none
  unfolding engine_bestmove
  engine_bestmove-returns e time_left best info lines s l h =
      let start = msec s.ticks in
      let a0 = ask msec e time_left best info s in
      elim (Option-cases (bestmove_loop msec atoi e.name start (start +ℤ time_left) lines a0)) [
        | inl n ↦ absurd (bestmove_loop-returns e.name start (start +ℤ time_left) lines a0 l h n)
        | inr ((rest, a), r) ↦
            let (sent, ends) =
              bestmove_loop-Ends msec atoi e.name start (start +ℤ time_left) lines rest a0 a
                (unfold ask in refl) r in
            elim (Option-cases (stop e.name rest a)) [
              | inl n ↦ absurd (
                  stop-returns e.name rest a
                    (elim ends [
                      | inl (res, found) ↦ inl res
                      | inr (res, aft, best', neg) ↦ inr (rw (← aft) h)
                    ])
                    n)
              | inr ((rest', a'), t) ↦ rw (r, t, engine_bestmove) (ground arith)
            ]
      ]
