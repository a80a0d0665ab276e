-- ===== src/Engine/Bestmove/Sync.antt =====
-- The dialogue with an engine stays in step: a request reads the lines up to its own answer.
use c_chess_cli.Common.{
  ℕ, ◌≡◌, refl, subst, ◌∙◌, arith, Bool, true, false, ◌||◌, List, [], ◌∷◌, ◌++◌, append-nil, Option,
  none, some, codes, if◌then◌else◌, Option-cases, Bool-cases, ◌⊎◌, inl, inr,
}
use c_chess_cli.Common.Int.{ℤ, ◌+ℤ◌, is_neg}
use c_chess_cli.Str.{Bytes, str_prefix, str_tok}
use c_chess_cli.Workers.{deadline_clear}
use c_chess_cli.Engine.{Engine, Side, engine_readln, engine_writeln, clear_deadline, read_until}
use c_chess_cli.Engine.Info.{Info, space}
use c_chess_cli.Engine.Bestmove.{
  Answer, ask, is_bestmove, answer_line, waits, bestmove_loop, stop, engine_bestmove,
}

-- The first line that passes a test, and the lines after it.
abbrev pub after : (Bytes → Bool) → List Bytes → Option (Bytes × List Bytes)
after last [] = none
after last (line ∷ lines) = if last line then some (line, lines) else after last lines

-- The move that a line `bestmove ...` names.
abbrev pub move_in : Bytes → Bytes
move_in line = elim (str_prefix line (codes "bestmove ")) [
  | none ↦ []
  | some tail ↦ (str_tok (some tail) [] space).1
]

info-not_bestmove :
    (line : Bytes) {tail : Bytes}
    → str_prefix line (codes "info ") ≡ some tail
    → is_bestmove line ≡ false
unfolding str_prefix
info-not_bestmove [] h = refl
info-not_bestmove (c ∷ line) h = ground arith

pub read_until-after :
    (last : Bytes → Bool) (name : Bytes) (lines : List Bytes) (s s' : Side) (rest : List Bytes)
    → read_until last name lines s ≡ some (rest, s')
    → (line : Bytes) × (after last lines ≡ some (line, rest)) × (s'.sent ≡ s.sent)
unfolding read_until
read_until-after last name [] s s' rest h = cc h
read_until-after last name (line ∷ lines) s s' rest h = elim (Bool-cases (last line)) [
  | inl e ↦ (line, ground arith, unfold engine_readln in ground arith)
  | inr e ↦
      let (l, p, q) =
        read_until-after last name lines (engine_readln name line s) s' rest
          (rw (e, read_until) at h) in
      (l, rw e p, unfold engine_readln in q)
]

-- What a line makes of the result and of the move that was found.
abbrev pub Heeds : Bytes → Answer → Answer → Type 0
Heeds line a a' =
    (a'.result ≡ (if is_bestmove line then true else a.result))
    × (a'.best ≡ (if is_bestmove line then move_in line else a.best))
    × (a'.side.sent ≡ a.side.sent)

-- The state of the loop over the lines, which no line `bestmove ...` ended so far, or one did.
abbrev pub Ends : List Bytes → Answer → List Bytes → Answer → Type 0
Ends lines a rest a' =
    (a'.side.sent ≡ a.side.sent)
    × (((a'.result ≡ true)
          × ((line : Bytes) × (after is_bestmove lines ≡ some (line, rest))
              × (a'.best ≡ move_in line)))
        ⊎ ((a'.result ≡ false)
            × (after is_bestmove lines ≡ after is_bestmove rest)
            × (a'.best ≡ a.best)
            × (is_neg a'.time_left ≡ true)))

-- What a call of `engine_bestmove` leaves: the lines after the first answer, the move of that answer
-- if it came in time, and else the move that was there, no time, and a request to stop.
abbrev pub Answered : List Bytes → Bytes → List Bytes → List Bytes → Answer → Type 0
Answered lines best sent rest a =
    (line : Bytes) × (after is_bestmove lines ≡ some (line, rest))
    × (a.best ≡ (if a.result then move_in line else best))
    × ((a.result || is_neg a.time_left) ≡ true)
    × (a.side.sent ≡ sent ++ (if a.result then [] else codes "stop" ∷ []))

-- The loop stops before an answer only if the time is up.
waits-is_neg : (a : Answer) → a.result ≡ false → waits a ≡ false → is_neg a.time_left ≡ true
unfolding waits
waits-is_neg a r h = ground arith

stopped :
    (lines : List Bytes) {rest : List Bytes} (a : Answer) {a' : Answer}
    → a.result ≡ false
    → waits a ≡ false
    → ◌≡◌ {A = Option (List Bytes × Answer)} (some (lines, a)) (some (rest, a'))
    → Ends lines a rest a'
stopped lines {rest} a {a'} r w h =
    let p : (lines, a) ≡ (rest, a') = cc in
    subst (λ (t : List Bytes × Answer). Ends lines a t.0 t.1) p
      (refl, inr (r, refl, refl, waits-is_neg a r w))

module _ (msec : ℕ → ℤ) (atoi : Bytes → ℤ) where
  pub answer_line-Heeds :
      (name : Bytes) (start time_limit : ℤ) (line : Bytes) (a a' : Answer)
      → answer_line msec atoi name start time_limit line a ≡ some a'
      → Heeds line a a'
  unfolding answer_line engine_readln
  answer_line-Heeds name start time_limit line a a' h =
      elim (Option-cases (str_prefix line (codes "info "))) [
        | inl e ↦ elim (Option-cases (str_prefix line (codes "bestmove "))) [
          | inl n ↦ ground arith
          | inr (tail, b) ↦ ground arith
        ]
        | inr (tail, e) ↦ ground (arith, info-not_bestmove line e)
      ]

  pub bestmove_loop-done :
      (name : Bytes) (start time_limit : ℤ) (lines : List Bytes) (a : Answer)
      → waits a ≡ false
      → bestmove_loop msec atoi name start time_limit lines a ≡ some (lines, a)
  unfolding bestmove_loop
  bestmove_loop-done name start time_limit [] a h = rw h refl
  bestmove_loop-done name start time_limit (line ∷ lines) a h = rw (h, bestmove_loop) refl

  next_line :
      (name : Bytes) (start time_limit : ℤ) (line : Bytes) (lines rest : List Bytes)
      (a a'' a' : Answer)
      → a.result ≡ false
      → Heeds line a a''
      → bestmove_loop msec atoi name start time_limit lines a'' ≡ some (rest, a')
      → (a''.result ≡ false → Ends lines a'' rest a')
      → Ends (line ∷ lines) a rest a'
  next_line name start time_limit line lines rest a a'' a' r (res, best, sent) h ih =
      elim (Bool-cases (is_bestmove line)) [
        | inl b ↦
            let w : waits a'' ≡ false = unfold waits in ground arith in
            let p : (lines, a'') ≡ (rest, a') =
              cc (bestmove_loop-done name start time_limit lines a'' w) in
            subst (λ (t : List Bytes × Answer). Ends (line ∷ lines) a t.0 t.1) p
              (sent, inl (ground arith, (line, rw b refl, ground arith)))
        | inr b ↦
            let (sent', ends) = ih (ground arith) in
            elim ends [
              | inl (res', (l, aft, best')) ↦ (sent' ∙ sent, inl (res', (l, rw b aft, best')))
              | inr (res', aft, best', neg) ↦
                  (sent' ∙ sent, inr (res', rw b aft, ground arith, neg))
            ]
      ]

  pub bestmove_loop-Ends :
      (name : Bytes) (start time_limit : ℤ) (lines rest : List Bytes) (a a' : Answer)
      → a.result ≡ false
      → bestmove_loop msec atoi name start time_limit lines a ≡ some (rest, a')
      → Ends lines a rest a'
  unfolding bestmove_loop
  bestmove_loop-Ends name start time_limit [] rest a a' r h = elim (Bool-cases (waits a)) [
    | inl w ↦ absurd (ground arith)
    | inr w ↦ stopped [] a r w (rw w at h)
  ]
  bestmove_loop-Ends name start time_limit (line ∷ lines) rest a a' r h =
      elim (Bool-cases (waits a)) [
        | inr w ↦ stopped (line ∷ lines) a r w (rw (w, bestmove_loop) at h)
        | inl w ↦ elim (Option-cases (answer_line msec atoi name start time_limit line a)) [
          | inl e ↦ absurd (ground arith)
          | inr (a'', e) ↦
              let h' : bestmove_loop msec atoi name start time_limit lines a'' ≡ some (rest, a') =
                rw (w, e, bestmove_loop) at h in
              next_line name start time_limit line lines rest a a'' a' r
                (answer_line-Heeds name start time_limit line a a'' e) h'
                (λ r'. bestmove_loop-Ends name start time_limit lines rest a'' a' r' h')
        ]
      ]

stop-Answered :
    (name : Bytes) (lines rest rest' : List Bytes) (a a' a'' : Answer)
    → Ends lines a rest a'
    → stop name rest a' ≡ some (rest', a'')
    → Answered lines a.best a.side.sent rest' a''
unfolding stop
stop-Answered name lines rest rest' a a' a'' (sent, inl (r, (line, aft, best))) h =
    let h' : ◌≡◌ {A = Option (List Bytes × Answer)} (some (rest, a')) (some (rest', a'')) =
      rw (r, stop) at h in
    let p : ◌≡◌ {A = List Bytes × Answer} (rest, a') (rest', a'') = cc in
    subst (λ (t : List Bytes × Answer). Answered lines a.best a.side.sent t.0 t.1) p
      (line, aft, rw r best, rw r refl, rw (r, append-nil) sent)
stop-Answered name lines rest rest' a a' a'' (sent, inr (r, aft, best, neg)) h =
    elim (Option-cases
      (read_until is_bestmove name rest (engine_writeln name (codes "stop") a'.side))) [
        | inl e ↦ absurd (ground arith)
        | inr ((rest'', s), e) ↦
            let h' : ◌≡◌ {A = Option (List Bytes × Answer)} (some (rest'', record a' { side = s }))
                (some (rest', a'')) =
              rw (r, e, stop) at h in
            let p : ◌≡◌ {A = List Bytes × Answer} (rest'', record a' { side = s }) (rest', a'') =
              cc in
            let (line, found, kept) =
              read_until-after is_bestmove name rest (engine_writeln name (codes "stop") a'.side) s
                rest'' e in
            subst (λ (t : List Bytes × Answer). Answered lines a.best a.side.sent t.0 t.1) p
              (
                line,
                aft ∙ found,
                rw r best,
                rw (r, neg) refl,
                rw r (kept ∙ unfold engine_writeln in (rw sent refl)),
              )
      ]

cleared :
    (msec : ℕ → ℤ) (lines : List Bytes) (best : Bytes) (sent rest rest' : List Bytes)
    (a a' : Answer)
    → Answered lines best sent rest a
    → ◌≡◌ {A = Option (List Bytes × Answer)}
        (some (rest, record a { side = clear_deadline msec a.side }))
        (some (rest', a'))
    → Answered lines best sent rest' a' × (a'.side.worker.deadline.set ≡ false)
cleared msec lines best sent rest rest' a a' answered h =
    let p : ◌≡◌ {A = List Bytes × Answer} (rest, record a { side = clear_deadline msec a.side })
        (rest', a') =
      cc in
    subst
      (λ (t : List Bytes × Answer).
        Answered lines best sent t.0 t.1 × (t.1.side.worker.deadline.set ≡ false))
      p (unfold clear_deadline deadline_clear in (answered, refl))

-- If `engine_bestmove` returns, the engine's lines were read up to the first answer and no further,
-- whether it came in time or after the request to stop. The result is false only if the time is up,
-- and then the move is the one from before and `stop` was sent; if it is true, the move is that of
-- the answer and nothing was sent but what `go` needed before. The deadline is cleared.
pub engine_bestmove-Answered :
    (msec : ℕ → ℤ) (atoi : Bytes → ℤ) (e : Engine) (time_left : ℤ) (best : Bytes) (info : Info)
    (lines rest : List Bytes) (s : Side) (a : Answer)
    → engine_bestmove msec atoi e time_left best info lines s ≡ some (rest, a)
    → Answered lines best s.sent rest a × (a.side.worker.deadline.set ≡ false)
unfolding engine_bestmove
engine_bestmove-Answered msec atoi e time_left best info lines rest s a h =
    let start = msec s.ticks in
    let a0 = ask msec e time_left best info s in
    elim (Option-cases (bestmove_loop msec atoi e.name start (start +ℤ time_left) lines a0)) [
      | inl n ↦ absurd (ground arith)
      | inr ((rest1, a1), l) ↦ elim (Option-cases (stop e.name rest1 a1)) [
        | inl n ↦ absurd (ground arith)
        | inr ((rest2, a2), t) ↦
            let ends =
              bestmove_loop-Ends msec atoi e.name start (start +ℤ time_left) lines rest1 a0 a1
                (unfold ask in refl) l in
            let answered = stop-Answered e.name lines rest1 rest2 a0 a1 a2 ends t in
            cleared msec lines best s.sent rest2 rest a2 a (unfold ask in answered)
              (rw (l, t, engine_bestmove) at h)
      ]
    ]
