-- ===== src/Main/Fair.antt =====
-- With `-repeat`, each opening is played twice by the same engines, with the colors exchanged.
use c_chess_cli.Common.{
  ℕ, zero, suc, ◌+◌, ◌-◌, ◌*◌, ◌/◌, ◌%◌, ◌≡◌, ◌<◌, refl, sym, ap, subst, ◌∙◌, arith, Bool, true,
  false, List, [], ◌∷◌, ◌++◌, some, length, length-append, ltb, tab, row_div, row_mod, Bool-cases,
  ltb→lt, inl, inr,
}
use native.Mathlib.Nat.{div-add-mod, mod-lt}
use c_chess_cli.Jobs.{Job, job_queue_init, nth}
use c_chess_cli.Jobs.Rounds.{pair_at, job_of}
use c_chess_cli.Jobs.Schedule.{job_at, job_queue_init-jobs}
use c_chess_cli.Main.{opening_idx, white_idx}

length-tab {ℓ} : {A : Type ℓ} (f : ℕ → A) (n : ℕ) → length (tab f n) ≡ n
length-tab f zero = refl
length-tab f (suc n) = length-append (tab f n) (f n ∷ []) ∙ omega (arith, length-tab f n)

module _ {ℓ} {A : Type ℓ} where
  nth-lt-length : (xs : List A) (i : ℕ) (x : A) → nth xs i ≡ some x → i < length xs
  nth-lt-length [] i x h = absurd (ground arith)
  nth-lt-length (y ∷ xs) zero x h = omega arith
  nth-lt-length (y ∷ xs) (suc i) x h = omega (arith, nth-lt-length xs i x h)

  nth-append_left : (xs ys : List A) (i : ℕ) → i < length xs → nth (xs ++ ys) i ≡ nth xs i
  nth-append_left [] ys i h = absurd (omega arith)
  nth-append_left (x ∷ xs) ys zero h = refl
  nth-append_left (x ∷ xs) ys (suc i) h = nth-append_left xs ys i (omega arith)

  nth-append_right : (xs : List A) (y : A) → nth (xs ++ y ∷ []) (length xs) ≡ some y
  nth-append_right [] y = refl
  nth-append_right (x ∷ xs) y = nth-append_right xs y

  nth-tab : (f : ℕ → A) (n i : ℕ) → i < n → nth (tab f n) i ≡ some (f i)
  nth-tab f zero i h = absurd (omega arith)
  nth-tab f (suc n) i h = elim (Bool-cases (ltb i n)) [
    | inl l' ↦
        let l : i < n = ltb→lt i n l' in
        nth-append_left (tab f n) (f n ∷ []) i (omega (arith, length-tab f n)) ∙ nth-tab f n i l
    | inr e' ↦
        let e : i ≡ n = ground arith in
        subst (λ (k : ℕ). nth (tab f (suc n)) k ≡ some (f k)) (sym e)
          (subst (λ (k : ℕ). nth (tab f (suc n)) k ≡ some (f n)) (length-tab f n)
            (nth-append_right (tab f n) (f n)))
  ]

-- Numbers 2 k and 2 k + 1 stand in one row of an even width.
twice_rows :
    (k h : ℕ)
    → 0 < h
    → ((2 * k) / (2 * h) ≡ k / h)
      × ((2 * k + 1) / (2 * h) ≡ k / h)
      × ((2 * k) % (2 * h) ≡ 2 * (k % h))
      × ((2 * k + 1) % (2 * h) ≡ 2 * (k % h) + 1)
twice_rows k h p =
    let q = k / h in
    let r = k % h in
    let below : r < h = mod-lt k p in
    let e : 2 * k ≡ q * (2 * h) + 2 * r = grind (arith, div-add-mod k h) in
    let e' : 2 * k + 1 ≡ q * (2 * h) + (2 * r + 1) = omega (arith, e) in
    (
      rw e (row_div q (2 * r) (2 * h) (omega arith)),
      rw e' (row_div q (2 * r + 1) (2 * h) (omega arith)),
      rw e (row_mod q (2 * r) (2 * h) (omega arith)),
      rw e' (row_mod q (2 * r + 1) (2 * h) (omega arith)),
    )

-- Games 2 k and 2 k + 1 of a round with an even number of games for each pair.
job_of-twice :
    (h r k : ℕ) (engines : ℕ → ℕ × ℕ)
    → 0 < h
    → ((job_of (2 * h) r engines (2 * k)).ei ≡ engines (k / h))
      × ((job_of (2 * h) r engines (2 * k + 1)).ei ≡ engines (k / h))
      × ((job_of (2 * h) r engines (2 * k)).reverse ≡ false)
      × ((job_of (2 * h) r engines (2 * k + 1)).reverse ≡ true)
unfolding job_of
job_of-twice h r k engines p =
    let (a, b, d, e) = twice_rows k h p in
    (
      ap engines a,
      ap engines b,
      rw d (let z : 2 * (k % h) % 2 ≡ 0 = omega arith in rw z refl),
      rw e (let z : (2 * (k % h) + 1) % 2 ≡ 1 = omega arith in rw z refl),
    )

job_at-twice :
    (h w k : ℕ) (engines : ℕ → ℕ × ℕ)
    → 0 < h
    → 0 < w
    → ((job_at (2 * h) (2 * w) engines (2 * k)).ei
        ≡ (job_at (2 * h) (2 * w) engines (2 * k + 1)).ei)
      × ((job_at (2 * h) (2 * w) engines (2 * k)).reverse ≡ false)
      × ((job_at (2 * h) (2 * w) engines (2 * k + 1)).reverse ≡ true)
unfolding job_at
job_at-twice h w k engines p q =
    let (a, b, d, e) = twice_rows k w q in
    rw (d, e) (let (x, y, z, u) = job_of-twice h (k / w) (k % w) engines p in (x ∙ sym y, z, u))

white_idx-reverse : (color : ℕ) → color < 2 → white_idx color true ≡ 1 - white_idx color false
unfolding white_idx
white_idx-reverse zero h = refl
white_idx-reverse (suc zero) h = refl
white_idx-reverse (suc (suc color)) h = absurd (omega arith)

positive : {n : ℕ} (r w : ℕ) → n < r * (2 * w) → 0 < w
positive r zero h = absurd (grind arith)
positive r (suc w) h = omega arith

right_positive : (a b : ℕ) → 0 < a * b → 0 < b
right_positive a zero h = absurd (grind arith)
right_positive a (suc b) h = omega arith

-- With `-repeat` and an even number of games for each pair, the games 2 k and 2 k + 1 of a tournament
-- are between the same two engines and from the same opening, and the one that plays white in the
-- first of them plays black in the second.
pub job_queue_init-repeat :
    (engines rounds h k color : ℕ) (gauntlet : Bool) (first second : Job)
    → color < 2
    → nth (job_queue_init engines rounds (2 * h) gauntlet).jobs (2 * k) ≡ some first
    → nth (job_queue_init engines rounds (2 * h) gauntlet).jobs (2 * k + 1) ≡ some second
    → (first.ei ≡ second.ei)
      × (opening_idx true (2 * k) ≡ opening_idx true (2 * k + 1))
      × (white_idx color second.reverse ≡ 1 - white_idx color first.reverse)
job_queue_init-repeat engines rounds h k color gauntlet first second l p q =
    let jq = job_queue_init engines rounds (2 * h) gauntlet in
    let pairs = length jq.results in
    let w = pairs * h in
    let f = job_at (2 * h) (2 * w) (pair_at jq.results) in
    let size : pairs * (2 * h) ≡ 2 * w = grind arith in
    let closed : jq.jobs ≡ tab f (rounds * (2 * w)) =
      subst (λ (s : ℕ). jq.jobs ≡ tab (job_at (2 * h) s (pair_at jq.results)) (rounds * s)) size
        (job_queue_init-jobs engines rounds (2 * h) gauntlet) in
    let p' : nth (tab f (rounds * (2 * w))) (2 * k) ≡ some first =
      subst (λ (js : List Job). nth js (2 * k) ≡ some first) closed p in
    let q' : nth (tab f (rounds * (2 * w))) (2 * k + 1) ≡ some second =
      subst (λ (js : List Job). nth js (2 * k + 1) ≡ some second) closed q in
    let b' : 2 * k + 1 < rounds * (2 * w) = omega (
      arith,
      nth-lt-length (tab f (rounds * (2 * w))) (2 * k + 1) second q',
      length-tab f (rounds * (2 * w)),
    ) in
    let first' : f (2 * k) ≡ first = cc (nth-tab f (rounds * (2 * w)) (2 * k) (omega arith), p') in
    let second' : f (2 * k + 1) ≡ second = cc (nth-tab f (rounds * (2 * w)) (2 * k + 1) b', q') in
    let w_pos : 0 < w = positive rounds w b' in
    let (x, y, z) = job_at-twice h w k (pair_at jq.results) (right_positive pairs h w_pos) w_pos in
    let y' : first.reverse ≡ false = cc in
    let z' : second.reverse ≡ true = cc in
    (
      cc,
      unfold opening_idx in omega arith,
      subst (λ (u : Bool). white_idx color u ≡ 1 - white_idx color first.reverse) (sym z')
          (subst (λ (u : Bool). white_idx color true ≡ 1 - white_idx color u) (sym y')
            (white_idx-reverse color l)),
    )
