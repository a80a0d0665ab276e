-- ===== src/Bitboard/Ranks.antt =====
-- The masks of ranks and files, and the pawn's steps, seen as ranks and files.
use c_chess_cli.Common.{
  ℕ, zero, suc, ◌+◌, ◌^◌, ◌<◌, ◌≡◌, ◌≢◌, refl, sym, ap, subst, ◌∙◌, arith, Bool, true, false, ◌⊎◌,
  inl, inr, ◌==◌, bit_and, holds_below, holds_below_sound,
}
use c_chess_cli.Common.Int.{pos, ◌+ℤ◌, neg, double, offset, is_offset}
use c_chess_cli.Bits.{test_bit}
use c_chess_cli.Bitboard.Square.{
  opposite, push_inc, square_from, rank_of, file_of, relative_rank, branchless_color,
  square_from-rank_of-file_of,
}
use c_chess_cli.Bitboard.Word.{bb_not, bb_shift}
use c_chess_cli.Bitboard.Word.Members.{IsIn, subset, shift_up-IsIn, shift_down-IsIn}
use c_chess_cli.Bitboard.Attacks.Slider.{rank_mask, file_mask, minus1}
use c_chess_cli.Bitboard.Attacks.Leaper.{pawn_attacks}

same : Bool → Bool → Bool
same true b = b
same false true = false
same false false = true

same-eq : (a b : Bool) → same a b ≡ true → a ≡ b
unfolding same
same-eq true true h = refl
same-eq true false h = cc
same-eq false true h = cc
same-eq false false h = refl

rank_table :
    holds_below 8 (λ r. holds_below 64 (λ s. same (test_bit (rank_mask r) s) (rank_of s == r)))
    ≡ true
unfolding holds_below same test_bit rank_mask rank_of
rank_table = refl

file_table :
    holds_below 8 (λ r. holds_below 64 (λ s. same (test_bit (file_mask r) s) (file_of s == r)))
    ≡ true
unfolding holds_below same test_bit file_mask file_of
file_table = refl

pub test_bit-rank_mask : (r s : ℕ) → r < 8 → s < 64 → test_bit (rank_mask r) s ≡ (rank_of s == r)
test_bit-rank_mask r s hr hs =
    same-eq _ _ (holds_below_sound 64 _ s (holds_below_sound 8 _ r rank_table hr) hs)

pub test_bit-file_mask : (r s : ℕ) → r < 8 → s < 64 → test_bit (file_mask r) s ≡ (file_of s == r)
test_bit-file_mask r s hr hs =
    same-eq _ _ (holds_below_sound 64 _ s (holds_below_sound 8 _ r file_table hr) hs)

-- `t` is `n` ranks ahead of `s`.
abbrev pub IsAhead : ℕ → ℕ → ℕ → ℕ → Type 0
IsAhead zero n s t = rank_of t ≡ rank_of s + n
IsAhead (suc us) n s t = rank_of t + n ≡ rank_of s

IsIn-at : (b s t : ℕ) → s ≡ t → IsIn b s → IsIn b t
IsIn-at b s t e h = subst (IsIn b) e h

-- The steps of a pawn, read back from the shifted set of targets.
pub left_step :
    (us targets s : ℕ)
    → us < 2
    → targets < 2 ^ 64
    → s < 64
    → file_of s ≢ 0
    → test_bit (bb_shift targets (neg (push_inc us +ℤ minus1))) s ≡ true
    → IsIn targets (offset s (push_inc us +ℤ minus1))
      × IsAhead us 1 s (offset s (push_inc us +ℤ minus1))
unfolding push_inc rank_of file_of
left_step zero targets s hu hc hs f t =
    (IsIn-at targets _ _ (omega arith) (shift_down-IsIn targets 6 s hc t), omega arith)
left_step (suc zero) targets s hu hc hs f t =
    let (x, y, z) = shift_up-IsIn targets 9 s hc t in
    (IsIn-at targets _ _ (omega arith) x, omega arith)
left_step (suc (suc us)) targets s hu hc hs f t = absurd (omega arith)

pub right_step :
    (us targets s : ℕ)
    → us < 2
    → targets < 2 ^ 64
    → s < 64
    → file_of s ≢ 7
    → test_bit (bb_shift targets (neg (push_inc us +ℤ pos 1))) s ≡ true
    → IsIn targets (offset s (push_inc us +ℤ pos 1))
      × IsAhead us 1 s (offset s (push_inc us +ℤ pos 1))
unfolding push_inc rank_of file_of
right_step zero targets s hu hc hs f t =
    (IsIn-at targets _ _ (omega arith) (shift_down-IsIn targets 8 s hc t), omega arith)
right_step (suc zero) targets s hu hc hs f t =
    let (x, y, z) = shift_up-IsIn targets 7 s hc t in
    (IsIn-at targets _ _ (omega arith) x, omega arith)
right_step (suc (suc us)) targets s hu hc hs f t = absurd (omega arith)

pub push_step :
    (us targets s : ℕ)
    → us < 2
    → targets < 2 ^ 64
    → s < 64
    → test_bit (bb_shift targets (neg (push_inc us))) s ≡ true
    → IsIn targets (offset s (push_inc us))
      × IsAhead us 1 s (offset s (push_inc us))
      × (offset (offset s (push_inc us)) (neg (push_inc us)) ≡ s)
unfolding push_inc rank_of
push_step zero targets s hu hc hs t =
    (IsIn-at targets _ _ (omega arith) (shift_down-IsIn targets 7 s hc t), omega arith, omega arith)
push_step (suc zero) targets s hu hc hs t =
    let (x, y, z) = shift_up-IsIn targets 8 s hc t in
    (IsIn-at targets _ _ (omega arith) x, omega arith, omega arith)
push_step (suc (suc us)) targets s hu hc hs t = absurd (omega arith)

pub double_step :
    (us targets s : ℕ)
    → us < 2
    → targets < 2 ^ 64
    → s < 64
    → test_bit (bb_shift targets (neg (double (push_inc us)))) s ≡ true
    → IsIn targets (offset s (double (push_inc us)))
      × IsAhead us 2 s (offset s (double (push_inc us)))
unfolding push_inc rank_of
double_step zero targets s hu hc hs t =
    (IsIn-at targets _ _ (omega arith) (shift_down-IsIn targets 15 s hc t), omega arith)
double_step (suc zero) targets s hu hc hs t =
    let (x, y, z) = shift_up-IsIn targets 16 s hc t in
    (IsIn-at targets _ _ (omega arith) x, omega arith)
double_step (suc (suc us)) targets s hu hc hs t = absurd (omega arith)

pub relative_rank-lt : (us r : ℕ) → us < 2 → r < 8 → relative_rank us r < 8
relative_rank-lt us r hu hr = ground (arith, branchless_color us r)

-- From where a pawn can stand without promoting, a step does not reach the last rank.
pub IsAhead-inside :
    (us s t : ℕ)
    → us < 2
    → s < 64
    → rank_of s ≢ 0
    → rank_of s ≢ 7
    → rank_of s ≢ relative_rank us 6
    → IsAhead us 1 s t
    → (rank_of t ≢ 7) × (rank_of t ≢ 0)
unfolding relative_rank rank_of
IsAhead-inside zero s t hu hs h0 h7 h6 a = ground arith
IsAhead-inside (suc zero) s t hu hs h0 h7 h6 a = ground arith
IsAhead-inside (suc (suc us)) s t hu hs h0 h7 h6 a = absurd (omega arith)

-- A double push lands on the fourth rank, as its side counts.
pub IsAhead-fourth :
    (us s t : ℕ)
    → us < 2
    → rank_of s ≡ relative_rank us 1
    → IsAhead us 2 s t
    → (rank_of t ≢ 7) × (rank_of t ≢ 0) × (rank_of t ≢ relative_rank us 5)
unfolding relative_rank
IsAhead-fourth zero s t hu e a = ground arith
IsAhead-fourth (suc zero) s t hu e a = ground arith
IsAhead-fourth (suc (suc us)) s t hu e a = absurd (omega arith)

-- A pawn that stands before its last rank reaches it by a capture and by a push.
last_table :
    holds_below 2 (λ us. holds_below 8 (λ f.
      bit_and
        (pawn_attacks us (square_from (relative_rank us 6) f))
        (bb_not (rank_mask (relative_rank us 7)))
      == 0))
    ≡ true
unfolding holds_below pawn_attacks square_from relative_rank bb_not rank_mask
last_table = refl

pub pawn_attacks-last :
    (us s t : ℕ)
    → us < 2
    → s < 64
    → t < 64
    → rank_of s ≡ relative_rank us 6
    → test_bit (pawn_attacks us s) t ≡ true
    → rank_of t ≡ relative_rank us 7
pawn_attacks-last us s t hu hs ht e h =
    let (a, b, c, d, fs, s') = square_from-rank_of-file_of 0 0 s (omega arith) (omega arith) hs in
    let from : square_from (relative_rank us 6) (file_of s) ≡ s =
      ap (λ (r : ℕ). square_from r (file_of s)) (sym e) ∙ s' in
    let cell = holds_below_sound 8 _ (file_of s) (holds_below_sound 2 _ us last_table hu) fs in
    let h' = ap (λ (u : ℕ). test_bit (pawn_attacks us u) t) from ∙ h in
    let last = subset _ (rank_mask (relative_rank us 7)) t cell ht h' in
    ground
      (arith, test_bit-rank_mask (relative_rank us 7) t (relative_rank-lt us 7 hu (omega arith)) ht)

pub push-last :
    (us s : ℕ)
    → us < 2
    → s < 64
    → rank_of s ≡ relative_rank us 6
    → (rank_of (offset s (push_inc us)) ≡ relative_rank us 7) × (offset s (push_inc us) < 64)
unfolding push_inc relative_rank rank_of
push-last zero s hu hs e = (omega arith, omega arith)
push-last (suc zero) s hu hs e = (omega arith, omega arith)
push-last (suc (suc us)) s hu hs e = absurd (omega arith)

pub relative_rank_ends :
    (us : ℕ)
    → us < 2
    → ((relative_rank us 7 ≡ 7) ⊎ (relative_rank us 7 ≡ 0))
      × (relative_rank us 7 ≢ relative_rank us 5)
unfolding relative_rank
relative_rank_ends zero h = (inl refl, ground arith)
relative_rank_ends (suc zero) h = (inr refl, ground arith)
relative_rank_ends (suc (suc us)) h = absurd (omega arith)

-- Two pushes are two ranks.
pub offset_ranks :
    (us s t : ℕ) → us < 2 → is_offset t s (double (push_inc us)) ≡ true → IsAhead us 2 s t
unfolding push_inc rank_of
offset_ranks zero s t hu h = ground arith
offset_ranks (suc zero) s t hu h = ground arith
offset_ranks (suc (suc us)) s t hu h = absurd (omega arith)

pub IsAhead-single :
    (us s t : ℕ) → us < 2 → IsAhead us 1 s t → is_offset t s (double (push_inc us)) ≢ true
IsAhead-single zero s t hu a h = omega (arith, a, offset_ranks zero s t hu h)
IsAhead-single (suc zero) s t hu a h = omega (arith, a, offset_ranks 1 s t hu h)
IsAhead-single (suc (suc us)) s t hu a h = absurd (omega arith)

pub last_near :
    (us s t : ℕ)
    → us < 2
    → rank_of s ≡ relative_rank us 6
    → rank_of t ≡ relative_rank us 7
    → ¬ (IsAhead us 2 s t)
unfolding relative_rank
last_near zero s t hu e e' a = omega arith
last_near (suc zero) s t hu e e' a = omega arith
last_near (suc (suc us)) s t hu e e' a = absurd (omega arith)

-- The pawns that can capture en passant stand on the fifth rank.
fifth_table :
    holds_below 2 (λ us. holds_below 8 (λ f.
      bit_and
        (pawn_attacks (opposite us) (square_from (relative_rank us 5) f))
        (bb_not (rank_mask (relative_rank us 4)))
      == 0))
    ≡ true
unfolding holds_below pawn_attacks square_from relative_rank bb_not rank_mask opposite
fifth_table = refl

fifth_near :
    (us s t : ℕ)
    → us < 2
    → rank_of s ≡ relative_rank us 4
    → rank_of t ≡ relative_rank us 5
    → ¬ (IsAhead us 2 s t)
unfolding relative_rank
fifth_near zero s t hu e e' a = omega arith
fifth_near (suc zero) s t hu e e' a = omega arith
fifth_near (suc (suc us)) s t hu e e' a = absurd (omega arith)

pub takers_near :
    (us ep s : ℕ)
    → us < 2
    → ep < 64
    → s < 64
    → rank_of ep ≡ relative_rank us 5
    → test_bit (pawn_attacks (opposite us) ep) s ≡ true
    → ¬ (IsAhead us 2 s ep)
takers_near us ep s hu he hs e h =
    let (a, b, c, d, fs, ep') = square_from-rank_of-file_of 0 0 ep (omega arith) (omega arith) he in
    let at : square_from (relative_rank us 5) (file_of ep) ≡ ep =
      ap (λ (r : ℕ). square_from r (file_of ep)) (sym e) ∙ ep' in
    let cell = holds_below_sound 8 _ (file_of ep) (holds_below_sound 2 _ us fifth_table hu) fs in
    let h' = ap (λ (u : ℕ). test_bit (pawn_attacks (opposite us) u) s) at ∙ h in
    let fifth = subset _ (rank_mask (relative_rank us 4)) s cell hs h' in
    let on_fifth : rank_of s ≡ relative_rank us 4 = ground (
      arith,
      test_bit-rank_mask (relative_rank us 4) s (relative_rank-lt us 4 hu (omega arith)) hs,
    ) in
    fifth_near us s ep hu on_fifth e

-- The square that a pawn passes in a double push.
pub double_lem :
    (us from to : ℕ)
    → us < 2
    → rank_of from ≡ relative_rank us 1
    → is_offset to from (double (push_inc us)) ≡ true
    → (offset from (push_inc us) < 64)
      × (rank_of (offset from (push_inc us)) ≡ relative_rank (opposite us) 5)
      × (offset (offset from (push_inc us)) (neg (push_inc (opposite us))) ≡ to)
      × (offset from (push_inc us) ≢ from)
      × (offset from (push_inc us) ≢ to)
      × (rank_of to ≢ 7)
      × (rank_of to ≢ 0)
unfolding push_inc relative_rank rank_of opposite
double_lem zero from to hu e h = ground arith
double_lem (suc zero) from to hu e h = ground arith
double_lem (suc (suc us)) from to hu e h = absurd (omega arith)

pub fifth_inside :
    (us s : ℕ) → us < 2 → rank_of s ≡ relative_rank us 5 → (rank_of s ≢ 0) × (rank_of s ≢ 7)
unfolding relative_rank
fifth_inside zero s hu e = ground arith
fifth_inside (suc zero) s hu e = ground arith
fifth_inside (suc (suc us)) s hu e = absurd (omega arith)
