-- ===== src/Position/Board/Rules/Goes.antt =====
-- How the men go, in ranks and files; the lines of bishops, rooks and queens are those that the
-- tables of src/bitboard.c have for the occupied squares.
use c_chess_cli.Common.{
  ℕ, zero, suc, ◌+◌, ◌-◌, ◌<◌, ◌≡◌, ◌≢◌, refl, arith, Bool, true, not, ◌&&◌, ◌||◌, ◌==◌, leb,
  if◌then◌else◌, ◌⊎◌, none, holds_below, holds_below_sound,
}
use c_chess_cli.Common.Int.{pos, offset, double, ◌+ℤ◌}
use c_chess_cli.Bits.{test_bit}
use c_chess_cli.Bitboard.Square.{
  knight, bishop, rook, queen, king, pawn, opposite, rank_of, file_of, push_inc, relative_rank,
}
use c_chess_cli.Bitboard.Ranks.{IsAhead}
use c_chess_cli.Bitboard.Attacks.Leaper.{knight_attacks, king_attacks, pawn_attacks}
use c_chess_cli.Bitboard.Attacks.Slider.{minus1, bb_rook_attacks, bb_bishop_attacks}
use c_chess_cli.Position.Board.{Board, man}

abbrev pub gap : ℕ → ℕ → ℕ
gap a b = (a - b) + (b - a)

-- Two ranks and one file, or one rank and two files.
abbrev pub is_knight_step : ℕ → ℕ → Bool
is_knight_step s t =
    ((gap (rank_of s) (rank_of t) == 2) && (gap (file_of s) (file_of t) == 1))
    || ((gap (rank_of s) (rank_of t) == 1) && (gap (file_of s) (file_of t) == 2))

-- To a square beside its own.
abbrev pub is_king_step : ℕ → ℕ → Bool
is_king_step s t =
    (leb (gap (rank_of s) (rank_of t)) 1 && leb (gap (file_of s) (file_of t)) 1) && not (s == t)

abbrev pub is_pawn_capture : ℕ → ℕ → ℕ → Bool
is_pawn_capture us s t =
    (gap (file_of s) (file_of t) == 1)
    && (if us == 0 then rank_of t == rank_of s + 1 else rank_of t + 1 == rank_of s)

-- `occ` is the set of the occupied squares, and `ep` the en passant square.
pub data Goes (b : Board) (occ us ep from to : ℕ) : Type 0 where
  knight_step : b from ≡ man us knight → is_knight_step from to ≡ true → Goes b occ us ep from to
  bishop_line :
      (b from ≡ man us bishop) ⊎ (b from ≡ man us queen)
      → test_bit (bb_bishop_attacks from occ) to ≡ true
      → Goes b occ us ep from to
  rook_line :
      (b from ≡ man us rook) ⊎ (b from ≡ man us queen)
      → test_bit (bb_rook_attacks from occ) to ≡ true
      → Goes b occ us ep from to
  king_step : b from ≡ man us king → is_king_step from to ≡ true → Goes b occ us ep from to
  -- The move of the king goes onto the own rook.
  castling : b from ≡ man us king → b to ≡ man us rook → Goes b occ us ep from to
  pawn_push :
      b from ≡ man us pawn
      → b to ≡ none
      → file_of to ≡ file_of from
      → IsAhead us 1 from to ⊎ IsAhead us 2 from to
      → Goes b occ us ep from to
  pawn_capture :
      b from ≡ man us pawn
      → ((k : ℕ) × (b to ≡ man (opposite us) k)) ⊎ (to ≡ ep)
      → is_pawn_capture us from to ≡ true
      → Goes b occ us ep from to

knight_table :
    holds_below 64
      (λ s. holds_below 64 (λ t. not (test_bit (knight_attacks s) t) || is_knight_step s t))
    ≡ true
unfolding holds_below knight_attacks test_bit rank_of file_of
knight_table = refl

king_table :
    holds_below 64
      (λ s. holds_below 64 (λ t. not (test_bit (king_attacks s) t) || is_king_step s t))
    ≡ true
unfolding holds_below king_attacks test_bit rank_of file_of
king_table = refl

pawn_table :
    holds_below 2 (λ us.
      holds_below 64
        (λ s. holds_below 64 (λ t. not (test_bit (pawn_attacks us s) t) || is_pawn_capture us s t)))
    ≡ true
unfolding holds_below pawn_attacks test_bit rank_of file_of
pawn_table = refl

implied : (a c : Bool) → (not a || c) ≡ true → a ≡ true → c ≡ true
implied a c h k = ground arith

pub knight_attacks_lem :
    (s t : ℕ) → s < 64 → t < 64 → test_bit (knight_attacks s) t ≡ true → is_knight_step s t ≡ true
knight_attacks_lem s t hs ht =
    implied _ _ (holds_below_sound 64 _ t (holds_below_sound 64 _ s knight_table hs) ht)

pub king_attacks_lem :
    (s t : ℕ) → s < 64 → t < 64 → test_bit (king_attacks s) t ≡ true → is_king_step s t ≡ true
king_attacks_lem s t hs ht =
    implied _ _ (holds_below_sound 64 _ t (holds_below_sound 64 _ s king_table hs) ht)

pub pawn_attacks_lem :
    (us s t : ℕ)
    → us < 2
    → s < 64
    → t < 64
    → test_bit (pawn_attacks us s) t ≡ true
    → is_pawn_capture us s t ≡ true
pawn_attacks_lem us s t hu hs ht = implied _ _ (
    holds_below_sound 64 _ t (holds_below_sound 64 _ s (holds_below_sound 2 _ us pawn_table hu) hs)
      ht)

-- The offsets of the pawns.
pub left_capture :
    (us s : ℕ)
    → us < 2
    → file_of s ≢ 0
    → IsAhead us 1 s (offset s (push_inc us +ℤ minus1))
    → is_pawn_capture us s (offset s (push_inc us +ℤ minus1)) ≡ true
unfolding push_inc rank_of file_of
left_capture zero s hu f a = ground arith
left_capture (suc zero) s hu f a = ground arith
left_capture (suc (suc us)) s hu f a = absurd (omega arith)

pub right_capture :
    (us s : ℕ)
    → us < 2
    → file_of s ≢ 7
    → IsAhead us 1 s (offset s (push_inc us +ℤ pos 1))
    → is_pawn_capture us s (offset s (push_inc us +ℤ pos 1)) ≡ true
unfolding push_inc rank_of file_of
right_capture zero s hu f a = ground arith
right_capture (suc zero) s hu f a = ground arith
right_capture (suc (suc us)) s hu f a = absurd (omega arith)

pub push_file :
    (us s : ℕ)
    → us < 2
    → IsAhead us 1 s (offset s (push_inc us))
    → file_of (offset s (push_inc us)) ≡ file_of s
unfolding push_inc rank_of file_of
push_file zero s hu a = omega arith
push_file (suc zero) s hu a = omega arith
push_file (suc (suc us)) s hu a = absurd (omega arith)

pub double_file :
    (us s : ℕ)
    → us < 2
    → IsAhead us 2 s (offset s (double (push_inc us)))
    → file_of (offset s (double (push_inc us))) ≡ file_of s
unfolding push_inc rank_of file_of
double_file zero s hu a = omega arith
double_file (suc zero) s hu a = omega arith
double_file (suc (suc us)) s hu a = absurd (omega arith)

-- The captures onto a square are those from it, backwards.
pub capture_back :
    (us s t : ℕ) → us < 2 → is_pawn_capture (opposite us) t s ≡ true → is_pawn_capture us s t ≡ true
unfolding opposite
capture_back zero s t hu h = ground arith
capture_back (suc zero) s t hu h = ground arith
capture_back (suc (suc us)) s t hu h = absurd (omega arith)

-- The step of a pawn that promotes.
pub last_push :
    (us s : ℕ)
    → us < 2
    → rank_of s ≡ relative_rank us 6
    → rank_of (offset s (push_inc us)) ≡ relative_rank us 7
    → IsAhead us 1 s (offset s (push_inc us))
unfolding relative_rank
last_push zero s hu e e' = omega arith
last_push (suc zero) s hu e e' = omega arith
last_push (suc (suc us)) s hu e e' = absurd (omega arith)
