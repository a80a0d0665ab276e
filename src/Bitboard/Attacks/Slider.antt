-- ===== src/Bitboard/Attacks/Slider.antt =====
-- Attacks of the sliding pieces (src/bitboard.c): the walk from scratch, and the tables that
-- `bb_init` fills and `bb_bishop_attacks` and `bb_rook_attacks` read.
use c_chess_cli.Common.{
  ℕ, zero, suc, ◌+◌, ◌-◌, ◌*◌, ◌/◌, ◌%◌, ◌^◌, bit_and, bit_or, Bool, false, ◌&&◌, List, [], ◌∷◌,
  ◌==◌, ltb, if◌then◌else◌, update, get_or,
}
use c_chess_cli.Common.Int.{ℤ, pos, negsuc, pos_part, ◌+ℤ◌}
use c_chess_cli.Bitboard.Square.{square_from, rank_of, file_of}
use c_chess_cli.Bitboard.Word.{bb_test, bb_set, bb_not, bb_count}
use c_chess_cli.Bitboard.Attacks.Magic.{rook_magics, bishop_magics}

-- One step of a piece, in ranks and in files.
abbrev pub Dir : Type 0
Dir = ℤ × ℤ

abbrev pub minus1 : ℤ
minus1 = negsuc 0

-- `0 <= v && v < 8`
abbrev pub in_range : ℤ → Bool
in_range (pos n) = ltb n 8
in_range (negsuc n) = false

unfoldable pub rank_mask : ℕ → ℕ
rank_mask i = 0xff * 2 ^ (8 * i) % 2 ^ 64

unfoldable pub file_mask : ℕ → ℕ
file_mask i = 0x0101_0101_0101_0101 * 2 ^ i % 2 ^ 64

-- The inner loop of `slider_attacks`. A walk has at most 7 steps on the board, so 8 rounds end it.
unfoldable pub slide : ℕ → ℤ → ℤ → Dir → ℕ → ℕ → ℕ
unfolding square_from bb_set bb_test
slide zero rank file dir occ result = result
slide (suc fuel) rank file dir occ result =
    let sq = square_from (pos_part rank) (pos_part file) in
    let result' = bb_set result sq in
    let rest = slide fuel (rank +ℤ dir.0) (file +ℤ dir.1) dir occ result' in
    let go_on = if bb_test occ sq then result' else rest in
    if in_range rank && in_range file then go_on else result

unfoldable pub slider_dirs : ℕ → ℕ → List Dir → ℕ → ℕ
unfolding slide rank_of file_of
slider_dirs square occ [] result = result
slider_dirs square occ (d ∷ ds) result =
    slider_dirs square occ ds
      (slide 8 (pos (rank_of square) +ℤ d.0) (pos (file_of square) +ℤ d.1) d occ result)

unfoldable pub slider_attacks : ℕ → ℕ → List Dir → ℕ
unfolding slider_dirs
slider_attacks square occ dirs = slider_dirs square occ dirs 0

unfoldable pub slider_index : ℕ → ℕ → ℕ → ℕ → ℕ
slider_index occ mask magic shift = bit_and occ mask * magic % 2 ^ 64 / 2 ^ shift % 2 ^ 32

-- The static arrays of one kind of slider. `attacks square` is the offset into `db` at which the
-- pointer of the square points.
pub record Sliders : Type 0 where
  pub db : ℕ → ℕ
  pub attacks : ℕ → ℕ
  pub mask : ℕ → ℕ
  pub shift : ℕ → ℕ

-- `(occ - mask) & mask`, on uint64_t: the next subset of the mask.
unfoldable pub next_subset : ℕ → ℕ → ℕ
next_subset occ mask = bit_and ((occ + 2 ^ 64 - mask) % 2 ^ 64) mask

-- The loop over the subsets of the mask.
unfoldable pub fill : ℕ → ℕ → List Dir → ℕ → Sliders → ℕ → Sliders
unfolding slider_index slider_attacks next_subset
fill zero square dirs magic s occ = s
fill (suc fuel) square dirs magic s occ =
    let index = slider_index occ (s.mask square) magic (s.shift square) in
    let s' : Sliders = record s {
      db = update s.db (s.attacks square + index) (slider_attacks square occ dirs);
    } in
    let occ' = next_subset occ (s.mask square) in
    let rest = fill fuel square dirs magic s' occ' in if occ' == 0 then s' else rest

unfoldable pub edges : ℕ → ℕ
unfolding rank_mask file_mask bb_not rank_of file_of
edges square =
    bit_or (bit_and (bit_or (rank_mask 0) (rank_mask 7)) (bb_not (rank_mask (rank_of square))))
      (bit_and (bit_or (file_mask 0) (file_mask 7)) (bb_not (file_mask (file_of square))))

-- The mask of a square has `bb_count` squares, so 2 to that power rounds visit every subset.
unfoldable pub init_slider_attacks : List ℕ → List Dir → Sliders → ℕ → Sliders
unfolding edges slider_attacks bb_not bb_count fill
init_slider_attacks magics dirs s square =
    let mask = bit_and (slider_attacks square 0 dirs) (bb_not (edges square)) in
    let attacks =
      if ltb (square + 1) 64
      then update s.attacks (square + 1) (s.attacks square + 2 ^ bb_count mask)
      else s.attacks in
    let s' : Sliders = record s {
      attacks = attacks;
      mask = update s.mask square mask;
      shift = update s.shift square (64 - bb_count mask);
    } in
    fill (2 ^ bb_count mask) square dirs (get_or magics square 0) s' 0

-- The last loop of `bb_init`, over the squares below `n`, for one kind of slider.
unfoldable pub init_sliders : List ℕ → List Dir → ℕ → Sliders
unfolding init_slider_attacks
init_sliders magics dirs zero = record {
  db = λ _. 0;
  attacks = λ _. 0;
  mask = λ _. 0;
  shift = λ _. 0;
}
init_sliders magics dirs (suc n) = init_slider_attacks magics dirs (init_sliders magics dirs n) n

abbrev pub bishop_dirs : List Dir
bishop_dirs = (minus1, minus1) ∷ (minus1, pos 1) ∷ (pos 1, minus1) ∷ (pos 1, pos 1) ∷ []

abbrev pub rook_dirs : List Dir
rook_dirs = (minus1, pos 0) ∷ (pos 0, minus1) ∷ (pos 0, pos 1) ∷ (pos 1, pos 0) ∷ []

unfoldable pub sliders_lookup : List ℕ → Sliders → ℕ → ℕ → ℕ
unfolding slider_index
sliders_lookup magics s square occ =
    s.db (
      s.attacks square + slider_index occ (s.mask square) (get_or magics square 0) (s.shift square))

unfoldable pub bb_bishop_attacks : ℕ → ℕ → ℕ
unfolding init_sliders sliders_lookup
bb_bishop_attacks = sliders_lookup bishop_magics (init_sliders bishop_magics bishop_dirs 64)

unfoldable pub bb_rook_attacks : ℕ → ℕ → ℕ
unfolding init_sliders sliders_lookup
bb_rook_attacks = sliders_lookup rook_magics (init_sliders rook_magics rook_dirs 64)
