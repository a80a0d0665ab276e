-- ===== src/Openings.antt =====
-- src/openings.c: the openings of a tournament. The file is the list of its bytes, and a tournament
-- without a file has the start position. A line is found by the offset of its first byte.
pub mod Shuffle
use c_chess_cli.Common.{
  ℕ, zero, suc, ◌+◌, ◌-◌, ◌%◌, List, [], ◌∷◌, ◌==◌, if◌then◌else◌, Option, none, some, length,
  get_or, set, drop, Bool, codes,
}
use c_chess_cli.Util.{prng}
use c_chess_cli.Str.{Bytes, str_getline, str_tok}

-- The offsets of the lines, from the byte at `at` on. Each line takes a byte, so that the length of
-- the file is enough fuel.
unfoldable pub line_offsets : ℕ → ℕ → Bytes → List ℕ
line_offsets zero at file = []
line_offsets (suc fuel) at file =
    let (line, (n, tail)) = str_getline file in
    let rest = line_offsets fuel (at + (length file - length tail)) tail in
    if n == 0 then [] else at ∷ rest

-- `swap(o.vecIndex[i], o.vecIndex[j])`
unfoldable pub swap : List ℕ → ℕ → ℕ → List ℕ
swap xs i j = set (set xs i (get_or xs j 0)) j (get_or xs i 0)

-- The loop that shuffles the first `i + 1` entries.
unfoldable pub shuffle : ℕ → List ℕ → ℕ → List ℕ
unfolding swap prng
shuffle zero xs seed = xs
shuffle (suc i) xs seed =
    let (r, seed') = prng seed in shuffle i (swap xs (suc i) (r % (suc i + 1))) seed'

-- `vecIndex`, for a file with at least one line: without a line, `n - 1` wraps around in the code, and
-- its loop leaves the vector. `seed` is `srand`, or the clock if that is 0.
unfoldable pub openings_init : Bytes → Bool → ℕ → List ℕ
unfolding line_offsets shuffle
openings_init file random seed =
    let index = line_offsets (length file) 0 file in
    if random then shuffle (length index - 1) index seed else index

-- The text of the opening number `idx`, from a file that has one.
unfoldable pub read_opening : Bytes → List ℕ → ℕ → Bytes
unfolding str_getline str_tok
read_opening file index idx =
    let line = (str_getline (drop (get_or index (idx % length index) 0) file)).0 in
    (str_tok (some line) [] (59 ∷ [])).1

abbrev pub start_fen : Bytes
start_fen = codes "rnbqkbnr/pppppppp/8/8/8/8/PPPPPPPP/RNBQKBNR w KQkq - 0 1"

-- The file with its index, or none if the tournament has no file.
unfoldable pub openings_next : Option (Bytes × List ℕ) → ℕ → Bytes
unfolding read_opening
openings_next none idx = start_fen
openings_next (some (file, index)) idx = read_opening file index idx
