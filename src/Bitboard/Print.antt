-- ===== src/Bitboard/Print.antt =====
-- `bb_print` of src/bitboard.c: a set of squares as text.
use c_chess_cli.Common.{ℕ, ◌*◌, List, [], ◌∷◌, ◌++◌, if◌then◌else◌, set, range, reverse, codes}
use c_chess_cli.Bitboard.Square.{square_from}
use c_chess_cli.Bitboard.Word.{bb_test}

abbrev pub empty_line : List ℕ
empty_line = codes ". . . . . . . ."

-- The loop over the files of a rank, which puts crosses into the line.
unfoldable pub put_crosses : ℕ → ℕ → List ℕ → List ℕ → List ℕ
unfolding bb_test square_from
put_crosses b rank [] line = line
put_crosses b rank (file ∷ files) line =
    put_crosses b rank files
      (if bb_test b (square_from rank file) then set line (2 * file) 88 else line)

-- The loop over the ranks; `puts` ends each line.
unfoldable pub print_ranks : ℕ → List ℕ → List ℕ
unfolding put_crosses
print_ranks b [] = []
print_ranks b (rank ∷ ranks) = put_crosses b rank (range 8) empty_line ++ 10 ∷ print_ranks b ranks

unfoldable pub bb_print : ℕ → List ℕ
unfolding print_ranks
bb_print b = print_ranks b (reverse (range 8)) ++ 10 ∷ []
