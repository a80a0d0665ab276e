-- ===== src/Tests/Texts.antt =====
-- The theorems on strings, texts of moves, and results at concrete inputs.
use c_chess_cli.Common.{
  ◌-◌, ◌≡◌, refl, arith, true, false, [], ◌∷◌, ◌==◌, leb, if◌then◌else◌, some, none,
}
use c_chess_cli.Common.Int.{pos, negsuc}
use c_chess_cli.Str.{
  str_tok, str_to_uintmax, str_to_uint8, str_to_uint16, do_fmt_u, str_init, str_clear,
  str_init_from, str_cpy, str_ncpy, str_ncat, str_push, str_cat_uint, str_cat_int, str_tok_esc,
  fmt_loop, to_uintmax, tok_esc, mem,
}
use c_chess_cli.Str.{Str}
use c_chess_cli.Str.Format.{
  Template, text, hole, int, string, args_of, print, str_cat_fmt, str_cpy_fmt, do_str_cat_fmt-print,
}
use c_chess_cli.Common.{codes, ◌++◌}
use c_chess_cli.Str.Digits.{str_to_uintmax-do_fmt_u}
use c_chess_cli.Str.Tokens.{str_tok-parts}
use c_chess_cli.Str.Growth.{HasRoom, str_ops-HasRoom}
use c_chess_cli.Game.{
  white_result, sample_result, engine_result, decode_result, white_won, black_won, drawn_game,
  result_win, result_loss,
}
use c_chess_cli.Game.Outcome.{decode_result-white_result}

number_run : do_fmt_u 2020 ≡ 50 ∷ 48 ∷ 50 ∷ 48 ∷ []
unfolding do_fmt_u fmt_loop
number_run = refl

-- A number of 20 digits that wraps around is not noticed as an overflow.
overflow_run :
    str_to_uintmax (
      51 ∷ 48 ∷ 48 ∷ 48 ∷ 48 ∷ 48 ∷ 48 ∷ 48 ∷ 48 ∷ 48 ∷ 48 ∷ 48 ∷ 48 ∷ 48 ∷ 48 ∷ 48 ∷ 48 ∷ 48 ∷ 48
      ∷ 48 ∷ [])
    ≡ some 11553255926290448384
unfolding str_to_uintmax to_uintmax
overflow_run = refl

-- "a\" with the escape character "\" runs past the end.
escape_run : str_tok_esc (some (97 ∷ 92 ∷ [])) [] 32 92 ≡ none
unfolding str_tok_esc tok_esc
escape_run = refl

str_to_uintmax-do_fmt_u_example :
    (str_to_uintmax (do_fmt_u 2020) ≡ some 2020)
    × (str_to_uint8 (do_fmt_u 2020) ≡ (if leb 2020 255 then some 2020 else none))
    × (str_to_uint16 (do_fmt_u 2020) ≡ (if leb 2020 65535 then some 2020 else none))
str_to_uintmax-do_fmt_u_example = str_to_uintmax-do_fmt_u 2020 (omega arith)

blanks : (mem 32 (32 ∷ []) ≡ true) × (mem 103 (32 ∷ []) ≡ false) × (mem 111 (32 ∷ []) ≡ false)
unfolding mem
blanks = (refl, refl, refl)

-- "  go on" at its blanks.
str_tok-parts_example :
    (str_tok (some (32 ∷ 32 ∷ 103 ∷ 111 ∷ 32 ∷ 111 ∷ 110 ∷ [])) [] (32 ∷ [])
      ≡ (some (32 ∷ 111 ∷ 110 ∷ []), 103 ∷ 111 ∷ []))
    × (str_tok (some (32 ∷ 32 ∷ [])) [] (32 ∷ []) ≡ (none, []))
str_tok-parts_example =
    str_tok-parts (32 ∷ []) (32 ∷ 32 ∷ []) 103 (111 ∷ []) (32 ∷ 111 ∷ 110 ∷ []) []
      (blanks.0, (blanks.0, tt)) (blanks.1, (blanks.2, tt)) blanks.0

str_ops-HasRoom_example :
    HasRoom str_init
    × HasRoom (str_clear (record { text = []; alloc = 16 }))
    × HasRoom (str_init_from (97 ∷ []))
    × HasRoom (str_cpy (record { text = []; alloc = 16 }) (97 ∷ []))
    × HasRoom (str_ncpy (record { text = []; alloc = 16 }) (97 ∷ []) 7)
    × HasRoom (str_ncat (record { text = []; alloc = 16 }) (97 ∷ []) 7)
    × HasRoom (str_push (record { text = []; alloc = 16 }) 98)
    × HasRoom (str_cat_uint (record { text = []; alloc = 16 }) 7)
    × HasRoom (str_cat_int (record { text = []; alloc = 16 }) (pos 7))
    × HasRoom (str_cat_int (record { text = []; alloc = 16 }) (negsuc 7))
str_ops-HasRoom_example = str_ops-HasRoom (record { text = []; alloc = 16 }) (97 ∷ []) 7 98

-- Black has been checkmated by the first engine.
decode_result-white_result_example :
    (decode_result 1 1 ≡ (
      if white_result 1 1 == result_win
      then white_won
      else if white_result 1 1 == result_loss
      then black_won
      else drawn_game))
    × (sample_result (white_result 1 1) 0 ≡ white_result 1 1)
    × (sample_result (white_result 1 1) (1 - 1) ≡ 2 - sample_result (white_result 1 1) 1)
    × (engine_result 1 1 ≡ (if 1 == 1 then white_result 1 1 else 2 - white_result 1 1))
decode_result-white_result_example =
    decode_result-white_result 1 1 1 (ground arith) (omega arith) (omega arith) (omega arith)

-- "%s: %i" with a name and a number.
abbrev score_line : Template
score_line = hole [] 115 (string (codes "fish")) (hole (codes ": ") 105 (int (negsuc 6)) (text []))

do_str_cat_fmt-print_example :
    ((d : Str) × (str_cat_fmt str_init (codes "%s: %i") (args_of score_line) ≡ some d)
      × (d.text ≡ str_init.text ++ print score_line))
    × ((d : Str) × (str_cpy_fmt str_init (codes "%s: %i") (args_of score_line) ≡ some d)
        × (d.text ≡ print score_line))
do_str_cat_fmt-print_example =
    do_str_cat_fmt-print str_init score_line (refl, refl, (refl, refl, refl))
