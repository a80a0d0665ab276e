-- ===== src/Engine/Command/Words.antt =====
-- A command of plain words.
use c_chess_cli.Common.{
  ℕ, zero, suc, ◌+◌, ◌≤◌, ◌<◌, ◌≡◌, ◌≢◌, refl, arith, Bool, true, false, List, [], ◌∷◌, ◌++◌,
  append-nil, append_assoc, none, some, length, length-append, ==_ne,
}
use c_chess_cli.Str.{Bytes, tok_esc, str_tok_esc}
use c_chess_cli.Engine.Command.{cur_dir, last_slash, split_path, parse_args, engine_parse_cmd}

-- A word has neither spaces nor escape characters, and a byte at least.
abbrev pub Plain : Bytes → Type 0
Plain [] = Unit
Plain (c ∷ w) = (c ≢ 32) × (c ≢ 92) × Plain w

abbrev pub Words : List Bytes → Type 0
Words [] = Unit
Words (w ∷ ws) = (w ≢ []) × Plain w × Words ws

-- The words, each with a space before it; and with a space between two of them.
abbrev pub spaced : List Bytes → Bytes
spaced [] = []
spaced (w ∷ ws) = 32 ∷ (w ++ spaced ws)

abbrev pub unwords : List Bytes → Bytes
unwords [] = []
unwords (w ∷ ws) = w ++ spaced ws

-- A byte of a word is put to the token.
tok_esc-plain :
    (c : ℕ) (s : Bytes) (acc : Bool) (token : Bytes)
    → c ≢ 32
    → c ≢ 92
    → tok_esc (c ∷ s) acc token 32 92 ≡ tok_esc s true (token ++ c ∷ []) 32 92
unfolding tok_esc
tok_esc-plain c [] acc token p q = rw (==_ne c 92 q, ==_ne c 32 p) refl
tok_esc-plain c (d ∷ s) true token p q = rw (==_ne c 92 q, ==_ne c 32 p) refl
tok_esc-plain c (d ∷ s) false token p q = rw (==_ne c 92 q, ==_ne c 32 p) refl

-- The rest of a word that has begun.
tok_esc-rest :
    (w : Bytes) (ws : List Bytes) (token : Bytes)
    → Plain w
    → tok_esc (w ++ spaced ws) true token 32 92 ≡ some (token ++ w, unwords ws)
tok_esc-rest [] [] token p = unfold tok_esc in rw (append-nil) refl
tok_esc-rest [] ([] ∷ []) token p = unfold tok_esc in rw (append-nil) refl
tok_esc-rest [] ([] ∷ (w ∷ ws)) token p = unfold tok_esc in rw (append-nil) refl
tok_esc-rest [] ((c ∷ v) ∷ ws) token p = unfold tok_esc in rw (append-nil) refl
tok_esc-rest (c ∷ w) ws token (p, q, r) =
    rw
      (
        tok_esc-plain c (w ++ spaced ws) true token p q,
        tok_esc-rest w ws (token ++ c ∷ []) r,
        append_assoc,
      )
      refl

str_tok_esc-word :
    (w : Bytes) (ws : List Bytes)
    → w ≢ []
    → Plain w
    → str_tok_esc (some (unwords (w ∷ ws))) [] 32 92 ≡ some (some (unwords ws), w)
unfolding str_tok_esc tok_esc
str_tok_esc-word [] ws n p = absurd (n refl)
str_tok_esc-word (c ∷ w) ws n (p, q, r) =
    rw (tok_esc-plain c (w ++ spaced ws) false [] p q, tok_esc-rest w ws (c ∷ []) r) refl

-- A turn for each word, and one that finds no other.
parse_args-Words :
    (fuel : ℕ) (ws args : List Bytes)
    → Words ws
    → length ws < fuel
    → parse_args fuel (unwords ws) args ≡ some (args ++ ws)
unfolding parse_args
parse_args-Words zero ws args h l = absurd (omega arith)
parse_args-Words (suc fuel) [] args h l = unfold str_tok_esc tok_esc in (rw (append-nil) refl)
parse_args-Words (suc fuel) (w ∷ ws) args (n, p, h) l =
    rw
      (
        str_tok_esc-word w ws n p,
        parse_args,
        parse_args-Words fuel ws (args ++ w ∷ []) h (omega arith),
        append_assoc,
      )
      refl

length-spaced : (ws : List Bytes) → length ws ≤ length (spaced ws)
length-spaced [] = omega arith
length-spaced (w ∷ ws) = omega (arith, length-append w (spaced ws), length-spaced ws)

split_cmd :
    (w : Bytes) (ws : List Bytes)
    → Words (w ∷ ws)
    → engine_parse_cmd (unwords (w ∷ ws))
      ≡ some
          (record { cwd = (split_path w).0; run = (split_path w).1; args = (split_path w).1 ∷ ws })
unfolding engine_parse_cmd
split_cmd w ws (n, p, h) =
    rw
      (
        str_tok_esc-word w ws n p,
        engine_parse_cmd,
        parse_args-Words (length (unwords (w ∷ ws)) + 1) ws ((split_path w).1 ∷ []) h
            (omega (arith, length-append w (spaced ws), length-spaced ws)),
      )
      refl

abbrev pub NoSlash : Bytes → Type 0
NoSlash [] = Unit
NoSlash (c ∷ s) = (c ≢ 47) × NoSlash s

last_slash-NoSlash : (file : Bytes) → NoSlash file → last_slash file ≡ none
unfolding last_slash
last_slash-NoSlash [] h = refl
last_slash-NoSlash (c ∷ file) h = rw (last_slash-NoSlash file h.1, last_slash, ==_ne c 47 h.0) refl

last_slash-append :
    (dir file : Bytes) → NoSlash file → last_slash (dir ++ 47 ∷ file) ≡ some (dir, file)
unfolding last_slash
last_slash-append [] file h = rw (last_slash-NoSlash file h, last_slash) refl
last_slash-append (c ∷ dir) file h = rw (last_slash-append dir file h, last_slash) refl

-- A command is words with one space between two of them. If its first word has no slash, it is run
-- from the current directory; if it is `dir/file`, `./file` is run from `dir`. The arguments are the
-- file that is run and the other words, in order.
pub engine_parse_cmd-unwords :
    (dir file : Bytes) (ws : List Bytes)
    → NoSlash file
    → Words (file ∷ ws)
    → Words ((dir ++ 47 ∷ file) ∷ ws)
    → (engine_parse_cmd (unwords (file ∷ ws))
        ≡ some (record { cwd = cur_dir; run = file; args = file ∷ ws }))
      × (engine_parse_cmd (unwords ((dir ++ 47 ∷ file) ∷ ws))
          ≡ some (record { cwd = dir; run = cur_dir ++ file; args = (cur_dir ++ file) ∷ ws }))
unfolding split_path
engine_parse_cmd-unwords dir file ws h u v = (
  rw (split_cmd file ws u, split_path, last_slash-NoSlash file h) refl,
  rw (split_cmd (dir ++ 47 ∷ file) ws v, split_path, last_slash-append dir file h) refl,
)
