-- ===== src/Str/Tokens.antt =====
-- The tokens of a string.
use c_chess_cli.Common.{ℕ, ◌≡◌, refl, arith, true, false, [], ◌∷◌, ◌++◌, none, some}
use c_chess_cli.Str.{Bytes, mem, skip, span, str_tok}

abbrev pub AllIn : Bytes → Bytes → Type 0
AllIn delim [] = Unit
AllIn delim (c ∷ s) = (mem c delim ≡ true) × AllIn delim s

abbrev pub NoneIn : Bytes → Bytes → Type 0
NoneIn delim [] = Unit
NoneIn delim (c ∷ s) = (mem c delim ≡ false) × NoneIn delim s

-- The string is empty or starts with a delimiter.
abbrev pub IsEnd : Bytes → Bytes → Type 0
IsEnd delim [] = Unit
IsEnd delim (c ∷ s) = mem c delim ≡ true

skip-prefix : (delim pre s : Bytes) → AllIn delim pre → skip delim (pre ++ s) ≡ skip delim s
unfolding skip
skip-prefix delim [] s h = refl
skip-prefix delim (c ∷ pre) s h = rw (h.0) (skip-prefix delim pre s h.1)

skip-stops : (delim : Bytes) (c : ℕ) (s : Bytes) → mem c delim ≡ false → skip delim (c ∷ s) ≡ c ∷ s
unfolding skip
skip-stops delim c s h = rw h refl

span-prefix :
    (delim tok s : Bytes) → NoneIn delim tok → IsEnd delim s → span delim (tok ++ s) ≡ (tok, s)
unfolding span
span-prefix delim [] [] h e = refl
span-prefix delim [] (c ∷ s) h e = rw e refl
span-prefix delim (c ∷ tok) s h e = rw (h.0, span-prefix delim tok s h.1 e) refl

skip-all : (delim s : Bytes) → AllIn delim s → skip delim s ≡ []
unfolding skip
skip-all delim [] h = refl
skip-all delim (c ∷ s) h = rw (h.0) (skip-all delim s h.1)

-- The next token of a string is what follows its first delimiters, up to the next delimiter or the
-- end, and the tail starts there. A string of delimiters only has no token.
pub str_tok-parts :
    (delim before : Bytes) (c : ℕ) (token rest old : Bytes)
    → AllIn delim before
    → NoneIn delim (c ∷ token)
    → IsEnd delim rest
    → (str_tok (some (before ++ c ∷ (token ++ rest))) old delim ≡ (some rest, c ∷ token))
      × (str_tok (some before) old delim ≡ (none, []))
unfolding str_tok
str_tok-parts delim before c token rest old b t r = (
  rw
      (
        skip-prefix delim before (c ∷ (token ++ rest)) b,
        skip-stops delim c (token ++ rest) t.0,
        span-prefix delim (c ∷ token) rest t r,
      )
      (ground arith),
  rw (skip-all delim before b) (unfold span in refl),
)
