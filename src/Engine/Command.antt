-- ===== src/Engine/Command.antt =====
-- `engine_parse_cmd` of src/engine.c, with the path separator and escape character of POSIX.
pub mod Words
use c_chess_cli.Common.{
  ℕ, zero, suc, ◌+◌, Bool, true, false, List, [], ◌∷◌, ◌++◌, Option, none, some, codes, length,
  ◌==◌, if◌then◌else◌,
}
use c_chess_cli.Str.{Bytes, str_tok_esc}

-- The directory to run in, the file to run there, and the arguments.
pub record Command : Type 0 where
  pub cwd : Bytes
  pub run : Bytes
  pub args : List Bytes

-- `strrchr(s, '/')`: what stands before and after the last slash.
unfoldable pub last_slash : Bytes → Option (Bytes × Bytes)
last_slash [] = none
last_slash (c ∷ s) = elim (last_slash s) [
  | none ↦ if c == 47 then some ([], s) else none
  | some (before, behind) ↦ some (c ∷ before, behind)
]

abbrev pub cur_dir : Bytes
cur_dir = codes "./"

unfoldable pub split_path : Bytes → Bytes × Bytes
unfolding last_slash
split_path token = elim (last_slash token) [
  | none ↦ (cur_dir, token)
  | some (before, behind) ↦ (before, cur_dir ++ behind)
]

-- Each turn takes a byte at least. None also stands for a command that ends in the escape character,
-- where the code reads out of bounds.
unfoldable pub parse_args : ℕ → Bytes → List Bytes → Option (List Bytes)
parse_args zero tail args = none
parse_args (suc fuel) tail args = elim (str_tok_esc (some tail) [] 32 92) [
  | none ↦ none
  | some (none, token) ↦ some args
  | some (some tail', token) ↦ parse_args fuel tail' (args ++ token ∷ [])
]

-- A command of spaces has no token; then `run` is empty, and the loop starts with the tail NULL.
unfoldable pub engine_parse_cmd : Bytes → Option Command
unfolding split_path parse_args
engine_parse_cmd cmd = elim (str_tok_esc (some cmd) [] 32 92) [
  | none ↦ none
  | some (none, token) ↦ some (record { cwd = cur_dir; run = []; args = [] ∷ [] })
  | some (some tail, token) ↦
      let path = split_path token in
      elim (parse_args (length cmd + 1) tail (path.1 ∷ [])) [
        | none ↦ none
        | some args ↦ some (record { cwd = path.0; run = path.1; args = args })
      ]
]
