-- ===== src/Options.antt =====
-- src/options.h and src/options.c: the options of the command line, which is the list of the
-- arguments after the program's name. A string is its text. A result none means that the code ends
-- the program; so it does at a missing last argument, where the code would read NULL.
pub mod Parse
pub mod Line
pub mod Each
use c_chess_cli.Common.{
  ℕ, ◌*◌, Bool, true, false, not, List, [], ◌∷◌, ◌++◌, Option, none, some, codes, str_eq, length,
  ◌==◌, if◌then◌else◌,
}
use c_chess_cli.Common.Int.{ℤ, pos, negsuc, ltℤb}
use c_chess_cli.Str.{Bytes, mem, str_prefix, str_tok}
use c_chess_cli.Libc.{Libc, to_uint64}
use c_chess_cli.Sprt.{SprtParam, sprt_validate}

pub record SampleParams (D : Type 0) : Type 0 where
  pub file_name : Bytes
  pub freq : D
  pub decay : D
  pub resolve : Bool
  pub bin : Bool

pub record Options (D : Type 0) : Type 0 where
  pub sp : SampleParams D
  pub openings : Bytes
  pub pgn : Bytes
  pub sprt_param : SprtParam D
  pub srand : ℕ
  pub concurrency : ℤ
  pub games : ℤ
  pub rounds : ℤ
  pub resign_number : ℤ
  pub resign_count : ℤ
  pub resign_score : ℤ
  pub draw_number : ℤ
  pub draw_count : ℤ
  pub draw_score : ℤ
  pub pgn_verbosity : ℤ
  pub log : Bool
  pub random : Bool
  pub repeat : Bool
  pub sprt : Bool
  pub gauntlet : Bool

pub record EngineOptions : Type 0 where
  pub cmd : Bytes
  pub name : Bytes
  pub vec_options : List Bytes
  pub time : ℤ
  pub increment : ℤ
  pub movetime : ℤ
  pub nodes : ℤ
  pub time_out : ℤ
  pub depth : ℤ
  pub movestogo : ℤ

-- `if ((tail = str_prefix(arg, prefix))) f(tail); else rest`
abbrev pub if_prefix {ℓ} : {A : Type ℓ} → Bytes → Bytes → (Bytes → A) → A → A
if_prefix arg prefix f rest = elim (str_prefix arg prefix) [ none ↦ rest | some tail ↦ f tail ]

-- `while (i < argc && argv[i][0] != '-')`, with what is done of an argument. The arguments from `i`
-- on are left.
unfoldable pub option_loop {ℓ} :
    {S : Type ℓ} → (Bytes → S → Option S) → List Bytes → S → Option (List Bytes × S)
option_loop parse [] s = some ([], s)
option_loop parse ([] ∷ args) s = elim (parse [] s) [
  | none ↦ none
  | some s' ↦ option_loop parse args s'
]
option_loop parse ((c ∷ arg) ∷ args) s = elim (c == 45) [
  | true ↦ some ((c ∷ arg) ∷ args, s)
  | false ↦ elim (parse (c ∷ arg) s) [ none ↦ none | some s' ↦ option_loop parse args s' ]
]

unfoldable pub engine_options_init : EngineOptions
engine_options_init = record {
  cmd = [];
  name = [];
  vec_options = [];
  time = pos 0;
  increment = pos 0;
  movetime = pos 0;
  nodes = pos 0;
  time_out = pos 4000;
  depth = pos 0;
  movestogo = pos 0;
}

abbrev pub unless_empty {ℓ} : {A : Type ℓ} → List A → List A → List A
unless_empty [] old = old
unless_empty (x ∷ new) old = x ∷ new

abbrev pub unless_zero : ℤ → ℤ → ℤ
unless_zero (pos n) old = if n == 0 then old else pos n
unless_zero (negsuc n) old = negsuc n

unfoldable pub engine_options_apply : EngineOptions → EngineOptions → EngineOptions
engine_options_apply from to = record {
  cmd = unless_empty from.cmd to.cmd;
  name = unless_empty from.name to.name;
  vec_options = to.vec_options ++ from.vec_options;
  time = unless_zero from.time to.time;
  increment = unless_zero from.increment to.increment;
  movetime = unless_zero from.movetime to.movetime;
  nodes = unless_zero from.nodes to.nodes;
  time_out = unless_zero from.time_out to.time_out;
  depth = unless_zero from.depth to.depth;
  movestogo = unless_zero from.movestogo to.movestogo;
}
