-- ===== src/Options/Line.antt =====
-- `options_parse` of src/options.c: the loop over the arguments, and the checks at the end.
pub mod Accepted
use c_chess_cli.Common.{
  ℕ, zero, suc, ◌+◌, Bool, true, false, not, ◌||◌, ◌&&◌, List, [], ◌∷◌, ◌++◌, Option, none, some,
  codes, map, str_eq, length, ◌==◌, ltb, if◌then◌else◌,
}
use c_chess_cli.Common.Int.{ℤ, pos, negsuc, ltℤb}
use c_chess_cli.Str.{Bytes}
use c_chess_cli.Libc.{Libc}
use c_chess_cli.Options.{Options, EngineOptions, engine_options_init, engine_options_apply}
use c_chess_cli.Options.Parse.{
  Adjudication, options_parse_sample, options_parse_eo, options_parse_openings,
  options_parse_adjudication, options_parse_sprt, options_init,
}

-- The variables of `options_parse`.
pub record Parsing (D : Type 0) : Type 0 where
  pub o : Options D
  pub engines : List EngineOptions
  pub each : EngineOptions
  pub each_set : Bool

-- What the code makes of the arguments, or that it ends the program.
pub data Outcome {ℓ} (A : Type ℓ) : Type ℓ where
  ok : A → Outcome A
  died : Outcome A
  out_of_fuel : Outcome A

-- `argv[i + 1][0] != '-'`, if there is such an argument.
abbrev is_value : List Bytes → Bool
is_value [] = false
is_value ([] ∷ args) = true
is_value ((c ∷ arg) ∷ args) = not (c == 45)

-- A group of arguments, and where its values go.
abbrev with_group {ℓ κ} :
    {S : Type ℓ} {D : Type κ} → Option (List Bytes × S) → (S → D) → Option (List Bytes × D)
with_group none f = none
with_group (some (rest, s)) f = some (rest, f s)

module _ (c : Libc) where
  open c use {Double, atoi}

  -- `-concurrency`, `-games` and `-rounds`.
  abbrev next_int : List Bytes → (ℤ → Parsing Double) → Option (List Bytes × Parsing Double)
  next_int [] f = none
  next_int (arg ∷ args) f = some (args, f (atoi arg))

  unfoldable pub parse_concurrency :
      List Bytes → Parsing Double → Option (List Bytes × Parsing Double)
  parse_concurrency [] p = none
  parse_concurrency (arg ∷ args) p =
      if ltℤb (atoi arg) (pos 1)
      then none
      else some (args, record p { o = record (p.o) { concurrency = atoi arg } })

  unfoldable pub parse_pgn : List Bytes → Parsing Double → Option (List Bytes × Parsing Double)
  parse_pgn [] p = none
  parse_pgn (file ∷ []) p = some ([], record p { o = record (p.o) { pgn = file } })
  parse_pgn (file ∷ (arg ∷ args)) p =
      if is_value (arg ∷ args)
      then some (args, record p { o = record (p.o) { pgn = file; pgn_verbosity = atoi arg } })
      else some (arg ∷ args, record p { o = record (p.o) { pgn = file } })

  -- The body of the loop, with the arguments after the one that is read.
  unfoldable pub option_turn :
      Bytes → List Bytes → Parsing Double → Option (List Bytes × Parsing Double)
  unfolding parse_concurrency parse_pgn options_parse_eo options_parse_openings
      options_parse_adjudication options_parse_sprt options_parse_sample
  option_turn arg args p =
      if str_eq arg (codes "-repeat")
      then some (args, record p { o = record (p.o) { repeat = true } })
      else if str_eq arg (codes "-gauntlet")
      then some (args, record p { o = record (p.o) { gauntlet = true } })
      else if str_eq arg (codes "-log")
      then some (args, record p { o = record (p.o) { log = true } })
      else if str_eq arg (codes "-concurrency")
      then parse_concurrency args p
      else if str_eq arg (codes "-each")
      then with_group (options_parse_eo c args p.each)
          (λ eo. record p { each = eo; each_set = true })
      else if str_eq arg (codes "-engine")
      then with_group (options_parse_eo c args engine_options_init)
          (λ eo. record p { engines = p.engines ++ eo ∷ [] })
      else if str_eq arg (codes "-games")
      then next_int args (λ n. record p { o = record (p.o) { games = n } })
      else if str_eq arg (codes "-rounds")
      then next_int args (λ n. record p { o = record (p.o) { rounds = n } })
      else if str_eq arg (codes "-openings")
      then with_group (options_parse_openings c args p.o) (λ o. record p { o = o })
      else if str_eq arg (codes "-pgn")
      then parse_pgn args p
      else if str_eq arg (codes "-resign")
      then with_group
          (options_parse_adjudication c args
            (p.o.resign_number, (p.o.resign_count, p.o.resign_score)))
          (λ a. record p {
            o = record (p.o) { resign_number = a.0; resign_count = a.1.0; resign_score = a.1.1 };
          })
      else if str_eq arg (codes "-draw")
      then with_group
          (options_parse_adjudication c args (p.o.draw_number, (p.o.draw_count, p.o.draw_score)))
          (λ a. record p {
            o = record (p.o) { draw_number = a.0; draw_count = a.1.0; draw_score = a.1.1 };
          })
      else if str_eq arg (codes "-sprt")
      then with_group (options_parse_sprt c args p.o) (λ o. record p { o = o })
      else if str_eq arg (codes "-sample")
      then with_group (options_parse_sample c args p.o) (λ o. record p { o = o })
      else none

  -- Each turn takes an argument at least, so that as many turns are enough.
  unfoldable pub options_loop : ℕ → List Bytes → Parsing Double → Outcome (Parsing Double)
  unfolding option_turn
  options_loop fuel [] p = ok p
  options_loop zero (arg ∷ args) p = out_of_fuel
  options_loop (suc fuel) (arg ∷ args) p = elim (option_turn arg args p) [
    | none ↦ died
    | some (rest, p') ↦ options_loop fuel rest p'
  ]

  -- What follows the loop.
  unfoldable pub options_check : Parsing Double → Outcome (List EngineOptions × Options Double)
  unfolding engine_options_apply
  options_check p =
      let engines = if p.each_set then map (engine_options_apply p.each) p.engines else p.engines in
      if ltb (length engines) 2
      then died
      else if ltb 2 (length engines) && p.o.sprt
      then died
      else ok (engines, p.o)

  unfoldable pub options_parse :
      List Bytes → Options Double → Outcome (List EngineOptions × Options Double)
  unfolding options_loop options_check
  options_parse args o =
      elim (options_loop (length args) args
        (record { o = o; engines = []; each = engine_options_init; each_set = false })) [
          | ok p ↦ options_check p
          | died ↦ died
          | out_of_fuel ↦ out_of_fuel
        ]
