-- ===== src/Options/Parse.antt =====
-- The parsers of the options of src/options.c. Each handles one argument of its option.
use c_chess_cli.Common.{
  Bool, true, false, List, [], ◌∷◌, ◌++◌, Option, none, some, codes, str_eq, length, ◌==◌,
  if◌then◌else◌,
}
use c_chess_cli.Common.Int.{ℤ, pos}
use c_chess_cli.Str.{Bytes, mem, str_tok}
use c_chess_cli.Libc.{Libc, to_uint64}
use c_chess_cli.Sprt.{SprtParam, sprt_validate}
use c_chess_cli.Options.{Options, SampleParams, EngineOptions, if_prefix, option_loop}

-- `number`, `count` and `score`.
abbrev pub Adjudication : Type 0
Adjudication = ℤ × (ℤ × ℤ)

-- `*tail == 'y'`
abbrev is_y : Bytes → Bool
is_y [] = false
is_y (c ∷ s) = c == 121

module _ (c : Libc) where
  open c use {Double, of_int, mul, atof, atoi, atoll, to_int64}

  -- `(int64_t)(x * 1000)`
  abbrev msec : Double → ℤ
  msec x = to_int64 (mul x (of_int (pos 1000)))

  unfoldable pub sample_token : Bytes → SampleParams Double → Option (SampleParams Double)
  sample_token arg sp =
      if_prefix arg (codes "freq=") (λ tail. some (record sp { freq = atof tail }))
        (if_prefix arg (codes "decay=") (λ tail. some (record sp { decay = atof tail }))
          (if_prefix arg (codes "resolve=") (λ tail. some (record sp { resolve = is_y tail }))
            (if_prefix arg (codes "file=") (λ tail. some (record sp { file_name = tail }))
              (if_prefix arg (codes "format=")
                (λ tail.
                  if str_eq tail (codes "csv")
                  then some (record sp { bin = false })
                  else if str_eq tail (codes "bin")
                  then some (record sp { bin = true })
                  else none)
                none))))

  unfoldable pub sample_default : SampleParams Double → SampleParams Double
  sample_default sp =
      if length sp.file_name == 0
      then record sp { file_name = if sp.bin then codes "sample.bin" else codes "sample.csv" }
      else sp

  unfoldable pub options_parse_sample :
      List Bytes → Options Double → Option (List Bytes × Options Double)
  unfolding option_loop sample_token sample_default
  options_parse_sample args o = elim (option_loop sample_token args o.sp) [
    | none ↦ none
    | some (rest, sp) ↦ some (rest, record o { sp = sample_default sp })
  ]

  -- The control is `mtg/time+inc` or `time+inc`.
  unfoldable pub options_parse_tc : Bytes → EngineOptions → EngineOptions
  options_parse_tc s eo =
      let first = str_tok (some s) [] (codes "+") in
      let second = str_tok first.0 [] (codes "+") in
      let left = str_tok (some first.1) [] (codes "/") in
      let right = str_tok left.0 second.1 (codes "/") in
      let eo' : EngineOptions = record eo { increment = msec (atof second.1) } in
      if mem 47 first.1
      then record eo' { movestogo = atoi left.1; time = msec (atof right.1) }
      else record eo' { time = msec (atof first.1) }

  unfoldable pub eo_token : Bytes → EngineOptions → Option EngineOptions
  unfolding options_parse_tc
  eo_token arg eo =
      if_prefix arg (codes "cmd=") (λ tail. some (record eo { cmd = tail }))
        (if_prefix arg (codes "name=") (λ tail. some (record eo { name = tail }))
          (if_prefix arg (codes "option.")
            (λ tail. some (record eo { vec_options = eo.vec_options ++ tail ∷ [] }))
            (if_prefix arg (codes "depth=") (λ tail. some (record eo { depth = atoi tail }))
              (if_prefix arg (codes "nodes=") (λ tail. some (record eo { nodes = atoll tail }))
                (if_prefix arg (codes "movetime=")
                  (λ tail. some (record eo { movetime = msec (atof tail) }))
                  (if_prefix arg (codes "tc=") (λ tail. some (options_parse_tc tail eo))
                    (if_prefix arg (codes "timeout=")
                      (λ tail. some (record eo { time_out = msec (atof tail) })) none)))))))

  unfoldable pub options_parse_eo : List Bytes → EngineOptions → Option (List Bytes × EngineOptions)
  unfolding option_loop eo_token
  options_parse_eo args eo = option_loop eo_token args eo

  unfoldable pub openings_token : Bytes → Options Double → Option (Options Double)
  openings_token arg o =
      if_prefix arg (codes "file=") (λ tail. some (record o { openings = tail }))
        (if_prefix arg (codes "order=")
          (λ tail.
            if str_eq tail (codes "random")
            then some (record o { random = true })
            else if str_eq tail (codes "sequential")
            then some o
            else none)
          (if_prefix arg (codes "srand=")
            (λ tail. some (record o { srand = to_uint64 (atoll tail) })) none))

  unfoldable pub options_parse_openings :
      List Bytes → Options Double → Option (List Bytes × Options Double)
  unfolding option_loop openings_token
  options_parse_openings args o = option_loop openings_token args o

  unfoldable pub adjudication_token : Bytes → Adjudication → Option Adjudication
  adjudication_token arg (number, (count, score)) =
      if_prefix arg (codes "number=") (λ tail. some (atoi tail, (count, score)))
        (if_prefix arg (codes "count=") (λ tail. some (number, (atoi tail, score)))
          (if_prefix arg (codes "score=") (λ tail. some (number, (count, atoi tail))) none))

  unfoldable pub options_parse_adjudication :
      List Bytes → Adjudication → Option (List Bytes × Adjudication)
  unfolding option_loop adjudication_token
  options_parse_adjudication args a = option_loop adjudication_token args a

  unfoldable pub sprt_token : Bytes → SprtParam Double → Option (SprtParam Double)
  sprt_token arg sp =
      if_prefix arg (codes "elo0=") (λ tail. some (record sp { elo0 = atof tail }))
        (if_prefix arg (codes "elo1=") (λ tail. some (record sp { elo1 = atof tail }))
          (if_prefix arg (codes "alpha=") (λ tail. some (record sp { alpha = atof tail }))
            (if_prefix arg (codes "beta=") (λ tail. some (record sp { beta = atof tail })) none)))

  unfoldable pub options_parse_sprt :
      List Bytes → Options Double → Option (List Bytes × Options Double)
  unfolding option_loop sprt_token
  options_parse_sprt args o = elim (option_loop sprt_token args o.sprt_param) [
    | none ↦ none
    | some (rest, sp) ↦
        if sprt_validate c sp then some (rest, record o { sprt = true; sprt_param = sp }) else none
  ]

  unfoldable pub sample_params_init : SampleParams Double
  sample_params_init = record {
    file_name = [];
    freq = of_int (pos 1);
    decay = of_int (pos 0);
    resolve = false;
    bin = false;
  }

  unfoldable pub options_init : Options Double
  unfolding sample_params_init
  options_init = record {
    sp = sample_params_init;
    openings = [];
    pgn = [];
    sprt_param = record {
      elo0 = of_int (pos 0);
      elo1 = of_int (pos 4);
      alpha = atof (codes "0.05");
      beta = atof (codes "0.05");
    };
    srand = 0;
    concurrency = pos 1;
    games = pos 1;
    rounds = pos 1;
    resign_number = pos 0;
    resign_count = pos 0;
    resign_score = pos 0;
    draw_number = pos 0;
    draw_count = pos 0;
    draw_score = pos 0;
    pgn_verbosity = pos 3;
    log = false;
    random = false;
    repeat = false;
    sprt = false;
    gauntlet = false;
  }
