-- ===== src/Tests/Dialogue.antt =====
-- The theorems on engines, options, clocks and openings at concrete inputs.
use c_chess_cli.Common.{
  ℕ, ◌+◌, ◌-◌, ◌*◌, ◌≤◌, ◌≡◌, ◌≢◌, refl, arith, true, false, not, ◌||◌, List, [], ◌∷◌, ◌++◌, ◌==◌,
  if◌then◌else◌, Option, some, none, codes, str_eq,
}
use c_chess_cli.Common.Int.{ℤ, pos, negsuc, ◌+ℤ◌, ◌-ℤ◌, neg, ltℤb}
use c_chess_cli.Str.{Bytes, str_prefix, str_tok, span, skip, mem}
use c_chess_cli.Vec.{Vec, vec_push, vec_clear}
use c_chess_cli.Vec.Growth.{IsFit, vec_push-IsFit}
use c_chess_cli.Libc.{Libc}
use c_chess_cli.Workers.{worker_init, fmt_int}
use c_chess_cli.Engine.{Engine, Side, engine_sync}
use c_chess_cli.Engine.Info.{Info, engine_parse_info}
use c_chess_cli.Engine.Bestmove.{Answer, is_bestmove, engine_bestmove}
use c_chess_cli.Engine.Bestmove.Sync.{after, Answered, engine_bestmove-Answered}
use c_chess_cli.Engine.Bestmove.Live.{
  AllLegible, is_readyok, ready, synced, engine_sync-ready, engine_bestmove-returns,
}
use c_chess_cli.Engine.Command.{cur_dir, engine_parse_cmd}
use c_chess_cli.Engine.Command.Words.{unwords, engine_parse_cmd-unwords}
use c_chess_cli.Options.{EngineOptions, engine_options_init, engine_options_apply}
use c_chess_cli.Options.Parse.{options_init}
use c_chess_cli.Options.Line.{options_parse}
use c_chess_cli.Options.Line.Accepted.{Accepted, options_parse-Accepted}
use c_chess_cli.Options.Each.{is_untimed, given_or, text_or, options_parse_eo-engine_options_apply}
use c_chess_cli.Options.{option_loop}
use c_chess_cli.Options.Parse.{options_parse_eo, eo_token}
use c_chess_cli.Game.Clock.{moves_done, prepare_time, go_limits, uci_go_command, is_set}
use c_chess_cli.Game.Clock.Refill.{prepare_time-movestogo}

-- A number of digits, with a sign.
read_digits : Bytes → ℕ → ℕ
read_digits [] n = n
read_digits (c ∷ s) n = read_digits s (10 * n + (c - 48))

unfoldable pub read_int : Bytes → ℤ
unfolding read_digits
read_int [] = pos 0
read_int (c ∷ s) = if c == 45 then neg (pos (read_digits s 0)) else pos (read_digits (c ∷ s) 0)

-- A worker without a log, and a clock that runs 10 ms from reading to reading.
abbrev quiet : Side
unfolding worker_init
quiet = record { worker = worker_init 0 []; sent = []; ticks = 0 }

abbrev pub ten_ms : ℕ → ℤ
ten_ms n = pos (10 * n)

abbrev pub fish : Engine
fish = record { name = codes "fish"; time_out = pos 4000; support_chess960 = false; started = true }

abbrev no_info : Info
no_info = record { score = pos 0; depth = pos 0; time = pos 0 }

abbrev says : List Bytes
says =
    codes "info depth 3 score mate -2 pv e2e4 e7e5"
    ∷ codes "bestmove e2e4 ponder e7e5"
    ∷ codes "readyok"
    ∷ []

-- The lines left, and the answer, if there is one.
abbrev value : Option (List Bytes × Answer) → List Bytes × Answer
value none = (
  [],
  record { result = false; time_left = pos 0; best = []; pv = []; info = no_info; side = quiet },
)
value (some r) = r

-- In time: the move is taken, and one line is left.
abbrev in_time : Option (List Bytes × Answer)
in_time = engine_bestmove ten_ms read_int fish (pos 100) [] no_info says quiet

in_time_run : in_time ≡ some ((value in_time).0, (value in_time).1)
unfolding engine_bestmove engine_parse_info str_prefix str_tok read_int span skip mem str_eq quiet
in_time_run = refl

in_time_best :
    ((value in_time).1.best ≡ codes "e2e4") × ((value in_time).1.info.score ≡ negsuc 32765)
unfolding engine_bestmove engine_parse_info str_prefix str_tok read_int span skip mem str_eq quiet
in_time_best = (refl, refl)

engine_bestmove-Answered_example :
    Answered says [] quiet.sent (value in_time).0 (value in_time).1
    × ((value in_time).1.side.worker.deadline.set ≡ false)
engine_bestmove-Answered_example =
    engine_bestmove-Answered ten_ms read_int fish (pos 100) [] no_info says (value in_time).0 quiet
      (value in_time).1 in_time_run

-- These lines have no score that cannot be read.
answers : List Bytes
answers = codes "id name fish" ∷ codes "bestmove e2e4" ∷ []

answers-AllLegible : AllLegible read_int answers
unfolding answers str_prefix
answers-AllLegible =
    (λ tail info pv h. absurd (ground arith), (λ tail info pv h. absurd (ground arith), tt))

answers_answer : after is_bestmove answers ≢ none
unfolding answers str_prefix
answers_answer = ground arith

engine_bestmove-returns_example :
    engine_bestmove ten_ms read_int fish (pos 5) [] no_info answers quiet ≢ none
engine_bestmove-returns_example =
    engine_bestmove-returns ten_ms read_int fish (pos 5) [] no_info answers quiet answers-AllLegible
      answers_answer

engine_sync-ready_example :
    synced (engine_sync ten_ms fish says quiet) ≡ ready quiet.sent (after is_readyok says)
engine_sync-ready_example = engine_sync-ready ten_ms fish says quiet

abbrev hash_words : List Bytes
hash_words = codes "-hash" ∷ codes "64" ∷ []

engine_parse_cmd-unwords_example :
    (engine_parse_cmd (unwords (codes "fish" ∷ hash_words))
      ≡ some (record { cwd = cur_dir; run = codes "fish"; args = codes "fish" ∷ hash_words }))
    × (engine_parse_cmd (unwords ((codes "../bin" ++ 47 ∷ codes "fish") ∷ hash_words))
        ≡ some (record {
          cwd = codes "../bin";
          run = cur_dir ++ codes "fish";
          args = (cur_dir ++ codes "fish") ∷ hash_words;
        }))
engine_parse_cmd-unwords_example =
    engine_parse_cmd-unwords (codes "../bin") (codes "fish") hash_words (omega arith) (ground arith)
      (ground arith)

-- The numbers of the C library, with whole numbers in place of `double`.
abbrev pub whole : Libc
whole = record {
  Double = ℤ;
  of_int = λ n. n;
  add = λ a b. a +ℤ b;
  sub = λ a b. a -ℤ b;
  mul = λ a b. a;
  div = λ a b. a;
  minus = neg;
  exp = λ a. a;
  log = λ a. a;
  lt = ltℤb;
  le = λ a b. not (ltℤb b a);
  to_int64 = λ a. a;
  atof = read_int;
  atoi = read_int;
  atoll = read_int;
}

abbrev some_args : List Bytes
some_args =
    codes "-engine"
    ∷ codes "cmd=fish"
    ∷ codes "-engine"
    ∷ codes "cmd=bird"
    ∷ codes "-concurrency"
    ∷ codes "2"
    ∷ []

options_parse-Accepted_example : Accepted whole (options_parse whole some_args (options_init whole))
options_parse-Accepted_example = options_parse-Accepted whole some_args

abbrev patient : EngineOptions
unfolding engine_options_init
patient = record engine_options_init { time_out = pos 9000; movestogo = pos 40; time = pos 60000 }

-- `-each depth=5 -engine ...`
abbrev each_args : List Bytes
each_args = codes "depth=5" ∷ codes "-engine" ∷ codes "timeout=9" ∷ []

abbrev each_depth : EngineOptions
unfolding engine_options_init
each_depth = record engine_options_init { depth = pos 5 }

each_run :
    options_parse_eo whole each_args engine_options_init
    ≡ some (codes "-engine" ∷ codes "timeout=9" ∷ [], each_depth)
unfolding options_parse_eo engine_options_init read_int str_prefix option_loop eo_token
each_run = refl

is_untimed_run : is_untimed each_args ≡ true
unfolding str_prefix
is_untimed_run = refl

options_parse_eo-engine_options_apply_example : engine_options_apply each_depth patient ≡ record {
  cmd = text_or each_depth.cmd patient.cmd;
  name = text_or each_depth.name patient.name;
  vec_options = patient.vec_options ++ each_depth.vec_options;
  time = given_or each_depth.time patient.time;
  increment = given_or each_depth.increment patient.increment;
  movetime = given_or each_depth.movetime patient.movetime;
  nodes = given_or each_depth.nodes patient.nodes;
  time_out = pos 4000;
  depth = given_or each_depth.depth patient.depth;
  movestogo = given_or each_depth.movestogo patient.movestogo;
}
options_parse_eo-engine_options_apply_example =
    options_parse_eo-engine_options_apply whole each_args (codes "-engine" ∷ codes "timeout=9" ∷ [])
      each_depth patient is_untimed_run each_run

patient_control :
    (patient.movestogo ≡ pos 40)
    × (is_set patient.movetime ≡ false)
    × ((is_set patient.time || is_set patient.increment) ≡ true)
    × (3 ≤ 40 - moves_done 6 (pos 40))
unfolding patient moves_done engine_options_init
patient_control = (refl, refl, refl, omega arith)

prepare_time-movestogo_example :
    (uci_go_command (λ _. patient) 1 6 0 (λ _. pos 500)
      ≡ go_limits (λ _. patient) 1 0 (λ _. pos 500)
        ++ (codes " movestogo " ++ fmt_int (pos (40 - moves_done 6 (pos 40)))))
    × (1 ≤ 40 - moves_done 6 (pos 40))
    × (40 - moves_done 6 (pos 40) ≤ 40)
    × (prepare_time patient (6 + 2 * 3) (pos 500) ≡ (
        if 3 == 40 - moves_done 6 (pos 40)
        then pos 500 +ℤ patient.increment +ℤ patient.time
        else pos 500 +ℤ patient.increment))
prepare_time-movestogo_example =
    prepare_time-movestogo (λ _. patient) 1 6 0 40 3 (λ _. pos 500) (pos 500) patient_control.0
      (omega arith) patient_control.1 patient_control.2 (omega arith) patient_control.3

-- A full vector of two elements of 8 bytes.
abbrev full : Vec ℕ
full = record { capacity = 2; items = 7 ∷ 8 ∷ [] }

vec_push-IsFit_example :
    IsFit (vec_push 8 9 full)
    × ((vec_push 8 9 full).items ≡ full.items ++ 9 ∷ [])
    × (full.capacity ≤ (vec_push 8 9 full).capacity)
    × IsFit (vec_clear full)
    × ((vec_clear full).capacity ≡ full.capacity)
vec_push-IsFit_example = vec_push-IsFit 8 9 full (omega arith) (omega arith)
