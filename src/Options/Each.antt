-- ===== src/Options/Each.antt =====
-- What a group `-each` of src/options.c makes of the options of an engine.
use c_chess_cli.Common.{
  zero, suc, ◌≡◌, refl, ◌∙◌, arith, Bool, true, false, not, ◌&&◌, List, [], ◌∷◌, ◌++◌, ◌==◌,
  if◌then◌else◌, Option, none, some, codes, Option-cases, Bool-cases, inl, inr,
}
use c_chess_cli.Common.Int.{ℤ, pos, negsuc}
use c_chess_cli.Str.{Bytes, str_prefix}
use c_chess_cli.Libc.{Libc}
use c_chess_cli.Options.{
  EngineOptions, if_prefix, option_loop, engine_options_init, engine_options_apply, unless_zero,
  unless_empty,
}
use c_chess_cli.Options.Parse.{options_parse_tc, eo_token, options_parse_eo}

abbrev sets_time_out : Bytes → Bool
sets_time_out arg = elim (str_prefix arg (codes "timeout=")) [ none ↦ false | some tail ↦ true ]

-- No argument up to the next one with a dash sets a time out.
abbrev pub is_untimed : List Bytes → Bool
is_untimed [] = true
is_untimed ([] ∷ args) = is_untimed args
is_untimed ((c ∷ arg) ∷ args) =
    if c == 45 then true else not (sets_time_out (c ∷ arg)) && is_untimed args

-- A number that is given, or else the old one; and a text.
abbrev pub given_or : ℤ → ℤ → ℤ
given_or (pos zero) old = old
given_or (pos (suc n)) old = pos (suc n)
given_or (negsuc n) old = negsuc n

abbrev pub text_or : Bytes → Bytes → Bytes
text_or [] old = old
text_or (c ∷ s) old = c ∷ s

-- The time out is not what these parsers change.
abbrev SameTimeOut : EngineOptions → Option EngineOptions → Type 0
SameTimeOut eo none = Unit
SameTimeOut eo (some eo') = eo'.time_out ≡ eo.time_out

module _ (c : Libc) where
  options_parse_tc_time_out :
      (s : Bytes) (eo : EngineOptions) → (options_parse_tc c s eo).time_out ≡ eo.time_out
  unfolding options_parse_tc
  options_parse_tc_time_out s eo = ground arith

  if_prefix-SameTimeOut :
      (arg name : Bytes) (eo : EngineOptions) (f : Bytes → EngineOptions)
      (rest : Option EngineOptions)
      → ((tail : Bytes) → (f tail).time_out ≡ eo.time_out)
      → SameTimeOut eo rest
      → SameTimeOut eo (if_prefix arg name (λ tail. some (f tail)) rest)
  if_prefix-SameTimeOut arg name eo f rest h k = elim (Option-cases (str_prefix arg name)) [
    | inl e ↦ rw (e, SameTimeOut) k
    | inr (tail, e) ↦ rw (e, SameTimeOut) (h tail)
  ]

  none_there :
      (arg : Bytes) (eo : EngineOptions) (f : Bytes → EngineOptions)
      → sets_time_out arg ≡ false
      → SameTimeOut eo (if_prefix arg (codes "timeout=") (λ tail. some (f tail)) none)
  none_there arg eo f h = elim (Option-cases (str_prefix arg (codes "timeout="))) [
    | inl e ↦ rw (e, SameTimeOut) tt
    | inr (tail, e) ↦ absurd (ground arith)
  ]

  eo_token-SameTimeOut :
      (arg : Bytes) (eo : EngineOptions)
      → sets_time_out arg ≡ false
      → SameTimeOut eo (eo_token c arg eo)
  unfolding eo_token
  eo_token-SameTimeOut arg eo h =
      if_prefix-SameTimeOut arg (codes "cmd=") eo _ _ (λ tail. refl)
        (if_prefix-SameTimeOut arg (codes "name=") eo _ _ (λ tail. refl)
          (if_prefix-SameTimeOut arg (codes "option.") eo _ _ (λ tail. refl)
            (if_prefix-SameTimeOut arg (codes "depth=") eo _ _ (λ tail. refl)
              (if_prefix-SameTimeOut arg (codes "nodes=") eo _ _ (λ tail. refl)
                (if_prefix-SameTimeOut arg (codes "movetime=") eo _ _ (λ tail. refl)
                  (if_prefix-SameTimeOut arg (codes "tc=") eo _ _
                    (λ tail. options_parse_tc_time_out tail eo) (none_there arg eo _ h)))))))

  -- One argument that is none of another group, and the rest.
  step_time_out :
      (arg : Bytes) (args rest : List Bytes) (eo each : EngineOptions)
      → sets_time_out arg ≡ false
      → elim (eo_token c arg eo) [ none ↦ none | some eo' ↦ option_loop (eo_token c) args eo' ]
        ≡ some (rest, each)
      → ((eo' : EngineOptions)
          → option_loop (eo_token c) args eo' ≡ some (rest, each)
          → each.time_out ≡ eo'.time_out)
      → each.time_out ≡ eo.time_out
  step_time_out arg args rest eo each quiet h next = elim (Option-cases (eo_token c arg eo)) [
    | inl e ↦ absurd (ground arith)
    | inr (eo', e) ↦
        let kept : eo'.time_out ≡ eo.time_out = rw e at (eo_token-SameTimeOut arg eo quiet) in
        next eo' (rw e at h) ∙ kept
  ]

  loop_time_out :
      (args rest : List Bytes) (eo each : EngineOptions)
      → is_untimed args ≡ true
      → option_loop (eo_token c) args eo ≡ some (rest, each)
      → each.time_out ≡ eo.time_out
  unfolding option_loop str_prefix
  loop_time_out [] rest eo each u h = ground arith
  loop_time_out ([] ∷ args) rest eo each u h =
      step_time_out [] args rest eo each refl h (λ eo'. loop_time_out args rest eo' each u)
  loop_time_out ((x ∷ arg) ∷ args) rest eo each u h = elim (Bool-cases (x == 45)) [
    | inl t ↦ (let same = rw (t, option_loop) at h in ground arith)
    | inr t ↦
        step_time_out (x ∷ arg) args rest eo each (ground arith) (rw (t, option_loop) at h)
          (λ eo'. loop_time_out args rest eo' each (ground arith))
  ]

number : (new old : ℤ) → unless_zero new old ≡ given_or new old
number (pos zero) old = refl
number (pos (suc n)) old = ground arith
number (negsuc n) old = refl

texts : (new old : Bytes) → unless_empty new old ≡ text_or new old
texts [] old = refl
texts (c ∷ s) old = refl

-- Let a group `-each` be read without a time out in it, from the initial options. Applied to the
-- options of an engine, it replaces each number and text that it gives, adds its options behind the
-- engine's, and leaves the rest, except that the time out becomes the default of 4000 ms, whatever
-- the engine was given.
pub options_parse_eo-engine_options_apply :
    (c : Libc) (args rest : List Bytes) (each eo : EngineOptions)
    → is_untimed args ≡ true
    → options_parse_eo c args engine_options_init ≡ some (rest, each)
    → engine_options_apply each eo ≡ record {
      cmd = text_or each.cmd eo.cmd;
      name = text_or each.name eo.name;
      vec_options = eo.vec_options ++ each.vec_options;
      time = given_or each.time eo.time;
      increment = given_or each.increment eo.increment;
      movetime = given_or each.movetime eo.movetime;
      nodes = given_or each.nodes eo.nodes;
      time_out = pos 4000;
      depth = given_or each.depth eo.depth;
      movestogo = given_or each.movestogo eo.movestogo;
    }
unfolding options_parse_eo engine_options_apply engine_options_init
options_parse_eo-engine_options_apply c args rest each eo quiet h =
    let init : each.time_out ≡ pos 4000 =
      loop_time_out c args rest engine_options_init each quiet h in
    cc (
      init,
      texts each.cmd eo.cmd,
      texts each.name eo.name,
      number each.time eo.time,
      number each.increment eo.increment,
      number each.movetime eo.movetime,
      number each.nodes eo.nodes,
      number each.depth eo.depth,
      number each.movestogo eo.movestogo,
    )
