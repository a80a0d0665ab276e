-- ===== src/Options/Line/Accepted.antt =====
-- What the options satisfy that the program accepts.
use c_chess_cli.Common.{
  ℕ, zero, suc, ◌≤◌, ◌≡◌, refl, arith, true, false, not, ◌||◌, ◌&&◌, List, [], ◌∷◌, Option, none,
  some, codes, map, str_eq, length, ◌==◌, ltb, if◌then◌else◌, if_both, Bool-cases, Option-cases,
  inl, inr,
}
use c_chess_cli.Common.Int.{ℤ, pos, ltℤb}
use c_chess_cli.Str.{Bytes}
use c_chess_cli.Libc.{Libc}
use c_chess_cli.Sprt.{sprt_validate}
use c_chess_cli.Options.{
  Options, EngineOptions, option_loop, engine_options_init, engine_options_apply,
}
use c_chess_cli.Options.Parse.{
  Adjudication, options_parse_sample, options_parse_eo, options_parse_openings, openings_token,
  options_parse_adjudication, options_parse_sprt, options_init, sprt_token, sample_token, eo_token,
  adjudication_token,
}
use c_chess_cli.Options.Line.{
  Parsing, Outcome, ok, died, out_of_fuel, with_group, next_int, parse_concurrency, parse_pgn,
  option_turn, options_loop, options_check, options_parse,
}

-- If there is a value, it satisfies a predicate.
abbrev IfSome {ℓ κ} : {A : Type ℓ} → (A → Type κ) → Option A → Type κ
IfSome P none = Unit
IfSome P (some a) = P a

IfSome-any : {A : Type 0} (m : Option A) → IfSome (λ a. Unit {0}) m
IfSome-any none = tt
IfSome-any (some a) = tt

abbrev Left {ℓ κ} : {S : Type ℓ} → ℕ → (S → Type κ) → List Bytes × S → Type κ
Left n P t = (length t.0 ≤ n) × P t.1

Left-suc {ℓ κ} :
    {S : Type ℓ} (P : S → Type κ) (n : ℕ) (m : Option (List Bytes × S))
    → IfSome (Left n P) m
    → IfSome (Left (suc n) P) m
Left-suc P n none h = tt
Left-suc P n (some t) (l, p) = (omega arith, p)

-- The arguments that a group leaves are no more than there were, and what an argument keeps of the
-- state, the group keeps.
module _ {ℓ κ} {S : Type ℓ} (P : S → Type κ) (parse : Bytes → S → Option S)
    (keep : (arg : Bytes) (s : S) → P s → IfSome P (parse arg s)) where
  option_loop-Left :
      (args : List Bytes) (s : S) → P s → IfSome (Left (length args) P) (option_loop parse args s)
  unfolding option_loop
  option_loop-Left [] s p = (omega arith, p)
  option_loop-Left ([] ∷ args) s p = elim (Option-cases (parse [] s)) [
    | inl e ↦ rw (e, option_loop, IfSome) tt
    | inr (s', e) ↦
        rw (e, option_loop, IfSome)
          (Left-suc P (length args) (option_loop parse args s')
            (option_loop-Left args s' (rw e at (keep [] s p))))
  ]
  option_loop-Left ((c ∷ arg) ∷ args) s p = elim (Bool-cases (c == 45)) [
    | inl d ↦ rw (d, option_loop, IfSome) (omega arith, p)
    | inr d ↦ elim (Option-cases (parse (c ∷ arg) s)) [
      | inl e ↦ rw (d, e, option_loop, IfSome) tt
      | inr (s', e) ↦
          rw (d, e, option_loop, IfSome)
            (Left-suc P (length args) (option_loop parse args s')
              (option_loop-Left args s' (rw e at (keep (c ∷ arg) s p))))
    ]
  ]

option_loop-length :
    {S : Type 0} (parse : Bytes → S → Option S) (args : List Bytes) (s : S)
    → IfSome (Left (length args) (λ s. Unit {0})) (option_loop parse args s)
option_loop-length parse args s =
    option_loop-Left (λ s. Unit {0}) parse (λ arg s' p. IfSome-any (parse arg s')) args s tt

module _ (c : Libc) where
  open c use {Double, atoi}

  -- At least one worker, and a test that makes sense if there is one.
  abbrev Sound : Options Double → Type 0
  Sound o =
      (ltℤb o.concurrency (pos 1) ≡ false) × ((not o.sprt || sprt_validate c o.sprt_param) ≡ true)

  openings_token-Sound :
      (arg : Bytes) (o : Options Double) → Sound o → IfSome Sound (openings_token c arg o)
  unfolding openings_token
  openings_token-Sound arg o h = ground arith

  -- What one turn of the loop leaves of the arguments, and of the options.
  abbrev Kept : ℕ → List Bytes × Parsing Double → Type 0
  Kept n = Left n (λ p. Sound p.o)

  with_group-Kept :
      {S : Type 0} (P : S → Type 0) (n : ℕ) (m : Option (List Bytes × S)) (f : S → Parsing Double)
      → IfSome (Left n P) m
      → ((s : S) → P s → Sound (f s).o)
      → IfSome (Kept n) (with_group m f)
  with_group-Kept P n none f h k = tt
  with_group-Kept P n (some (rest, s)) f (l, p) k = (l, k s p)

  parse_sprt-Left :
      (args : List Bytes) (o : Options Double)
      → Sound o
      → IfSome (Left (length args) Sound) (options_parse_sprt c args o)
  unfolding options_parse_sprt
  parse_sprt-Left args o h =
      let left = option_loop-length (sprt_token c) args o.sprt_param in
      elim (Option-cases (option_loop (sprt_token c) args o.sprt_param)) [
        | inl e ↦ rw (e, options_parse_sprt, IfSome) tt
        | inr ((rest, sp), e) ↦
            let l : Left (length args) (λ s. Unit {0}) (rest, sp) = rw e at left in
            rw (e, options_parse_sprt, IfSome)
              (elim (Bool-cases (sprt_validate c sp)) [
                | inl v ↦ rw (v, IfSome) (l.0, (h.0, v))
                | inr v ↦ rw (v, IfSome) tt
              ])
      ]

  parse_sample-Left :
      (args : List Bytes) (o : Options Double)
      → Sound o
      → IfSome (Left (length args) Sound) (options_parse_sample c args o)
  unfolding options_parse_sample
  parse_sample-Left args o h =
      let left = option_loop-length (sample_token c) args o.sp in
      elim (Option-cases (option_loop (sample_token c) args o.sp)) [
        | inl e ↦ rw (e, options_parse_sample, IfSome) tt
        | inr ((rest, sp), e) ↦
            let l : Left (length args) (λ s. Unit {0}) (rest, sp) = rw e at left in
            rw (e, options_parse_sample, IfSome) (l.0, h)
      ]

  parse_openings-Left :
      (args : List Bytes) (o : Options Double)
      → Sound o
      → IfSome (Left (length args) Sound) (options_parse_openings c args o)
  unfolding options_parse_openings
  parse_openings-Left args o h =
      option_loop-Left Sound (openings_token c) openings_token-Sound args o h

  parse_eo-Left :
      (args : List Bytes) (eo : EngineOptions)
      → IfSome (Left (length args) (λ s. Unit {0})) (options_parse_eo c args eo)
  unfolding options_parse_eo
  parse_eo-Left args eo = option_loop-length (eo_token c) args eo

  parse_adjudication-Left :
      (args : List Bytes) (a : Adjudication)
      → IfSome (Left (length args) (λ s. Unit {0})) (options_parse_adjudication c args a)
  unfolding options_parse_adjudication
  parse_adjudication-Left args a = option_loop-length (adjudication_token c) args a

  parse_concurrency-Kept :
      (args : List Bytes) (p : Parsing Double)
      → Sound p.o
      → IfSome (Kept (length args)) (parse_concurrency c args p)
  unfolding parse_concurrency
  parse_concurrency-Kept [] p h = tt
  parse_concurrency-Kept (arg ∷ args) p h = ground arith

  parse_pgn-Kept :
      (args : List Bytes) (p : Parsing Double)
      → Sound p.o
      → IfSome (Kept (length args)) (parse_pgn c args p)
  unfolding parse_pgn
  parse_pgn-Kept [] p h = tt
  parse_pgn-Kept (file ∷ []) p h = (omega arith, h)
  parse_pgn-Kept (file ∷ (arg ∷ args)) p h = ground arith

  next_int-Kept :
      (args : List Bytes) (f : ℤ → Parsing Double)
      → ((n : ℤ) → Sound (f n).o)
      → IfSome (Kept (length args)) (next_int c args f)
  next_int-Kept [] f h = tt
  next_int-Kept (arg ∷ args) f h = (omega arith, h (atoi arg))

  option_turn-Kept :
      (arg : Bytes) (args : List Bytes) (p : Parsing Double)
      → Sound p.o
      → IfSome (Kept (length args)) (option_turn c arg args p)
  unfolding option_turn
  option_turn-Kept arg args p h =
      if_both (IfSome (Kept (length args))) (str_eq arg (codes "-repeat")) _ _ (omega arith, h)
        (if_both (IfSome (Kept (length args))) (str_eq arg (codes "-gauntlet")) _ _ (omega arith, h)
          (if_both (IfSome (Kept (length args))) (str_eq arg (codes "-log")) _ _ (omega arith, h)
            (if_both (IfSome (Kept (length args))) (str_eq arg (codes "-concurrency")) _ _
              (parse_concurrency-Kept args p h)
              (if_both (IfSome (Kept (length args))) (str_eq arg (codes "-each")) _ _
                (with_group-Kept (λ s. Unit {0}) (length args) _ _ (parse_eo-Left args p.each)
                  (λ s u. h))
                (if_both (IfSome (Kept (length args))) (str_eq arg (codes "-engine")) _ _
                  (with_group-Kept (λ s. Unit {0}) (length args) _ _
                    (parse_eo-Left args engine_options_init) (λ s u. h))
                  (if_both (IfSome (Kept (length args))) (str_eq arg (codes "-games")) _ _
                    (next_int-Kept args _ (λ n. h))
                    (if_both (IfSome (Kept (length args))) (str_eq arg (codes "-rounds")) _ _
                      (next_int-Kept args _ (λ n. h))
                      (if_both (IfSome (Kept (length args))) (str_eq arg (codes "-openings")) _ _
                        (with_group-Kept Sound (length args) _ _ (parse_openings-Left args p.o h)
                          (λ o s. s))
                        (if_both (IfSome (Kept (length args))) (str_eq arg (codes "-pgn")) _ _
                          (parse_pgn-Kept args p h)
                          (if_both (IfSome (Kept (length args))) (str_eq arg (codes "-resign")) _ _
                            (with_group-Kept (λ s. Unit {0}) (length args) _ _
                              (parse_adjudication-Left args _) (λ s u. h))
                            (if_both (IfSome (Kept (length args))) (str_eq arg (codes "-draw")) _ _
                              (with_group-Kept (λ s. Unit {0}) (length args) _ _
                                (parse_adjudication-Left args _) (λ s u. h))
                              (if_both (IfSome (Kept (length args))) (str_eq arg (codes "-sprt")) _
                                _
                                (with_group-Kept Sound (length args) _ _
                                  (parse_sprt-Left args p.o h) (λ o s. s))
                                (if_both (IfSome (Kept (length args)))
                                  (str_eq arg (codes "-sample")) _ _
                                  (with_group-Kept Sound (length args) _ _
                                    (parse_sample-Left args p.o h) (λ o s. s))
                                  (tt))))))))))))))

  -- The loop ends, and if the program is not ended, the options are sound.
  abbrev Fine : Outcome (Parsing Double) → Type 0
  Fine (ok p) = Sound p.o
  Fine died = Unit
  Fine out_of_fuel = ⊥

  options_loop-Fine :
      (fuel : ℕ) (args : List Bytes) (p : Parsing Double)
      → length args ≤ fuel
      → Sound p.o
      → Fine (options_loop c fuel args p)
  unfolding options_loop
  options_loop-Fine zero [] p l h = h
  options_loop-Fine (suc fuel) [] p l h = h
  options_loop-Fine zero (arg ∷ args) p l h = absurd (omega arith)
  options_loop-Fine (suc fuel) (arg ∷ args) p l h = elim (Option-cases (option_turn c arg args p)) [
    | inl e ↦ rw (e, options_loop, Fine) tt
    | inr ((rest, p'), e) ↦
        let kept : Kept (length args) (rest, p') = rw e at (option_turn-Kept arg args p h) in
        rw (e, options_loop) (options_loop-Fine fuel rest p' (omega (arith, kept.0)) kept.1)
  ]

  -- What is accepted.
  abbrev pub Accepted : Outcome (List EngineOptions × Options Double) → Type 0
  Accepted (ok (engines, o)) =
      (2 ≤ length engines)
      × (ltℤb o.concurrency (pos 1) ≡ false)
      × ((not o.sprt || ((length engines == 2) && sprt_validate c o.sprt_param)) ≡ true)
  Accepted died = Unit
  Accepted out_of_fuel = ⊥

  check-Accepted :
      (engines : List EngineOptions) (o : Options Double)
      → Sound o
      → Accepted (
          if ltb (length engines) 2
          then died
          else if ltb 2 (length engines) && o.sprt
          then died
          else ok (engines, o))
  check-Accepted engines o h = elim (Bool-cases (ltb (length engines) 2)) [
    | inl e ↦ rw (e, Accepted) tt
    | inr e ↦ elim (Bool-cases (ltb 2 (length engines) && o.sprt)) [
      | inl d ↦ rw (e, d, Accepted) tt
      | inr d ↦ rw (e, d, Accepted) (ground arith, h.0, ground (arith, h.1))
    ]
  ]

  finish-Accepted :
      (m : Outcome (Parsing Double))
      → Fine m
      → Accepted (elim m [ ok p ↦ options_check c p | died ↦ died | out_of_fuel ↦ out_of_fuel ])
  unfolding options_check
  finish-Accepted (ok p) h =
      check-Accepted (if p.each_set then map (engine_options_apply p.each) p.engines else p.engines)
        p.o h
  finish-Accepted died h = tt
  finish-Accepted out_of_fuel h = h

  -- Whatever the arguments are, reading them ends. If the program goes on, there are two engines at
  -- least and one worker at least, and if a sequential test is asked for, there are two engines
  -- exactly and the parameters of the test are valid.
  pub options_parse-Accepted :
      (args : List Bytes) → Accepted (options_parse c args (options_init c))
  unfolding options_parse options_init
  options_parse-Accepted args =
      let p : Parsing Double = record {
        o = options_init c;
        engines = [];
        each = engine_options_init;
        each_set = false;
      } in
      finish-Accepted (options_loop c (length args) args p)
        (options_loop-Fine (length args) args p (omega arith) (refl, refl))
