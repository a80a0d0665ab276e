-- ===== src/Engine/Info.antt =====
-- `engine_parse_info` of src/engine.c.
use c_chess_cli.Common.{
  ℕ, zero, suc, ◌+◌, ◌<◌, ◌≤◌, ◌≡◌, ◌≢◌, arith, [], ◌∷◌, Option, none, some, codes, str_eq, length,
  if◌then◌else◌, Option-cases, inl, inr,
}
use c_chess_cli.Common.Int.{ℤ, pos, negsuc, ◌-ℤ◌, is_neg}
use c_chess_cli.Str.{Bytes, skip, span, str_tok}

pub record Info : Type 0 where
  pub score : ℤ
  pub depth : ℤ
  pub time : ℤ

-- What the code does with an info line: it keeps what it read, or ends the program.
pub data Parsed : Type 0 where
  parsed : Info → Bytes → Parsed
  died : Parsed
  out_of_fuel : Parsed

abbrev pub space : Bytes
space = codes " "

-- `INT16_MIN - moves` or `INT16_MAX - moves`
unfoldable pub mate_score : ℤ → ℤ
mate_score moves = if is_neg moves then negsuc 32767 -ℤ moves else pos 32767 -ℤ moves

module _ (atoi : Bytes → ℤ) where
  -- The value after `score`: the tail and the info, or none where the code ends the program.
  unfoldable pub parse_score : Option Bytes → Info → Option (Option Bytes × Info)
  unfolding mate_score
  parse_score tail info = elim ((str_tok tail [] space).0) [
    | none ↦ some (none, info)
    | some tail' ↦
        let token = (str_tok tail [] space).1 in
        let value = str_tok (some tail') token space in
        if str_eq token (codes "cp")
        then elim (value.0) [
          | none ↦ none
          | some rest ↦ some (some rest, record info { score = atoi value.1 })
        ]
        else if str_eq token (codes "mate")
        then elim (value.0) [
          | none ↦ none
          | some rest ↦ some (some rest, record info { score = mate_score (atoi value.1) })
        ]
        else none
  ]

  -- One turn: what follows the token that was read, or none where the code ends the program.
  unfoldable pub parse_token : Bytes → Bytes → Info → Bytes → Option (Option Bytes × (Info × Bytes))
  unfolding parse_score
  parse_token token tail info pv =
      if str_eq token (codes "depth")
      then (let value = str_tok (some tail) token space in
          elim (value.0) [
            | none ↦ some (none, (info, pv))
            | some rest ↦ some (some rest, (record info { depth = atoi value.1 }, pv))
          ])
      else if str_eq token (codes "score")
      then elim (parse_score (some tail) info) [
        | none ↦ none
        | some (rest, info') ↦ some (rest, (info', pv))
      ]
      else if str_eq token (codes "pv")
      then some (some tail, (info, skip space tail))
      else some (some tail, (info, pv))

  -- Each turn reads a token, so that the length of the line and one are turns enough.
  unfoldable pub parse_info : ℕ → Option Bytes → Info → Bytes → Parsed
  unfolding parse_token
  parse_info zero tail info pv = out_of_fuel
  parse_info (suc fuel) tail info pv = elim ((str_tok tail [] space).0) [
    | none ↦ parsed info pv
    | some tail' ↦ elim (parse_token (str_tok tail [] space).1 tail' info pv) [
      | none ↦ died
      | some (rest, (info', pv')) ↦ parse_info fuel rest info' pv'
    ]
  ]

  unfoldable pub engine_parse_info : Bytes → Info → Bytes → Parsed
  unfolding parse_info
  engine_parse_info tail info pv = parse_info (length tail + 1) (some tail) info pv

-- What `skip` and `span` leave is no longer than the string.
length-skip : (delim s : Bytes) → length (skip delim s) ≤ length s
unfolding skip
length-skip delim [] = omega arith
length-skip delim (c ∷ s) = ground (arith, length-skip delim s)

length-span : (delim s : Bytes) → length (span delim s).0 + length (span delim s).1 ≡ length s
unfolding span
length-span delim [] = omega arith
length-span delim (c ∷ s) = ground (arith, length-span delim s)

-- A token takes at least one byte.
length-str_tok :
    (s token delim : Bytes) {tail : Bytes}
    → (str_tok (some s) token delim).0 ≡ some tail
    → length tail < length s
unfolding str_tok
length-str_tok s token delim h =
    ground (arith, length-skip delim s, length-span delim (skip delim s))

-- The turns that a tail may take.
abbrev turns : Option Bytes → ℕ
turns none = 1
turns (some s) = length s + 1

turns-str_tok : (t : Option Bytes) (token delim : Bytes) → turns (str_tok t token delim).0 ≤ turns t
unfolding str_tok
turns-str_tok none token delim = omega arith
turns-str_tok (some s) token delim =
    ground (arith, length-skip delim s, length-span delim (skip delim s))

module _ (atoi : Bytes → ℤ) where
  turns-parse_score :
      (s : Bytes) (info info' : Info) (rest : Option Bytes)
      → parse_score atoi (some s) info ≡ some (rest, info')
      → turns rest ≤ length s + 1
  unfolding parse_score
  turns-parse_score s info info' rest h = elim (Option-cases (str_tok (some s) [] space).0) [
    | inl e ↦ ground (arith, turns-str_tok (some s) [] space)
    | inr (tail, e) ↦ ground (
      arith,
      length-str_tok s [] space e,
      turns-str_tok (some tail) (str_tok (some s) [] space).1 space,
    )
  ]

  turns-parse_token :
      (token s : Bytes) (info info' : Info) (pv pv' : Bytes) (rest : Option Bytes)
      → parse_token atoi token s info pv ≡ some (rest, (info', pv'))
      → turns rest ≤ length s + 1
  unfolding parse_token
  turns-parse_token token s info info' pv pv' rest h =
      elim (Option-cases (parse_score atoi (some s) info)) [
        | inl e ↦ ground (arith, turns-str_tok (some s) token space)
        | inr ((rest', info''), e) ↦
            ground
              (arith, turns-str_tok (some s) token space, turns-parse_score s info info'' rest' e)
      ]

  parse_info-ends :
      (fuel : ℕ) (t : Option Bytes) (info : Info) (pv : Bytes)
      → turns t ≤ fuel
      → parse_info atoi fuel t info pv ≢ out_of_fuel
  unfolding parse_info
  parse_info-ends zero none info pv h = absurd (omega arith)
  parse_info-ends zero (some s) info pv h = absurd (omega arith)
  parse_info-ends (suc fuel) none info pv h = unfold str_tok in ground arith
  parse_info-ends (suc fuel) (some s) info pv h =
      elim (Option-cases (str_tok (some s) [] space).0) [
        | inl e ↦ rw (e, parse_info) (ground arith)
        | inr (tail, e) ↦
            rw (e, parse_info)
              (elim (Option-cases (parse_token atoi (str_tok (some s) [] space).1 tail info pv)) [
                | inl d ↦ rw d (ground arith)
                | inr ((rest, (info', pv')), d) ↦ rw d (
                    parse_info-ends fuel rest info' pv' (
                      omega (
                        arith,
                        turns-parse_token (str_tok (some s) [] space).1 tail info info' pv pv' rest
                            d,
                        length-str_tok s [] space e,
                      )))
              ])
      ]

  -- Reading an info line ends: each turn of the loop takes a token off the line.
  pub engine_parse_info-ends :
      (line : Bytes) (info : Info) (pv : Bytes) → engine_parse_info atoi line info pv ≢ out_of_fuel
  unfolding engine_parse_info
  engine_parse_info-ends line info pv =
      parse_info-ends (length line + 1) (some line) info pv (omega arith)
