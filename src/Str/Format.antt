-- ===== src/Str/Format.antt =====
-- The format functions of src/str.c. The variable arguments are a list.
use c_chess_cli.Common.{
  ℕ, zero, suc, ◌≤◌, ◌≡◌, refl, sym, ap, ◌∙◌, arith, Bool, true, false, List, [], ◌∷◌, ◌++◌, ◌==◌,
  if◌then◌else◌, Option, none, some, length, length-append, append-nil, append_assoc,
}
use c_chess_cli.Common.Int.{ℤ, pos, negsuc}
use c_chess_cli.Str.{Bytes, Str, do_str_cat, str_cat_int, str_cat_uint, do_fmt_u, str_clear}

pub data Arg : Type 0 where
  int : ℤ → Arg  -- %i and %I
  uint : ℕ → Arg  -- %u and %U
  string : Bytes → Arg  -- %s and %S

-- `memchr(fmt, '%', bytesLeft)`: what stands before and after the first percent sign.
unfoldable pub split_percent : Bytes → Option (Bytes × Bytes)
split_percent [] = none
split_percent (c ∷ s) =
    if c == 37
    then some ([], s)
    else elim (split_percent s) [ none ↦ none | some (before, behind) ↦ some (c ∷ before, behind) ]

-- One argument, with its specifier. None stands for the failing assertion, and for an argument
-- of another type or none at all, which C leaves undefined.
unfoldable pub cat_arg : Str → ℕ → Arg → Option Str
cat_arg dest c (int i) =
    if c == 105
    then some (str_cat_int dest i)
    else if c == 73
    then some (str_cat_int dest i)
    else none
cat_arg dest c (uint u) =
    if c == 117
    then some (str_cat_uint dest u)
    else if c == 85
    then some (str_cat_uint dest u)
    else none
cat_arg dest c (string s) =
    if c == 115
    then some (do_str_cat dest s)
    else if c == 83
    then some (do_str_cat dest s)
    else none

abbrev pub cat_chunk : Str → Bytes → Str
cat_chunk dest [] = dest
cat_chunk dest (c ∷ s) = do_str_cat dest (c ∷ s)

-- Each turn takes two bytes of the format at least.
unfoldable pub cat_fmt : ℕ → Str → Bytes → List Arg → Option Str
unfolding split_percent cat_arg
cat_fmt zero dest fmt args = some dest
cat_fmt (suc fuel) dest fmt args = elim (split_percent fmt) [
  | none ↦ some (cat_chunk dest fmt)
  | some (before, []) ↦ none
  | some (before, c ∷ behind) ↦ elim args [
    | [] ↦ none
    | arg ∷ args' ↦ elim (cat_arg (cat_chunk dest before) c arg) [
      | none ↦ none
      | some dest' ↦ cat_fmt fuel dest' behind args'
    ]
  ]
]

unfoldable pub do_str_cat_fmt : Str → Bytes → List Arg → Option Str
unfolding cat_fmt
do_str_cat_fmt dest fmt args = cat_fmt (length fmt) dest fmt args

unfoldable pub str_cat_fmt : Str → Bytes → List Arg → Option Str
unfolding do_str_cat_fmt
str_cat_fmt dest fmt args = do_str_cat_fmt dest fmt args

-- `str_resize(dest, 0)` empties the string.
unfoldable pub str_cpy_fmt : Str → Bytes → List Arg → Option Str
unfolding do_str_cat_fmt str_clear
str_cpy_fmt dest fmt args = do_str_cat_fmt (str_clear dest) fmt args

-- A template: text without a percent sign, then an argument, and so on, and text at the end.
pub data Template : Type 0 where
  text : Bytes → Template
  hole : Bytes → (specifier : ℕ) → Arg → Template → Template

abbrev pub format_of : Template → Bytes
format_of (text s) = s
format_of (hole s c arg t) = s ++ 37 ∷ c ∷ format_of t

abbrev pub args_of : Template → List Arg
args_of (text s) = []
args_of (hole s c arg t) = arg ∷ args_of t

abbrev pub print_arg : Arg → Bytes
print_arg (int (pos n)) = do_fmt_u n
print_arg (int (negsuc n)) = 45 ∷ do_fmt_u (suc n)
print_arg (uint n) = do_fmt_u n
print_arg (string s) = s

abbrev pub print : Template → Bytes
print (text s) = s
print (hole s c arg t) = s ++ print_arg arg ++ print t

-- The specifier is one for the type of the argument.
abbrev pub specifies : ℕ → Arg → Bool
specifies c (int i) = if c == 105 then true else c == 73
specifies c (uint u) = if c == 117 then true else c == 85
specifies c (string s) = if c == 115 then true else c == 83

abbrev pub is_plain : Bytes → Bool
is_plain [] = true
is_plain (c ∷ s) = if c == 37 then false else is_plain s

abbrev pub IsTyped : Template → Type 0
IsTyped (text s) = is_plain s ≡ true
IsTyped (hole s c arg t) = (is_plain s ≡ true) × (specifies c arg ≡ true) × IsTyped t

split_plain : (s : Bytes) → is_plain s ≡ true → split_percent s ≡ none
unfolding split_percent
split_plain [] h = refl
split_plain (c ∷ s) h = ground (arith, split_plain s)

split_at : (s r : Bytes) → is_plain s ≡ true → split_percent (s ++ 37 ∷ r) ≡ some (s, r)
unfolding split_percent
split_at [] r h = refl
split_at (c ∷ s) r h = ground (arith, split_at s r)

cat_chunk_text : (dest : Str) (s : Bytes) → (cat_chunk dest s).text ≡ dest.text ++ s
unfolding do_str_cat
cat_chunk_text dest [] = sym (append-nil dest.text)
cat_chunk_text dest (c ∷ s) = refl

-- What an argument appends.
cat_arg_text :
    (dest : Str) (c : ℕ) (arg : Arg)
    → specifies c arg ≡ true
    → (d : Str) × (cat_arg dest c arg ≡ some d) × (d.text ≡ dest.text ++ print_arg arg)
unfolding cat_arg
cat_arg_text dest c (int (pos n)) h =
    (str_cat_int dest (pos n), ground arith, unfold str_cat_int do_str_cat in refl)
cat_arg_text dest c (int (negsuc n)) h =
    (str_cat_int dest (negsuc n), ground arith, unfold str_cat_int do_str_cat in refl)
cat_arg_text dest c (uint n) h =
    (str_cat_uint dest n, ground arith, unfold str_cat_uint do_str_cat in refl)
cat_arg_text dest c (string s) h = (do_str_cat dest s, ground arith, unfold do_str_cat in refl)

join_three : (a b c d u v w : Bytes) → u ≡ a ++ b → v ≡ u ++ c → w ≡ v ++ d → w ≡ a ++ (b ++ c ++ d)
join_three a b c d u v w e e' e'' =
    e''
    ∙ ap (λ x. x ++ d) (e' ∙ ap (λ x. x ++ c) e ∙ append_assoc a b c)
    ∙ append_assoc a (b ++ c) d

cat_fmt-print :
    (fuel : ℕ) (dest : Str) (t : Template)
    → length (format_of t) ≤ fuel
    → IsTyped t
    → (d : Str) × (cat_fmt fuel dest (format_of t) (args_of t) ≡ some d)
      × (d.text ≡ dest.text ++ print t)
unfolding cat_fmt
cat_fmt-print zero dest (text []) h typed = (dest, refl, sym (append-nil dest.text))
cat_fmt-print zero dest (text (c ∷ s)) h typed = absurd (omega arith)
cat_fmt-print zero dest (hole s c arg t) h typed =
    absurd (omega (arith, length-append s (37 ∷ c ∷ format_of t)))
cat_fmt-print (suc fuel) dest (text s) h typed =
    (cat_chunk dest s, rw (split_plain s typed, cat_fmt) refl, cat_chunk_text dest s)
cat_fmt-print (suc fuel) dest (hole s c arg t) h (plain, fits, typed) =
    let (d, e, d_text) = cat_arg_text (cat_chunk dest s) c arg fits in
    let (d', e', d'_text) =
      cat_fmt-print fuel d t (omega (arith, length-append s (37 ∷ c ∷ format_of t))) typed in
    (
      d',
      rw (split_at s (c ∷ format_of t) plain, e, cat_fmt) e',
      join_three dest.text s (print_arg arg) (print t) _ _ _ (cat_chunk_text dest s) d_text d'_text,
    )

-- A template is text without percent signs, with arguments in it, each with a specifier for its
-- type. Printing one by its format and its arguments succeeds; it appends to the string, or puts
-- in place of it, the text with each argument written where its specifier stands, numbers in
-- decimal.
pub do_str_cat_fmt-print :
    (dest : Str) (t : Template)
    → IsTyped t
    → ((d : Str) × (str_cat_fmt dest (format_of t) (args_of t) ≡ some d)
        × (d.text ≡ dest.text ++ print t))
      × ((d : Str) × (str_cpy_fmt dest (format_of t) (args_of t) ≡ some d) × (d.text ≡ print t))
unfolding str_cat_fmt str_cpy_fmt do_str_cat_fmt
do_str_cat_fmt-print dest t typed = (
  cat_fmt-print (length (format_of t)) dest t (omega arith) typed,
  cat_fmt-print (length (format_of t)) (str_clear dest) t (omega arith) typed,
)
