-- ===== src/SeqWriter/Queue.antt =====
-- The queue is ascending; inserting into it and cutting its front off, seen as a finite map.
use c_chess_cli.Common.{
  ℕ, zero, suc, ◌+◌, ◌≤◌, ◌<◌, ◌≡◌, ◌≢◌, refl, ap₂, ◌∙◌, arith, List, [], ◌∷◌, ◌++◌, ◌==◌,
  if◌then◌else◌, take, drop, Option, none, some, Bool-cases, inl, inr,
}
use c_chess_cli.SeqWriter.{Bytes, SeqStr, insert, chunk_len, texts}

-- The text queued under an index.
unfoldable pub lookup : ℕ → List SeqStr → Option Bytes
lookup i [] = none
lookup i (y ∷ ys) = if y.idx == i then some y.str else lookup i ys

-- Strictly ascending, from `lo` on.
abbrev pub AscFrom : ℕ → List SeqStr → Type 0
AscFrom lo [] = Unit
AscFrom lo (y ∷ ys) = (lo ≤ y.idx) × AscFrom (y.idx + 1) ys

pub AscFrom-lower : (m n : ℕ) (q : List SeqStr) → m ≤ n → AscFrom n q → AscFrom m q
AscFrom-lower m n [] h a = tt
AscFrom-lower m n (y ∷ ys) h a = (omega arith, a.1)

pub lookup_below : (i lo : ℕ) (q : List SeqStr) → i < lo → AscFrom lo q → lookup i q ≡ none
unfolding lookup
lookup_below i lo [] h a = refl
lookup_below i lo (y ∷ ys) h a = ground (arith, lookup_below i (y.idx + 1) ys)

pub lookup-insert :
    (i lo : ℕ) (x : SeqStr) (q : List SeqStr)
    → AscFrom lo q
    → lookup x.idx q ≡ none
    → lookup i (insert x q) ≡ (if x.idx == i then some x.str else lookup i q)
unfolding lookup insert
lookup-insert i lo x [] a e = refl
lookup-insert i lo x (y ∷ ys) a e =
    ground (arith, lookup-insert i (y.idx + 1) x ys, lookup_below i (y.idx + 1) ys)

pub insert-AscFrom :
    (lo : ℕ) (x : SeqStr) (q : List SeqStr)
    → AscFrom lo q
    → lo ≤ x.idx
    → lookup x.idx q ≡ none
    → AscFrom lo (insert x q)
unfolding lookup insert
insert-AscFrom lo x [] a h e = (h, tt)
insert-AscFrom lo x (y ∷ ys) a h e = ground (arith, insert-AscFrom (y.idx + 1) x ys)

-- The text of an entry of a finite map.
abbrev pub text : Option Bytes → Bytes
text none = []
text (some s) = s

-- The texts with the `k` indices from `n` on, one after the other.
unfoldable pub joined : (ℕ → Option Bytes) → ℕ → ℕ → Bytes
joined g n zero = []
joined g n (suc k) = text (g n) ++ joined g (n + 1) k

pub joined_ext :
    (g h : ℕ → Option Bytes) (n k : ℕ)
    → ((i : ℕ) → n ≤ i → i < n + k → g i ≡ h i)
    → joined g n k ≡ joined h n k
unfolding joined
joined_ext g h n zero e = refl
joined_ext g h n (suc k) e =
    ap₂ (λ a b. text a ++ b) (e n (omega arith) (omega arith))
      (joined_ext g h (n + 1) k (λ i p q. e i (omega arith) (omega arith)))

-- What a flush of the queue from `n` on does.
pub record Flush (n : ℕ) (q : List SeqStr) (k : ℕ) : Type 0 where
  pub written : texts (take k q) ≡ joined (λ i. lookup i q) n k
  pub all_there : (i : ℕ) → n ≤ i → i < n + k → lookup i q ≢ none
  pub rest_above : AscFrom (n + k + 1) (drop k q)
  pub rest_same : (i : ℕ) → n + k ≤ i → lookup i (drop k q) ≡ lookup i q

here_first : (n : ℕ) (y : SeqStr) (ys : List SeqStr) → y.idx ≡ n → some y.str ≡ lookup n (y ∷ ys)
unfolding lookup
here_first n y ys e = ground arith

Flush-cons :
    (n : ℕ) (y : SeqStr) (ys : List SeqStr) (k : ℕ)
    → y.idx ≡ n
    → Flush (n + 1) ys k
    → Flush n (y ∷ ys) (suc k)
unfolding texts joined lookup
Flush-cons n y ys k e f = record {
  written =
      ap₂ (λ a b. text a ++ b) (here_first n y ys e)
        (f.written
          ∙ joined_ext (λ i. lookup i ys) (λ i. lookup i (y ∷ ys)) (n + 1) k
              (λ i p q. ground arith));
  all_there = λ i p q. ground (arith, f.all_there i);
  rest_above = AscFrom-lower _ _ (drop k ys) (omega arith) f.rest_above;
  rest_same = λ i p. ground (arith, f.rest_same i);
}

pub chunk_len-Flush : (n : ℕ) (q : List SeqStr) → AscFrom n q → Flush n q (chunk_len n q)
unfolding chunk_len
chunk_len-Flush n [] a = record {
  written = unfold texts joined in refl;
  all_there = λ i p q. absurd (omega arith);
  rest_above = tt;
  rest_same = λ i p. refl;
}
chunk_len-Flush n (y ∷ ys) a = elim (Bool-cases (y.idx == n)) [
  | inl hit ↦ rw hit (
      Flush-cons n y ys _ (ground arith)
        (chunk_len-Flush (n + 1) ys (AscFrom-lower (n + 1) (y.idx + 1) ys (ground arith) a.1)))
  | inr miss ↦ rw miss (record {
    written = unfold texts joined in refl;
    all_there = λ i p q. absurd (omega arith);
    rest_above = ground arith;
    rest_same = λ i p. refl;
  })
]
