-- ===== src/Jobs/Pairs.antt =====
-- Which engines play each other.
use c_chess_cli.Common.{
  ℕ, suc, ◌+◌, ◌-◌, ◌≡◌, ◌∙◌, arith, Bool, true, false, List, [], ◌∷◌, ◌++◌, for_loop, for_loop_inv,
  ◌==◌, ltb, leb, ◌&&◌, if◌then◌else◌,
}
use c_chess_cli.Jobs.{
  Result, vec_push, new_result, gauntlet_results, round_robin_results, job_queue_init,
}

-- How many results are for a pair of engines.
unfoldable pub occurs : ℕ → ℕ → List Result → ℕ
occurs i j [] = 0
occurs i j (r ∷ rs) =
    let rest = occurs i j rs in if r.ei.0 == i && r.ei.1 == j then suc rest else rest

occurs-append :
    (i j : ℕ) (rs : List Result) (x : Result)
    → occurs i j (rs ++ x ∷ []) ≡ occurs i j rs + (if x.ei.0 == i && x.ei.1 == j then 1 else 0)
unfolding occurs
occurs-append i j [] x = ground arith
occurs-append i j (r ∷ rs) x = ground (arith, occurs-append i j rs x)

occurs-push :
    (i j e1 e2 : ℕ) (rs : List Result)
    → occurs i j (vec_push rs (new_result e1 e2))
      ≡ occurs i j rs + (if e1 == i && e2 == j then 1 else 0)
unfolding vec_push new_result
occurs-push i j e1 e2 rs = occurs-append i j rs _

-- The pairs `(e1, e2)` with `lo ≤ e2 < lo + n`.
inner_loop :
    (i j e1 lo n : ℕ) (rs : List Result)
    → occurs i j (for_loop lo n (λ e2 rs. vec_push rs (new_result e1 e2)) rs)
      ≡ occurs i j rs + (if e1 == i && (leb lo j && ltb j (lo + n)) then 1 else 0)
inner_loop i j e1 lo n rs =
    for_loop_inv
      (λ k ts.
        occurs i j ts ≡ occurs i j rs + (if e1 == i && (leb lo j && ltb j (lo + k)) then 1 else 0))
      (λ e2 rs. vec_push rs (new_result e1 e2)) lo n rs (ground arith)
      (λ k ts l e. ground (arith, occurs-push i j e1 (lo + k) ts))

round_robin_pairs :
    (i j engines : ℕ)
    → occurs i j (round_robin_results engines) ≡ (if ltb i j && ltb j engines then 1 else 0)
unfolding round_robin_results
round_robin_pairs i j engines =
    for_loop_inv (λ k ts. occurs i j ts ≡ (if ltb i k && (ltb i j && ltb j engines) then 1 else 0))
      (λ e1 rs. for_loop (e1 + 1) (engines - (e1 + 1)) (λ e2 rs. vec_push rs (new_result e1 e2)) rs)
      0 (engines - 1) [] (unfold occurs in ground arith)
      (λ k ts l e. ground (arith, inner_loop i j (0 + k) (0 + k + 1) (engines - (0 + k + 1)) ts))
    ∙ ground arith

-- In a tournament of `engines` engines, the pair `(i, j)` has exactly one result if `i < j`, both
-- are engines and, in a gauntlet, `i` is the first engine; otherwise it has none.
pub job_queue_init-occurs :
    (engines rounds games i j : ℕ) (gauntlet : Bool)
    → occurs i j (job_queue_init engines rounds games gauntlet).results
      ≡ (if ltb i j && (ltb j engines && (if gauntlet then i == 0 else true)) then 1 else 0)
unfolding job_queue_init gauntlet_results
job_queue_init-occurs engines rounds games i j true =
    inner_loop i j 0 1 (engines - 1) [] ∙ unfold occurs in ground arith
job_queue_init-occurs engines rounds games i j false = round_robin_pairs i j engines ∙ ground arith
