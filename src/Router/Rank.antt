-- ===== src/Router/Rank.antt =====
-- moe/router_hook.cpp, rank_top_k(): a partial selection.
use franken_mo_e_cuda.Prelude.{
  ℕ, zero, suc, min, Option, none, some, List, [], ◌∷◌, ◌++◌, if◌then◌else◌,
}
use franken_mo_e_cuda.Expert.Sequence.{has}
use franken_mo_e_cuda.Config.Float.{Float32, ltb_f}

module _ (scores : ℕ → Float32) where
  -- The body of the scan: `best` is `none` for -1.
  unfoldable pub better : List ℕ → ℕ → Option ℕ → Option ℕ
  better out e none = if has e out then none else some e
  better out e (some best) =
      if has e out then some best else if ltb_f (scores best) (scores e) then some e else some best

  -- The scan of `k` experts from `e` on.
  unfoldable pub scan : List ℕ → ℕ → ℕ → Option ℕ → Option ℕ
  scan out zero e best = best
  scan out (suc k) e best = scan out k (suc e) (better out e best)

  -- The rounds: `n` experts have a score.
  unfoldable pub picks : ℕ → ℕ → List ℕ → List ℕ
  picks n zero out = out
  picks n (suc i) out = elim (scan out n 0 none) [
    | none ↦ out
    | some best ↦ picks n i (out ++ best ∷ [])
  ]

  -- For `k` that is not negative; for a negative one the result is empty, as for 0.
  unfoldable pub rank_top_k : ℕ → ℕ → List ℕ
  rank_top_k n k = picks n (min k n) []
