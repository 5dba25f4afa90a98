-- ===== src/Dense/Carve.antt =====
-- moe/dense_weights.cpp: which bytes of which shard are dense after tensors were taken out.
use franken_mo_e_cuda.Prelude.{
  ℕ, zero, suc, ◌+◌, ◌≡◌, refl, Bool, false, ◌&&◌, ◌||◌, not, List, [], ◌∷◌, arith, ◌==◌,
}
use franken_mo_e_cuda.Prelude.Int.{pos, negsuc}
use franken_mo_e_cuda.RowStream.TakeOver.{TensorRef}
use franken_mo_e_cuda.Dense.Ranges.{Range, covers, in_range}
use franken_mo_e_cuda.Dense.Subtract.{subtract_range_lem}
use franken_mo_e_cuda.Dense.State.{carve_at, carve}

-- Whether byte `x` of shard `s` is in the ranges.
unfoldable pub covers_at : ℕ → ℕ → List (List Range) → Bool
covers_at s x [] = false
covers_at zero x (rs ∷ rss) = covers x rs
covers_at (suc s) x (rs ∷ rss) = covers_at s x rss

-- Whether it is a byte of the tensor, or of one of the tensors.
unfoldable pub lies : ℕ → ℕ → TensorRef → Bool
lies s x d = elim d.file_idx [
  | pos i ↦ (s == i) && in_range x (d.file_off, d.file_off + d.size)
  | negsuc i ↦ false
]

unfoldable pub any_lies : ℕ → ℕ → List TensorRef → Bool
any_lies s x [] = false
any_lies s x (d ∷ ds) = let rest = any_lies s x ds in lies s x d || rest

carve_at-covers :
    (s x i a b : ℕ) (rss : List (List Range))
    → covers_at s x (carve_at i a b rss)
      ≡ (covers_at s x rss && not ((s == i) && in_range x (a, b)))
unfolding carve_at covers_at
carve_at-covers s x i a b [] = refl
carve_at-covers zero x zero a b (rs ∷ rss) = (subtract_range_lem a b rs).0 x
carve_at-covers (suc s) x zero a b (rs ∷ rss) = ground arith
carve_at-covers zero x (suc i) a b (rs ∷ rss) = ground arith
carve_at-covers (suc s) x (suc i) a b (rs ∷ rss) = ground (arith, carve_at-covers s x i a b rss)

pub carve-covers :
    (s x : ℕ) (d : TensorRef) (rss : List (List Range))
    → covers_at s x (carve d rss) ≡ (covers_at s x rss && not (lies s x d))
unfolding carve lies
carve-covers s x d rss =
    elim d.file_idx
      as (λ i.
        covers_at s x
          (elim i [ pos k ↦ carve_at k d.file_off (d.file_off + d.size) rss | negsuc k ↦ rss ])
        ≡ (covers_at s x rss
            && not (elim i [
              | pos k ↦ (s == k) && in_range x (d.file_off, d.file_off + d.size)
              | negsuc k ↦ false
            ]))) [
              | pos k ↦ carve_at-covers s x k d.file_off (d.file_off + d.size) rss
              | negsuc k ↦ ground arith
            ]
