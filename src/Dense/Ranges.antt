-- ===== src/Dense/Ranges.antt =====
-- moe/dense_weights.cpp, byte_ranges() and subtract_range().
use franken_mo_e_cuda.Prelude.{
  ℕ, max, ◌≤◌, ◌<◌, Bool, false, ◌&&◌, ◌||◌, List, [], ◌∷◌, ◌++◌, ltb, leb, ◌==◌, if◌then◌else◌,
}

-- The bytes from `.0` on, up to `.1` and without it.
abbrev pub Range : Type 0
Range = ℕ × ℕ

-- The order of std::pair.
unfoldable pub leb_range : Range → Range → Bool
leb_range q r = ltb q.0 r.0 || ((q.0 == r.0) && leb q.1 r.1)

-- std::sort.
unfoldable pub insert : Range → List Range → List Range
insert q [] = q ∷ []
insert q (r ∷ rs) = let rest = insert q rs in if leb_range q r then q ∷ r ∷ rs else r ∷ rest

unfoldable pub sort : List Range → List Range
sort [] = []
sort (r ∷ rs) = insert r (sort rs)

-- The loop of byte_ranges() from `at` on, and the tail.
unfoldable pub gaps : ℕ → List Range → ℕ → List Range
gaps at [] file_size = if ltb at file_size then (at, file_size) ∷ [] else []
gaps at (r ∷ rs) file_size =
    let rest = gaps (max at r.1) rs file_size in if ltb at r.0 then (at, r.0) ∷ rest else rest

unfoldable pub byte_ranges : List Range → ℕ → List Range
byte_ranges expert_ranges file_size = gaps 0 (sort expert_ranges) file_size

-- What one range leaves when [a, b) is taken out of it.
unfoldable pub cut : ℕ → ℕ → Range → List Range
cut a b r =
    if leb b r.0 || leb r.1 a
    then r ∷ []
    else (if ltb r.0 a then (r.0, a) ∷ [] else []) ++ (if ltb b r.1 then (b, r.1) ∷ [] else [])

unfoldable pub subtract_range : ℕ → ℕ → List Range → List Range
subtract_range a b [] = []
subtract_range a b (r ∷ rs) = cut a b r ++ subtract_range a b rs

-- Whether a byte lies in one of the ranges.
abbrev pub in_range : ℕ → Range → Bool
in_range x r = leb r.0 x && ltb x r.1

unfoldable pub covers : ℕ → List Range → Bool
covers x [] = false
covers x (r ∷ rs) = let rest = covers x rs in in_range x r || rest

-- Ranges in ascending order that are not empty and do not meet, the first not below `lo`.
abbrev pub Ascending : ℕ → List Range → Type 0
Ascending lo [] = Unit
Ascending lo (r ∷ rs) = (lo ≤ r.0) × (r.0 < r.1) × Ascending r.1 rs
