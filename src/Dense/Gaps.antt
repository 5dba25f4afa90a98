-- ===== src/Dense/Gaps.antt =====
-- moe/dense_weights.cpp, byte_ranges() and subtract_range(): which bytes they cover.
use franken_mo_e_cuda.Prelude.{
  ℕ, ◌≤◌, ◌<◌, ◌≡◌, refl, max, Bool, false, ◌&&◌, ◌||◌, not, List, [], ◌∷◌, ◌++◌, ltb, leb, All,
  arith, Bool-cases, ltb→lt, inl, inr,
}
use franken_mo_e_cuda.Dense.Ranges.{
  Range, leb_range, insert, sort, gaps, byte_ranges, in_range, covers, Ascending,
}

pub covers-append :
    (x : ℕ) (rs qs : List Range) → covers x (rs ++ qs) ≡ (covers x rs || covers x qs)
unfolding covers
covers-append x [] qs = refl
covers-append x (r ∷ rs) qs = ground (arith, covers-append x rs qs)

covers-insert : (x : ℕ) (q : Range) (rs : List Range) → covers x (insert q rs) ≡ covers x (q ∷ rs)
unfolding covers insert
covers-insert x q [] = refl
covers-insert x q (r ∷ rs) = elim (Bool-cases (leb_range q r)) [
  | inl k ↦ rw (k, insert) refl
  | inr k ↦ rw (k, insert) (ground (arith, covers-insert x q rs))
]

covers-sort : (x : ℕ) (rs : List Range) → covers x (sort rs) ≡ covers x rs
unfolding covers sort
covers-sort x [] = refl
covers-sort x (r ∷ rs) = ground (arith, covers-insert x r (sort rs), covers-sort x rs)

-- Every range starts at `lo` or above it; each starts no later than those behind it.
abbrev From : ℕ → List Range → Type 0
From lo = All (λ r. lo ≤ r.0)

abbrev Sorted : List Range → Type 0
Sorted [] = Unit
Sorted (r ∷ rs) = From r.0 rs × Sorted rs

-- The ranges of the experts lie in the file.
abbrev pub InFile : ℕ → List Range → Type 0
InFile file_size = All (λ r. (r.0 ≤ r.1) × (r.1 ≤ file_size))

insert-From : (lo : ℕ) (q : Range) (rs : List Range) → lo ≤ q.0 → From lo rs → From lo (insert q rs)
unfolding insert
insert-From lo q [] h f = (h, tt)
insert-From lo q (r ∷ rs) h f = elim (Bool-cases (leb_range q r)) [
  | inl k ↦ rw (k, insert) (h, f)
  | inr k ↦ rw (k, insert) (f.0, insert-From lo q rs h f.1)
]

From-mono : (lo hi : ℕ) (rs : List Range) → lo ≤ hi → From hi rs → From lo rs
From-mono lo hi [] h f = tt
From-mono lo hi (r ∷ rs) h f = (omega (arith, f.0), From-mono lo hi rs h f.1)

insert-Sorted : (q : Range) (rs : List Range) → Sorted rs → Sorted (insert q rs)
unfolding insert leb_range
insert-Sorted q [] s = (tt, tt)
insert-Sorted q (r ∷ rs) s = elim (Bool-cases (leb_range q r)) [
  | inl k ↦
      let le : q.0 ≤ r.0 = ground (arith, k) in
      rw (k, insert) ((le, From-mono q.0 r.0 rs le s.0), s)
  | inr k ↦
      let le : r.0 ≤ q.0 = ground (arith, k) in
      rw (k, insert) (insert-From r.0 q rs le s.0, insert-Sorted q rs s.1)
]

sort-Sorted : (rs : List Range) → Sorted (sort rs)
unfolding sort
sort-Sorted [] = tt
sort-Sorted (r ∷ rs) = insert-Sorted r (sort rs) (sort-Sorted rs)

insert-InFile : (n : ℕ) (q : Range) (rs : List Range) → InFile n (q ∷ rs) → InFile n (insert q rs)
unfolding insert
insert-InFile n q [] h = h
insert-InFile n q (r ∷ rs) h = elim (Bool-cases (leb_range q r)) [
  | inl k ↦ rw (k, insert) h
  | inr k ↦ rw (k, insert) (h.1.0, insert-InFile n q rs (h.0, h.1.1))
]

sort-InFile : (n : ℕ) (rs : List Range) → InFile n rs → InFile n (sort rs)
unfolding sort
sort-InFile n [] h = tt
sort-InFile n (r ∷ rs) h = insert-InFile n r (sort rs) (h.0, sort-InFile n rs h.1)

covers-From : (x lo : ℕ) (rs : List Range) → From lo rs → x < lo → covers x rs ≡ false
unfolding covers
covers-From x lo [] f h = refl
covers-From x lo (r ∷ rs) f h = ground (arith, f.0, covers-From x lo rs f.1 h)

-- A range of the experts with a gap in front of it, and one with none.
gap_step :
    (x at n : ℕ) (r : Range) (later rest : Bool)
    → at < r.0
    → (r.0 ≤ r.1) × (r.1 ≤ n)
    → rest ≡ ((leb (max at r.1) x && ltb x n) && not later)
    → (x < r.0 → later ≡ false)
    → (in_range x (at, r.0) || rest) ≡ ((leb at x && ltb x n) && not (in_range x r || later))
gap_step x at n r later rest k h e f = elim (Bool-cases (ltb x r.0)) [
  | inl below ↦ rw (e, f (ltb→lt _ _ below)) (ground (arith, below))
  | inr above ↦ rw e (ground (arith, above))
]

no_gap_step :
    (x at n : ℕ) (r : Range) (later rest : Bool)
    → r.0 ≤ at
    → (r.0 ≤ r.1) × (r.1 ≤ n)
    → rest ≡ ((leb (max at r.1) x && ltb x n) && not later)
    → rest ≡ ((leb at x && ltb x n) && not (in_range x r || later))
no_gap_step x at n r later rest k h e = rw e (ground arith)

gaps-covers :
    (x at n : ℕ) (rs : List Range)
    → Sorted rs
    → InFile n rs
    → covers x (gaps at rs n) ≡ ((leb at x && ltb x n) && not (covers x rs))
unfolding covers gaps
gaps-covers x at n [] s h = ground arith
gaps-covers x at n (r ∷ rs) s h =
    let rest = gaps-covers x (max at r.1) n rs s.1 h.1 in
    elim (Bool-cases (ltb at r.0)) [
      | inl k ↦
          rw (k, gaps)
            (gap_step x at n r (covers x rs) _ (ltb→lt _ _ k) h.0 rest (covers-From x r.0 rs s.0))
      | inr k ↦ rw (k, gaps) (no_gap_step x at n r (covers x rs) _ (ground (arith, k)) h.0 rest)
    ]

pub Ascending-from : (lo hi : ℕ) (rs : List Range) → lo ≤ hi → Ascending hi rs → Ascending lo rs
Ascending-from lo hi [] h a = tt
Ascending-from lo hi (r ∷ rs) h a = (omega (arith, a.0), a.1, a.2)

gaps-Ascending : (at n : ℕ) (rs : List Range) → InFile n rs → Ascending at (gaps at rs n)
unfolding gaps
gaps-Ascending at n [] h = ground arith
gaps-Ascending at n (r ∷ rs) h = elim (Bool-cases (ltb at r.0)) [
  | inl k ↦
      rw (k, gaps)
        (
          omega arith,
          ground (arith, k),
          Ascending-from r.0 (max at r.1) _ (omega (arith, h.0.0))
              (gaps-Ascending (max at r.1) n rs h.1),
        )
  | inr k ↦
      rw (k, gaps)
        (Ascending-from at (max at r.1) _ (omega arith) (gaps-Ascending (max at r.1) n rs h.1))
]

-- The dense ranges of a file cover exactly the bytes of the file that are in no range of the experts, as
-- ranges in ascending order that are not empty and do not meet. The ranges of the experts lie in the
-- file; they may be in any order, overlap or be empty.
pub byte_ranges-covers :
    (n : ℕ) (rs : List Range)
    → InFile n rs
    → ((x : ℕ) → covers x (byte_ranges rs n) ≡ (ltb x n && not (covers x rs)))
      × Ascending 0 (byte_ranges rs n)
unfolding byte_ranges
byte_ranges-covers n rs h = (
  λ x.
      ground (
        arith,
        gaps-covers x 0 n (sort rs) (sort-Sorted rs) (sort-InFile n rs h),
        covers-sort x rs,
      ),
  gaps-Ascending 0 n (sort rs) (sort-InFile n rs h),
)
