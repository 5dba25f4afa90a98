-- ===== src/Dense/Subtract.antt =====
-- moe/dense_weights.cpp, subtract_range(): the bytes that are left.
use franken_mo_e_cuda.Prelude.{
  ℕ, ◌≤◌, ◌<◌, ◌≡◌, refl, Bool, ◌&&◌, ◌||◌, not, List, [], ◌∷◌, ◌++◌, ltb, leb, arith, Bool-cases,
  inl, inr,
}
use franken_mo_e_cuda.Dense.Ranges.{Range, cut, subtract_range, in_range, covers, Ascending}
use franken_mo_e_cuda.Dense.Gaps.{covers-append, Ascending-from}

cut-covers :
    (x a b : ℕ) (r : Range) → covers x (cut a b r) ≡ (in_range x r && not (in_range x (a, b)))
unfolding cut covers
cut-covers x a b r = elim (Bool-cases (leb b r.0 || leb r.1 a)) [
  | inl k ↦ rw (k, cut) (ground (arith, k))
  | inr k ↦ rw (k, cut) (ground (arith, k))
]

both_left : (p q m : Bool) → ((p && m) || (q && m)) ≡ ((p || q) && m)
both_left p q m = ground arith

subtract_range-covers :
    (x a b : ℕ) (rs : List Range)
    → covers x (subtract_range a b rs) ≡ (covers x rs && not (in_range x (a, b)))
unfolding covers subtract_range
subtract_range-covers x a b [] = refl
subtract_range-covers x a b (r ∷ rs) =
    rw
      (
        covers-append x (cut a b r) (subtract_range a b rs),
        cut-covers x a b r,
        subtract_range-covers x a b rs,
      )
      (both_left (in_range x r) (covers x rs) (not (in_range x (a, b))))

cut-Ascending :
    (lo a b : ℕ) (r : Range) (rs : List Range)
    → a ≤ b
    → lo ≤ r.0
    → r.0 < r.1
    → Ascending r.1 rs
    → Ascending lo (cut a b r ++ rs)
unfolding cut
cut-Ascending lo a b r rs h lo_le lt up = elim (Bool-cases (leb b r.0 || leb r.1 a)) [
  | inl k ↦ rw (k, cut) (lo_le, lt, up)
  | inr k ↦
      rw (k, cut)
        (elim (Bool-cases (ltb r.0 a)) [
          | inl p ↦ rw p (elim (Bool-cases (ltb b r.1)) [
            | inl q ↦ rw q (lo_le, ground (arith, p), (h, ground (arith, q), up))
            | inr q ↦
                rw q (lo_le, ground (arith, p), Ascending-from a r.1 rs (ground (arith, k)) up)
          ])
          | inr p ↦ rw p (elim (Bool-cases (ltb b r.1)) [
            | inl q ↦ rw q (ground (arith, k, lo_le), ground (arith, q), up)
            | inr q ↦ rw q (Ascending-from lo r.1 rs (omega arith) up)
          ])
        ])
]

subtract_range-Ascending :
    (lo a b : ℕ) (rs : List Range) → a ≤ b → Ascending lo rs → Ascending lo (subtract_range a b rs)
unfolding subtract_range
subtract_range-Ascending lo a b [] h up = tt
subtract_range-Ascending lo a b (r ∷ rs) h up =
    cut-Ascending lo a b r (subtract_range a b rs) h up.0 up.1
      (subtract_range-Ascending r.1 a b rs h up.2)

-- Taking [a, b) out of ranges leaves exactly the bytes of theirs outside it; and of ranges that are in
-- ascending order, not empty and do not meet, ranges that are so, if a is not above b.
pub subtract_range_lem :
    (a b : ℕ) (rs : List Range)
    → ((x : ℕ) → covers x (subtract_range a b rs) ≡ (covers x rs && not (in_range x (a, b))))
      × ((lo : ℕ) → a ≤ b → Ascending lo rs → Ascending lo (subtract_range a b rs))
subtract_range_lem a b rs =
    (λ x. subtract_range-covers x a b rs, λ lo h up. subtract_range-Ascending lo a b rs h up)
