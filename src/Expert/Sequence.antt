-- ===== src/Expert/Sequence.antt =====
-- Sequences of entry ids: membership as a test, what it says of a cut, and the bytes that a sequence
-- of resident entries accounts for.
use franken_mo_e_cuda.Prelude.{
  ℕ, zero, suc, ◌+◌, ◌/◌, ◌≤◌, ◌<◌, ◌≡◌, refl, sym, ap, Bool, true, false, List, [], ◌∷◌, ◌++◌, All,
  arith, ◌==◌, if◌then◌else◌, length, Bool-cases, inl, inr, ==_iff,
}
use franken_mo_e_cuda.Lru.Segment.{Fresh, Distinct}
use franken_mo_e_cuda.Expert.Layout.{Layout, entry_bytes}

unfoldable pub has : ℕ → List ℕ → Bool
has id [] = false
has id (x ∷ xs) = if id == x then true else has id xs

pub has-append :
    (id : ℕ) (xs ys : List ℕ) → has id (xs ++ ys) ≡ (if has id xs then true else has id ys)
unfolding has
has-append id [] ys = refl
has-append id (x ∷ xs) ys = ground (arith, has-append id xs ys)

pub has-Fresh : (id : ℕ) (xs : List ℕ) → has id xs ≡ false → Fresh id xs
unfolding has
has-Fresh id [] h = tt
has-Fresh id (x ∷ xs) h = (ground arith, has-Fresh id xs (ground arith))

pub Fresh-has : (id : ℕ) (xs : List ℕ) → Fresh id xs → has id xs ≡ false
unfolding has
Fresh-has id [] h = refl
Fresh-has id (x ∷ xs) h = ground (arith, Fresh-has id xs h.1)

pub record Cut (id : ℕ) (xs : List ℕ) : Type 0 where
  pub before : List ℕ
  pub after : List ℕ
  pub whole : xs ≡ before ++ id ∷ after

-- A member stands somewhere in the sequence.
pub has-Cut : (id : ℕ) (xs : List ℕ) → has id xs ≡ true → Cut id xs
unfolding has
has-Cut id [] h = absurd (cc)
has-Cut id (x ∷ xs) h = elim (Bool-cases (id == x)) [
  | inl e ↦ record { before = []; after = xs; whole = ap (λ y. y ∷ xs) (sym ((==_iff id x).0 e)) }
  | inr n ↦
      let r = has-Cut id xs (ground arith) in
      record { before = x ∷ r.before; after = r.after; whole = ap (◌∷◌ x) r.whole }
]

module _ (c : Layout) where
  unfoldable pub total : List ℕ → ℕ
  total [] = 0
  total (id ∷ xs) = entry_bytes c (id / c.n_expert) + total xs

  pub total-append : (xs ys : List ℕ) → total (xs ++ ys) ≡ total xs + total ys
  unfolding total
  total-append [] ys = omega arith
  total-append (x ∷ xs) ys = omega (arith, total-append xs ys)

-- The sequence without an entry.
unfoldable pub remove : ℕ → List ℕ → List ℕ
remove n [] = []
remove n (x ∷ xs) = if x == n then remove n xs else x ∷ remove n xs

remove-Fresh : (n : ℕ) (xs : List ℕ) → Fresh n xs → remove n xs ≡ xs
unfolding remove
remove-Fresh n [] h = refl
remove-Fresh n (x ∷ xs) h = ground (arith, remove-Fresh n xs h.1)

pub remove-middle :
    (n : ℕ) (xs ys : List ℕ) → Fresh n (xs ++ ys) → remove n (xs ++ n ∷ ys) ≡ xs ++ ys
unfolding remove
remove-middle n [] ys h = ground (arith, remove-Fresh n ys h)
remove-middle n (x ∷ xs) ys h = ground (arith, remove-middle n xs ys h.1)

Fresh-remove : (y n : ℕ) (xs : List ℕ) → Fresh y xs → Fresh y (remove n xs)
unfolding remove
Fresh-remove y n [] h = tt
Fresh-remove y n (x ∷ xs) h = ground (arith, Fresh-remove y n xs h.1)

Distinct-remove : (n : ℕ) (xs : List ℕ) → Distinct xs → Distinct (remove n xs)
unfolding remove
Distinct-remove n [] d = tt
Distinct-remove n (x ∷ xs) d = ground (arith, Distinct-remove n xs d.1, Fresh-remove x n xs d.0)

length-remove : (n : ℕ) (xs : List ℕ) → Distinct xs → length xs ≤ suc (length (remove n xs))
unfolding remove
length-remove n [] d = omega arith
length-remove n (x ∷ xs) d = elim (Bool-cases (x == n)) [
  | inl e ↦
      let same = (==_iff x n).0 e in
      rw (e, remove) (rw (remove-Fresh n xs (rw (← same) d.0)) (omega arith))
  | inr ne ↦ rw (ne, remove) (omega (arith, length-remove n xs d.1))
]

All-remove : (n : ℕ) (xs : List ℕ) → All (λ x. x < suc n) xs → All (λ x. x < n) (remove n xs)
unfolding remove
All-remove n [] h = tt
All-remove n (x ∷ xs) h = ground (arith, All-remove n xs h.1)

-- Below a bound there are only so many distinct entries.
pub length-le : (n : ℕ) (xs : List ℕ) → Distinct xs → All (λ x. x < n) xs → length xs ≤ n
length-le zero [] d h = omega arith
length-le zero (x ∷ xs) d h = absurd (omega arith)
length-le (suc n) xs d h = omega (
  arith,
  length-remove n xs d,
  length-le n (remove n xs) (Distinct-remove n xs d) (All-remove n xs h),
)
