-- ===== src/RowStream/Slabs.antt =====
-- The order of eviction as a list of slabs, each counted; and the sort of the needed slabs.
use franken_mo_e_cuda.Prelude.{
  ℕ, ◌+◌, ◌≤◌, ◌≡◌, refl, Bool, true, false, ◌&&◌, List, [], ◌∷◌, ◌++◌, arith, leb, ◌==◌,
  if◌then◌else◌, Bool-cases, inl, inr,
}
use franken_mo_e_cuda.Expert.Sequence.{has}
use franken_mo_e_cuda.RowStream.Layout.{SlabId, Window, commit_len}

infix 50 ◌==ₛ◌
abbrev pub ◌==ₛ◌ : SlabId → SlabId → Bool
j ==ₛ k = (j.0 == k.0) && (j.1 == k.1)

==ₛ→eq : (j k : SlabId) → (j ==ₛ k) ≡ true → j ≡ k
==ₛ→eq (a, b) (d, e) h =
    let p : a ≡ d = ground arith in let q : b ≡ e = ground arith in rw (p, q) refl

-- lru_.erase() of the position of a slab.
unfoldable pub erase : SlabId → List SlabId → List SlabId
erase k [] = []
erase k (j ∷ js) = let rest = erase k js in if j ==ₛ k then js else j ∷ rest

-- std::sort of the needed slabs.
unfoldable pub insert : ℕ → List ℕ → List ℕ
insert s [] = s ∷ []
insert s (r ∷ rs) = let rest = insert s rs in if leb s r then s ∷ r ∷ rs else r ∷ rest

unfoldable pub sort : List ℕ → List ℕ
sort [] = []
sort (s ∷ ss) = insert s (sort ss)

unfoldable pub count : SlabId → List SlabId → ℕ
count k [] = 0
count k (j ∷ js) = (if j ==ₛ k then 1 else 0) + count k js

-- The bytes that the slabs of a list take.
unfoldable pub total : Window → List SlabId → ℕ
total c [] = 0
total c (k ∷ ks) = commit_len c k.0 k.1 + total c ks

pub count-append : (k : SlabId) (js ks : List SlabId) → count k (js ++ ks) ≡ count k js + count k ks
unfolding count
count-append k [] ks = omega arith
count-append k (j ∷ js) ks = omega (arith, count-append k js ks)

pub total-append : (c : Window) (js ks : List SlabId) → total c (js ++ ks) ≡ total c js + total c ks
unfolding total
total-append c [] ks = omega arith
total-append c (j ∷ js) ks = omega (arith, total-append c js ks)

pub count-erase_self :
    (k : SlabId) (js : List SlabId) → 1 ≤ count k js → count k (erase k js) + 1 ≡ count k js
unfolding count erase
count-erase_self k [] h = absurd (omega arith)
count-erase_self k (j ∷ js) h = grind (arith, count-erase_self k js)

pub count-erase_other :
    (i k : SlabId) (js : List SlabId) → (i ==ₛ k) ≡ false → count i (erase k js) ≡ count i js
unfolding count erase
count-erase_other i k [] h = refl
count-erase_other i k (j ∷ js) h = ground (arith, count-erase_other i k js h)

-- What stands in a list moves to its end.
pub count-renew :
    (i k : SlabId) (js : List SlabId) → count k js ≡ 1 → count i (erase k js ++ k ∷ []) ≡ count i js
unfolding count
count-renew i k js one = elim (Bool-cases (i ==ₛ k)) [
  | inl e ↦
      let same : i ≡ k = ==ₛ→eq i k e in
      rw (same, count-append k (erase k js) (k ∷ [])) (ground (arith, count-erase_self k js))
  | inr e ↦ ground (arith, count-append i (erase k js) (k ∷ []), count-erase_other i k js e)
]

pub total-erase :
    (c : Window) (k : SlabId) (js : List SlabId)
    → 1 ≤ count k js
    → total c (erase k js) + commit_len c k.0 k.1 ≡ total c js
unfolding count erase total
total-erase c k [] h = absurd (omega arith)
total-erase c k (j ∷ js) h = grind (arith, total-erase c k js)

has-insert : (r s : ℕ) (ss : List ℕ) → has r (insert s ss) ≡ has r (s ∷ ss)
unfolding has insert
has-insert r s [] = refl
has-insert r s (t ∷ ts) = ground (arith, has-insert r s ts)

-- Sorting changes the order alone.
pub has-sort : (r : ℕ) (ss : List ℕ) → has r (sort ss) ≡ has r ss
unfolding has sort
has-sort r [] = refl
has-sort r (s ∷ ss) = ground (arith, has-insert r s (sort ss), has-sort r ss)
