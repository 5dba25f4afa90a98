-- ===== src/Expert/Evict.antt =====
-- moe/expert_stream_source.cpp, evict_tail() and the two eviction loops.
use franken_mo_e_cuda.Prelude.{
  ℕ, zero, suc, ◌≤◌, ◌≡◌, ◌≢◌, refl, sym, ◌∙◌, ap, subst, Bool, true, false, none, some, List, [],
  ◌∷◌, ◌++◌, All, All-append, arith, length, length-append, Bool-cases, Option-cases, inl, inr,
}
use mathlib.Core.Path.{subst₂}
use mathlib.Core.List.{append-nil, append_assoc}
use franken_mo_e_cuda.Lru.Segment.{last_or}
use franken_mo_e_cuda.Expert.Layout.{Layout, n_entry}
use franken_mo_e_cuda.Expert.State.{Cache}
use franken_mo_e_cuda.Expert.Sequence.{length-le}
use franken_mo_e_cuda.Expert.Invariant.{Inv, InvOf, leave}
use franken_mo_e_cuda.Expert.Entries.{evict_entry, evict_tail, may_evict, over_budget, evict_while}

-- A sequence with a last entry ends in it.
last_or-snoc :
    (p : ℕ) (xs : List ℕ)
    → (ys : List ℕ) × (id : ℕ) × (last_or (some p) xs ≡ some id) × (p ∷ xs ≡ ys ++ id ∷ [])
last_or-snoc p [] = ([], p, refl, refl)
last_or-snoc p (x ∷ xs) = let (ys, id, e, w) = last_or-snoc x xs in (p ∷ ys, id, e, ap (◌∷◌ p) w)

pub snoc_of_last :
    (id : ℕ) (xs : List ℕ) → last_or none xs ≡ some id → (ys : List ℕ) × (xs ≡ ys ++ id ∷ [])
snoc_of_last id [] e = absurd (cc)
snoc_of_last id (x ∷ xs) e =
    let (ys, j, f, w) = last_or-snoc x xs in
    let same : j ≡ id = ground (arith, sym f ∙ e) in (ys, w ∙ ap (λ k. ys ++ k ∷ []) same)

-- One round takes the coldest entry and leaves the others in order.
pub evict_tail-Inv :
    (c : Layout) (s : Cache) (ys : List ℕ) (id : ℕ)
    → s.links.tail ≡ some id
    → InvOf c s (ys ++ id ∷ [])
    → InvOf c (evict_tail c s) ys
unfolding evict_tail evict_entry
evict_tail-Inv c s ys id e v =
    rw (e, evict_tail) (subst (Inv c _ _ _) (append-nil ys) (leave id ys [] v))

-- What an eviction loop does to the entries `xs` under a test that allows taking an entry of
-- which `P` holds.
pub record Evicted (c : Layout) (P : ℕ → Type 0) (test : Cache → Bool) (s : Cache) (t : Cache)
    (xs : List ℕ) : Type 0 where
  pub kept : List ℕ
  pub dropped : List ℕ
  pub whole : xs ≡ kept ++ dropped
  pub inv : InvOf c t kept
  pub stopped : test t ≡ false
  pub allowed : All P dropped
  pub same_stamp : t.stamp ≡ s.stamp
  pub same_gen : t.gen ≡ s.gen
  pub same_max : t.cache_max ≡ s.cache_max

evict_tail-stamp : (c : Layout) (s : Cache) → (evict_tail c s).stamp ≡ s.stamp
unfolding evict_tail evict_entry
evict_tail-stamp c s = ground arith

evict_tail-gen : (c : Layout) (s : Cache) → (evict_tail c s).gen ≡ s.gen
unfolding evict_tail evict_entry
evict_tail-gen c s = ground arith

evict_tail-max : (c : Layout) (s : Cache) → (evict_tail c s).cache_max ≡ s.cache_max
unfolding evict_tail evict_entry
evict_tail-max c s = ground arith

-- A loop that takes one more entry first.
Evicted-more :
    (c : Layout) (Q : (ℕ → ℕ) → ℕ → ℕ → Type 0) (test : Cache → Bool) (s t : Cache) (ys : List ℕ)
    (id : ℕ)
    → Q s.stamp s.gen id
    → Evicted c (Q (evict_tail c s).stamp (evict_tail c s).gen) test (evict_tail c s) t ys
    → Evicted c (Q s.stamp s.gen) test s t (ys ++ id ∷ [])
Evicted-more c Q test s t ys id q r = record {
  kept = r.kept;
  dropped = r.dropped ++ id ∷ [];
  whole = ap (λ zs. zs ++ id ∷ []) r.whole ∙ append_assoc r.kept r.dropped (id ∷ []);
  inv = r.inv;
  stopped = r.stopped;
  allowed =
      All-append _ r.dropped (id ∷ [])
        (subst₂ (λ f g. All (Q f g) r.dropped) (evict_tail-stamp c s) (evict_tail-gen c s)
          r.allowed)
        (q, tt);
  same_stamp = r.same_stamp ∙ evict_tail-stamp c s;
  same_gen = r.same_gen ∙ evict_tail-gen c s;
  same_max = r.same_max ∙ evict_tail-max c s;
}

module _ (c : Layout) (Q : (ℕ → ℕ) → ℕ → ℕ → Type 0) (test : Cache → Bool)
    (grant : (s : Cache)
      → test s ≡ true
      → (id : ℕ) × (s.links.tail ≡ some id) × Q s.stamp s.gen id) where
  pub evict_while-Evicted :
      (fuel : ℕ) (s : Cache) (xs : List ℕ)
      → InvOf c s xs
      → length xs ≤ fuel
      → Evicted c (Q s.stamp s.gen) test s (evict_while test c fuel s) xs
  unfolding evict_while
  evict_while-Evicted zero s [] v h = elim (Bool-cases (test s)) [
    | inl go ↦ let (id, e, q) = grant s go in absurd (ground (arith, v.holds.final))
    | inr stop ↦ record {
      kept = [];
      dropped = [];
      whole = refl;
      inv = v;
      stopped = stop;
      allowed = tt;
      same_stamp = refl;
      same_gen = refl;
      same_max = refl;
    }
  ]
  evict_while-Evicted zero s (x ∷ xs) v h = absurd (omega arith)
  evict_while-Evicted (suc fuel) s xs v h = elim (Bool-cases (test s)) [
    | inl go ↦
        let (id, e, q) = grant s go in
        let (ys, w) = snoc_of_last id xs (sym v.holds.final ∙ e) in
        let v' = evict_tail-Inv c s ys id e (subst (InvOf c s) w v) in
        let short : length ys ≤ fuel = omega (arith, ap length w, length-append ys (id ∷ [])) in
        rw (go, evict_while)
          (subst (Evicted c (Q s.stamp s.gen) test s _) (sym w) (
            Evicted-more c Q test s _ ys id q
              (evict_while-Evicted fuel (evict_tail c s) ys v' short)))
    | inr stop ↦
        rw (stop, evict_while)
          (record {
            kept = xs;
            dropped = [];
            whole = sym (append-nil xs);
            inv = v;
            stopped = stop;
            allowed = tt;
            same_stamp = refl;
            same_gen = refl;
            same_max = refl;
          })
  ]

-- What the loop of a load takes: entries that the current load has not touched.
abbrev pub Untouched : (ℕ → ℕ) → ℕ → ℕ → Type 0
Untouched stamp gen id = stamp id ≢ gen

may_evict-grants :
    (s : Cache)
    → may_evict s ≡ true
    → (id : ℕ) × (s.links.tail ≡ some id) × Untouched s.stamp s.gen id
unfolding may_evict
may_evict-grants s h = elim (Option-cases s.links.tail) [
  | inl e ↦ absurd (ground arith)
  | inr (id, e) ↦ (id, e, ground arith)
]

over_budget-grants :
    (s : Cache) → over_budget s ≡ true → (id : ℕ) × (s.links.tail ≡ some id) × Unit {0}
unfolding over_budget
over_budget-grants s h = elim (Option-cases s.links.tail) [
  | inl e ↦ absurd (ground arith)
  | inr (id, e) ↦ (id, e, tt)
]

-- The eviction loop of a load splits the recency list of a well-formed cache: it keeps a front in order
-- and well formed, and drops the rest, in which no entry was touched in this generation. It stops
-- by its own test, and changes no stamp, generation or budget.
pub evict_cold-Evicted :
    (c : Layout) (s : Cache) (xs : List ℕ)
    → InvOf c s xs
    → Evicted c (Untouched s.stamp s.gen) may_evict s (evict_while may_evict c (n_entry c) s) xs
evict_cold-Evicted c s xs v =
    evict_while-Evicted c Untouched may_evict may_evict-grants (n_entry c) s xs v
      (length-le (n_entry c) xs v.holds.distinct v.range)

-- The loop of set_cache_budget().
pub evict_all-Evicted :
    (c : Layout) (s : Cache) (xs : List ℕ)
    → InvOf c s xs
    → Evicted c (λ _. Unit {0}) over_budget s (evict_while over_budget c (n_entry c) s) xs
evict_all-Evicted c s xs v =
    evict_while-Evicted c (λ _ _ _. Unit {0}) over_budget over_budget-grants (n_entry c) s xs v
      (length-le (n_entry c) xs v.holds.distinct v.range)
