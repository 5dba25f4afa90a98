-- ===== src/Dense/Hold.antt =====
-- moe/dense_weights.cpp, hold_back_oversized(): the weights too large to be resident.
use franken_mo_e_cuda.Prelude.{
  ℕ, ◌≡◌, ◌≢◌, refl, ap, ◌∙◌, sym, Bool, true, false, ◌&&◌, ◌||◌, not, List, [], ◌∷◌, ◌++◌, arith,
  leb, ◌==◌, if◌then◌else◌, Bool-cases, inl, inr,
}
use mathlib.Core.List.{append-nil, append_assoc}
use franken_mo_e_cuda.RowStream.TakeOver.{TensorRef}
use franken_mo_e_cuda.Dense.State.{Dense, hold_each, hold_back_oversized, carve, names}
use franken_mo_e_cuda.Dense.Carve.{covers_at, lies, any_lies, carve-covers}

-- The tensors for which a test holds, in order.
unfoldable pub select : (TensorRef → Bool) → List TensorRef → List TensorRef
select f [] = []
select f (d ∷ ds) = let rest = select f ds in if f d then d ∷ rest else rest

pub select_hit :
    (f : TensorRef → Bool) (d : TensorRef) (ds : List TensorRef)
    → f d ≡ true
    → select f (d ∷ ds) ≡ d ∷ select f ds
unfolding select
select_hit f d ds h = rw h refl

pub select_miss :
    (f : TensorRef → Bool) (d : TensorRef) (ds : List TensorRef)
    → f d ≡ false
    → select f (d ∷ ds) ≡ select f ds
unfolding select
select_miss f d ds h = rw h refl

abbrev pub fitting : ℕ → TensorRef → Bool
fitting avail d = leb d.size avail

abbrev pub oversized : ℕ → TensorRef → Bool
oversized avail d = not (leb d.size avail)

-- What the loop makes of `w`.
record Held (avail : ℕ) (ds : List TensorRef) (w v : Dense) : Type 0 where
  kept : v.tensors ≡ w.tensors ++ select (fitting avail) ds
  held : v.mapped ≡ w.mapped ++ select (oversized avail) ds
  dense :
      (s x : ℕ)
      → covers_at s x v.ranges
        ≡ (covers_at s x w.ranges && not (any_lies s x (select (oversized avail) ds)))

pub and_assoc_not : (p q r : Bool) → ((p && not q) && not r) ≡ (p && not (q || r))
and_assoc_not p q r = ground arith

hold_each-Held :
    (avail : ℕ) (ds : List TensorRef) (w : Dense) → Held avail ds w (hold_each avail ds w)
unfolding hold_each select any_lies
hold_each-Held avail [] w = record {
  kept = sym (append-nil w.tensors);
  held = sym (append-nil w.mapped);
  dense = λ s x. ground arith;
}
hold_each-Held avail (d ∷ ds) w = elim (Bool-cases (leb d.size avail)) [
  | inl k ↦
      let r = hold_each-Held avail ds (record w { tensors = w.tensors ++ d ∷ [] }) in
      let e = select_hit (fitting avail) d ds k in
      let o = select_miss (oversized avail) d ds (ground (arith, k)) in
      rw (k, hold_each)
        (record {
          kept =
              r.kept
              ∙ append_assoc w.tensors (d ∷ []) (select (fitting avail) ds)
              ∙ ap (λ xs. w.tensors ++ xs) (sym e);
          held = r.held ∙ ap (λ xs. w.mapped ++ xs) (sym o);
          dense = λ s x.
              r.dense s x ∙ ap (λ xs. covers_at s x w.ranges && not (any_lies s x xs)) (sym o);
        })
  | inr k ↦
      let r =
        hold_each-Held avail ds
          (record w { mapped = w.mapped ++ d ∷ []; ranges = carve d w.ranges }) in
      let e = select_miss (fitting avail) d ds k in
      let o = select_hit (oversized avail) d ds (ground (arith, k)) in
      rw (k, hold_each)
        (record {
          kept = r.kept ∙ ap (λ xs. w.tensors ++ xs) (sym e);
          held =
              r.held
              ∙ append_assoc w.mapped (d ∷ []) (select (oversized avail) ds)
              ∙ ap (λ xs. w.mapped ++ xs) (sym o);
          dense = λ s x.
              r.dense s x
              ∙ ap (λ b. b && not (any_lies s x (select (oversized avail) ds)))
                  (carve-covers s x d w.ranges)
              ∙ and_assoc_not (covers_at s x w.ranges) (lies s x d)
                  (any_lies s x (select (oversized avail) ds))
              ∙ ap (λ xs. covers_at s x w.ranges && not (any_lies s x xs)) (sym o);
        })
]

hold_each-rows :
    (avail : ℕ) (ds : List TensorRef) (w : Dense) → (hold_each avail ds w).rows ≡ w.rows
unfolding hold_each
hold_each-rows avail [] w = refl
hold_each-rows avail (d ∷ ds) w = elim (Bool-cases (leb d.size avail)) [
  | inl k ↦ rw (k, hold_each) (hold_each-rows avail ds _)
  | inr k ↦ rw (k, hold_each) (hold_each-rows avail ds _)
]

-- Where the available memory is measured, the weights kept are those that fit in it, and those held back
-- are the others, each in their order; and a byte of a shard is dense afterwards if it was
-- before and belongs to no weight held back. Where it is not measured, no weight is held back, and the
-- weights and the dense bytes are as before.
pub hold_back_oversized_lem :
    (avail : ℕ) (w : Dense)
    → let v = hold_back_oversized avail w in
      (avail ≢ 0
        → (v.tensors ≡ select (fitting avail) w.tensors)
          × (v.mapped ≡ select (oversized avail) w.tensors)
          × ((s x : ℕ)
              → covers_at s x v.ranges ≡ (covers_at s x w.ranges && not (any_lies s x v.mapped))))
      × (avail ≡ 0 → v ≡ record w { mapped = [] })
unfolding hold_back_oversized
hold_back_oversized_lem avail w =
    let h = hold_each-Held avail w.tensors (record w { mapped = []; tensors = [] }) in
    elim (Bool-cases (avail == 0)) [
      | inl k ↦ rw (k, hold_back_oversized) (λ nz. absurd (ground (arith, k, nz)), λ z. refl)
      | inr k ↦
          rw (k, hold_back_oversized)
            (
              λ nz. (
                h.kept,
                h.held,
                λ s x.
                    h.dense s x
                    ∙ ap (λ ds. covers_at s x w.ranges && not (any_lies s x ds)) (sym h.held),
              ),
              λ z. absurd (ground (arith, k, z)),
            )
    ]

-- The row stream is not touched.
pub hold_back_oversized-rows : (avail : ℕ) (w : Dense) → (hold_back_oversized avail w).rows ≡ w.rows
unfolding hold_back_oversized
hold_back_oversized-rows avail w =
    let h = hold_each-rows avail w.tensors (record w { mapped = []; tensors = [] }) in
    elim (Bool-cases (avail == 0)) [
      | inl k ↦ rw (k, hold_back_oversized) refl
      | inr k ↦ rw (k, hold_back_oversized) h
    ]

-- What the row stream is asked for, of what, and with which budget.
abbrev pub SameRequest : Dense → Dense → Type 0
SameRequest w v =
    (v.row_pending ≡ w.row_pending) × (v.paths ≡ w.paths) × (v.row_budget ≡ w.row_budget)

hold_each-SameRequest :
    (avail : ℕ) (ds : List TensorRef) (w : Dense) → SameRequest w (hold_each avail ds w)
unfolding hold_each
hold_each-SameRequest avail [] w = (refl, refl, refl)
hold_each-SameRequest avail (d ∷ ds) w = elim (Bool-cases (leb d.size avail)) [
  | inl k ↦
      rw (k, hold_each)
        (hold_each-SameRequest avail ds (record w { tensors = w.tensors ++ d ∷ [] }))
  | inr k ↦
      rw (k, hold_each)
        (hold_each-SameRequest avail ds
          (record w { mapped = w.mapped ++ d ∷ []; ranges = carve d w.ranges }))
]

pub hold_back_oversized-SameRequest :
    (avail : ℕ) (w : Dense) → SameRequest w (hold_back_oversized avail w)
unfolding hold_back_oversized
hold_back_oversized-SameRequest avail w =
    let h = hold_each-SameRequest avail w.tensors (record w { mapped = []; tensors = [] }) in
    elim (Bool-cases (avail == 0)) [
      | inl k ↦ rw (k, hold_back_oversized) (refl, refl, refl)
      | inr k ↦ rw (k, hold_back_oversized) h
    ]

-- A tensor is named by what fits or by what does not just if all of them name it.
pub names-partition :
    (avail t : ℕ) (ds : List TensorRef)
    → (names t (select (fitting avail) ds) || names t (select (oversized avail) ds)) ≡ names t ds
unfolding names select
names-partition avail t [] = refl
names-partition avail t (d ∷ ds) = ground (arith, names-partition avail t ds)
