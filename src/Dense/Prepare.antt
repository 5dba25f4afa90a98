-- ===== src/Dense/Prepare.antt =====
-- moe/dense_weights.cpp, init(): the two steps that settle which weights are to be resident.
use franken_mo_e_cuda.Prelude.{
  ℕ, ◌≡◌, ◌≢◌, refl, sym, ap, ◌∙◌, true, ◌&&◌, ◌||◌, not, none, some, List, [], ◌∷◌,
}
use mathlib.Core.Path.{subst₂}
use franken_mo_e_cuda.RowStream.TakeOver.{TensorRef, init}
use franken_mo_e_cuda.Dense.State.{
  Dense, Host, hold_back_oversized, take_row_gathered, row_source, names, wanted, new_rows,
}
use franken_mo_e_cuda.Dense.Hold.{
  select, fitting, oversized, hold_back_oversized_lem, hold_back_oversized-rows,
  hold_back_oversized-SameRequest, names-partition,
}
use franken_mo_e_cuda.Dense.Carve.{covers_at, any_lies}
use franken_mo_e_cuda.Dense.Take.{
  taken, left, Declines, made_of, untouched, took, take_row_gathered-Takeover,
}

unfoldable pub settle_set : Host → (ℕ → ℕ) → ℕ → Dense → Dense
settle_set h tensor_data avail w = take_row_gathered h tensor_data (hold_back_oversized avail w)

-- The pending tables that are weights of the run, in the order asked for.
abbrev pub asked_tables : Dense → List TensorRef
asked_tables w = select (λ d. names d.tensor w.tensors) w.row_pending

-- What is resident, held back and dense at the end: where the row stream for the asked tables declines,
-- and with the one that init() made of them.
pub data Settled (h : Host) (tensor_data : ℕ → ℕ) (avail : ℕ) (w : Dense) (v : Dense) : Type 0 where
  no_rows :
      Declines (asked_tables w) (made_of h tensor_data w (asked_tables w))
      → v.rows ≡ none
      → v.tensors ≡ select (fitting avail) w.tensors
      → v.mapped ≡ select (oversized avail) w.tensors
      → ((s x : ℕ)
          → covers_at s x v.ranges
            ≡ (covers_at s x w.ranges && not (any_lies s x (select (oversized avail) w.tensors))))
      → Settled h tensor_data avail w v
  with_rows :
      (made_of h tensor_data w (asked_tables w)).0 ≡ true
      → row_source v ≡ some (made_of h tensor_data w (asked_tables w)).1
      → v.tensors ≡ select (left (asked_tables w)) (select (fitting avail) w.tensors)
      → v.mapped ≡ select (left (asked_tables w)) (select (oversized avail) w.tensors)
      → ((s x : ℕ)
          → covers_at s x v.ranges ≡ (
              (covers_at s x w.ranges && not (any_lies s x (select (oversized avail) w.tensors)))
              && not (
                  any_lies s x
                    (select (taken (asked_tables w)) (select (fitting avail) w.tensors)))))
      → Settled h tensor_data avail w v

-- Holding back does not change which of the tables are weights of the run.
wanted-select :
    (avail : ℕ) (ts ds : List TensorRef) (u : Dense)
    → u.tensors ≡ select (fitting avail) ts
    → u.mapped ≡ select (oversized avail) ts
    → wanted ds u ≡ select (λ d. names d.tensor ts) ds
unfolding wanted select
wanted-select avail ts [] u a b = refl
wanted-select avail ts (d ∷ ds) u a b =
    let same : (names d.tensor u.tensors || names d.tensor u.mapped) ≡ names d.tensor ts =
      ap (λ l. names d.tensor l || names d.tensor u.mapped) a
      ∙ ap (λ l. names d.tensor (select (fitting avail) ts) || names d.tensor l) b
      ∙ names-partition avail d.tensor ts in
    let ih = wanted-select avail ts ds u a b in rw (same, ih) refl

-- Where the available memory is measured, and from a state with no row stream, one of two things holds.
-- Either nothing that is pending is a weight of the run, or the row stream for the pending weights fails
-- or ends up with no table; then there is no row stream, the weights kept are those that fit in that
-- memory, those held back are the others, and a byte of a shard is dense if it was and belongs to no
-- weight held back. Or the row stream is the one that init() made of the pending weights of the run, and
-- all of these have left both, also those that init() made no table of, and their bytes the dense ranges.
-- Each keeps its order.
pub settle_set-Settled :
    (h : Host) (tensor_data : ℕ → ℕ) (avail : ℕ) (w : Dense)
    → avail ≢ 0
    → w.rows ≡ none
    → Settled h tensor_data avail w (settle_set h tensor_data avail w)
unfolding settle_set
settle_set-Settled h tensor_data avail w nz none_yet =
    let u = hold_back_oversized avail w in
    let held = (hold_back_oversized_lem avail w).0 nz in
    let same = hold_back_oversized-SameRequest avail w in
    let tables : wanted u.row_pending u ≡ asked_tables w =
      wanted-select avail w.tensors u.row_pending u held.0 held.1
      ∙ ap (select (λ d. names d.tensor w.tensors)) same.0 in
    let request : made_of h tensor_data u (wanted u.row_pending u)
        ≡ made_of h tensor_data w (asked_tables w) =
      ap (λ l. init h.machine l u.paths u.row_budget (new_rows tensor_data)) tables
      ∙ ap (λ l. init h.machine (asked_tables w) l u.row_budget (new_rows tensor_data)) same.1
      ∙ ap (λ b. init h.machine (asked_tables w) w.paths b (new_rows tensor_data)) same.2 in
    let dense : (s x : ℕ)
        → covers_at s x u.ranges
          ≡ (covers_at s x w.ranges && not (any_lies s x (select (oversized avail) w.tensors))) =
      λ s x. held.2 s x ∙ ap (λ ds. covers_at s x w.ranges && not (any_lies s x ds)) held.1 in
    elim (take_row_gathered-Takeover h tensor_data u
      (hold_back_oversized-rows avail w ∙ none_yet)) [
        | untouched why r t m g ↦
            no_rows (subst₂ Declines tables request why) r (t ∙ held.0) (m ∙ held.1)
              (λ s x. ap (covers_at s x) g ∙ dense s x)
        | took k s out ↦
            with_rows (ap (λ r. r.0) (sym request) ∙ k) (s ∙ ap (λ r. some r.1) request)
              (out.kept
                ∙ ap (select (left (wanted u.row_pending u))) held.0
                ∙ ap (λ l. select (left l) (select (fitting avail) w.tensors)) tables)
              (out.mapped
                ∙ ap (select (left (wanted u.row_pending u))) held.1
                ∙ ap (λ l. select (left l) (select (oversized avail) w.tensors)) tables)
              (λ i x.
                out.dense i x
                ∙ ap
                    (λ b.
                      b && not (any_lies i x (select (taken (wanted u.row_pending u)) u.tensors)))
                    (dense i x)
                ∙ ap
                    (λ ts.
                      (covers_at i x w.ranges
                        && not (any_lies i x (select (oversized avail) w.tensors)))
                      && not (any_lies i x (select (taken (wanted u.row_pending u)) ts)))
                    held.0
                ∙ ap
                    (λ l.
                      (covers_at i x w.ranges
                        && not (any_lies i x (select (oversized avail) w.tensors)))
                      && not (any_lies i x (select (taken l) (select (fitting avail) w.tensors))))
                    tables)
      ]
