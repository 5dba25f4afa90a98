-- ===== src/RowStream/Restore.antt =====
-- moe/row_stream.cpp, init() and release(): where the tensors point afterwards.
use franken_mo_e_cuda.Prelude.{
  ℕ, ◌≡◌, ◌≢◌, refl, sym, ◌∙◌, Bool, false, ◌||◌, List, [], ◌∷◌, ◌++◌, All, arith, ◌==◌,
  if◌then◌else◌, update, length, map, Bool-cases, inl, inr, ◌⊎◌, Option-cases,
}
use franken_mo_e_cuda.Lru.Segment.{Fresh, Distinct}
use franken_mo_e_cuda.RowStream.Layout.{Table, round_up}
use franken_mo_e_cuda.RowStream.TakeOver.{
  TensorRef, Machine, Pool, MapCall, restore, release, shard_of, table_of, take_one, take_over,
  all_open, init, init_budget, vm_reserve,
}

restore-ext : (ts : List Table) (f g : ℕ → ℕ) (t : ℕ) → f t ≡ g t → restore ts f t ≡ restore ts g t
unfolding restore
restore-ext [] f g t h = h
restore-ext (x ∷ xs) f g t h = restore-ext xs _ _ t (ground (arith, h))

restore-snoc :
    (ts : List Table) (x : Table) (f : ℕ → ℕ) (t : ℕ)
    → x.orig_data ≢ 0
    → restore (ts ++ x ∷ []) f t ≡ (if t == x.tensor then x.orig_data else restore ts f t)
unfolding restore
restore-snoc [] x f t h = ground (arith, h)
restore-snoc (y ∷ ys) x f t h = restore-snoc ys x _ t h

-- From the pool `p`, a release makes the tensors point where `to` says, and so do the tensors that are
-- still to be taken over.
record Undone (to : ℕ → ℕ) (ds : List TensorRef) (p : Pool) : Type 0 where
  undo : (t : ℕ) → restore p.tables p.tensor_data t ≡ to t
  ahead : All (λ d. p.tensor_data d.tensor ≡ to d.tensor) ds

abbrev tensors : List TensorRef → List ℕ
tensors ds = map (λ d. d.tensor) ds

ahead-update :
    (to f : ℕ → ℕ) (x b : ℕ) (ds : List TensorRef)
    → Fresh x (tensors ds)
    → All (λ d. f d.tensor ≡ to d.tensor) ds
    → All (λ d. update f x b d.tensor ≡ to d.tensor) ds
ahead-update to f x b [] n h = tt
ahead-update to f x b (d ∷ ds) n h = (ground (arith, h.0, n.0), ahead-update to f x b ds n.1 h.1)

take_one-Undone :
    (to : ℕ → ℕ) (d : TensorRef) (ds : List TensorRef) (shard base : ℕ) (cs : List MapCall)
    (p : Pool)
    → Distinct (tensors (d ∷ ds))
    → to d.tensor ≢ 0
    → Undone to (d ∷ ds) p
    → Undone to ds (take_one d shard base cs p)
unfolding take_one
take_one-Undone to d ds shard base cs p n nz u =
    let some_data : p.tensor_data d.tensor ≢ 0 = λ z. nz (sym u.ahead.0 ∙ z) in
    let last =
      restore-snoc p.tables (table_of d shard base (p.tensor_data d.tensor))
        (update p.tensor_data d.tensor base) in
    record {
      undo = λ t. elim (Bool-cases (t == d.tensor)) [
        | inl e ↦ ground (arith, last t some_data, u.ahead.0, e)
        | inr e ↦ ground (
          arith,
          last t some_data,
          restore-ext p.tables (update p.tensor_data d.tensor base) p.tensor_data t
              (ground (arith, e)),
          u.undo t,
        )
      ];
      ahead = ahead-update to p.tensor_data d.tensor base ds n.0 u.ahead.1;
    }

-- Whatever the loop answers: a release would undo it, and a failure already has.
record Undoable (to : ℕ → ℕ) (ok : Bool) (p : Pool) : Type 0 where
  undo : (t : ℕ) → restore p.tables p.tensor_data t ≡ to t
  undone : ok ≡ false → (p.tables ≡ []) × ((t : ℕ) → p.tensor_data t ≡ to t)

released :
    (to : ℕ → ℕ) (h : Machine) (ds : List TensorRef) (p : Pool)
    → Undone to ds p
    → Undoable to false (release h p)
unfolding release restore
released to h ds p u = record { undo = u.undo; undone = λ e. (refl, u.undo) }

take_over-Undoable :
    (to : ℕ → ℕ) (h : Machine) (ds : List TensorRef) (p : Pool)
    → Distinct (tensors ds)
    → All (λ d. to d.tensor ≢ 0) ds
    → Undone to ds p
    → Undoable to (take_over h ds p).0 (take_over h ds p).1
unfolding take_over
take_over-Undoable to h [] p n nz u = record { undo = u.undo; undone = λ e. absurd (cc) }
take_over-Undoable to h (d ∷ ds) p n nz u =
    let bytes = round_up d.size h.page in
    let past : Undone to ds p = record { undo = u.undo; ahead = u.ahead.1 } in
    let cs = vm_reserve bytes ∷ p.calls in
    elim (Bool-cases ((d.tensor == 0) || (d.size == 0))) [
      | inl k ↦ rw (k, take_over) (take_over-Undoable to h ds p n.1 nz.1 past)
      | inr k ↦ elim (Option-cases (shard_of p d.file_idx)) [
        | inl e ↦ rw (k, e, take_over) (released to h ds p past)
        | inr (shard, e) ↦ elim (Bool-cases ((d.nb1 == 0) || (d.ne1 == 0))) [
          | inl q ↦ rw (k, e, q, take_over) (take_over-Undoable to h ds p n.1 nz.1 past)
          | inr q ↦ elim (Bool-cases (h.reserve p.calls bytes == 0)) [
            | inl z ↦
                rw (k, e, q, z, take_over)
                  (released to h ds _ (record { undo = u.undo; ahead = u.ahead.1 }))
            | inr z ↦
                rw (k, e, q, z, take_over)
                  (take_over-Undoable to h ds _ n.1 nz.1
                    (take_one-Undone to d ds shard _ cs p n nz.0 u))
          ]
        ]
      ]
    ]

same_data : (f : ℕ → ℕ) (ds : List TensorRef) → All (λ d. f d.tensor ≡ f d.tensor) ds
same_data f [] = tt
same_data f (d ∷ ds) = (refl, same_data f ds)

pub Tables-cases : (ts : List Table) → (ts ≡ []) ⊎ ((x : Table) × (xs : List Table) × (ts ≡ x ∷ xs))
Tables-cases [] = inl refl
Tables-cases (x ∷ xs) = inr (x, xs, refl)

-- When init() starts from no table, no tensor is listed twice and every listed one points somewhere:
-- if it fails, no table is left and every tensor points where it did; and after a release, whether it
-- succeeded or not, every tensor points where it did.
pub init-release :
    (h : Machine) (ds : List TensorRef) (paths : List ℕ) (budget : ℕ) (p : Pool)
    → p.tables ≡ []
    → Distinct (tensors ds)
    → All (λ d. p.tensor_data d.tensor ≢ 0) ds
    → let r = init h ds paths budget p in
      (r.0 ≡ false → (r.1.tables ≡ []) × ((t : ℕ) → r.1.tensor_data t ≡ p.tensor_data t))
      × ((t : ℕ) → (release h r.1).tensor_data t ≡ p.tensor_data t)
unfolding init restore release
init-release h [] paths budget p e n nz = (λ f. absurd (cc), λ t. rw e refl)
init-release h (d ∷ ds) paths budget p e n nz =
    let q : Pool = record p { budget_bytes = init_budget budget; n_readers = length paths } in
    let start : Undone p.tensor_data (d ∷ ds) q = record {
      undo = λ t. rw e refl;
      ahead = same_data p.tensor_data (d ∷ ds);
    } in
    let u = take_over-Undoable p.tensor_data h (d ∷ ds) q n nz start in
    elim (Bool-cases (all_open h paths)) [
      | inr k ↦ rw (k, init) (λ f. (e, λ t. refl), λ t. rw e refl)
      | inl k ↦ elim (Tables-cases (take_over h (d ∷ ds) q).1.tables) [
        | inl z ↦ rw (k, z, init) (λ f. (z, (u.undone f).1), u.undo)
        | inr (x, xs, z) ↦ rw (k, z, init) (u.undone, u.undo)
      ]
    ]
