-- ===== src/Dense/Take.antt =====
-- moe/dense_weights.cpp, take_row_gathered(): the tables that the row stream takes over.
use franken_mo_e_cuda.Prelude.{
  ℕ, ◌≡◌, refl, ap, ◌∙◌, sym, subst, Bool, true, false, ◌&&◌, not, none, some, List, [], ◌∷◌, ◌++◌,
  arith, Bool-cases, Option-cases, inl, inr, ◌⊎◌,
}
use mathlib.Core.Path.{subst₂}
use mathlib.Core.List.{append-nil, append_assoc}
use franken_mo_e_cuda.RowStream.TakeOver.{TensorRef, Pool, init}
use franken_mo_e_cuda.RowStream.Restore.{Tables-cases}
use franken_mo_e_cuda.Dense.State.{
  Dense, Host, PageCall, drop_file_pages, page_call, page_calls_of, resolve_vmas, names, wanted,
  leave_each, without, leave_set, take_tables, take_row_gathered, row_source, carve, addr_of,
  inner_pages, new_rows,
}
use franken_mo_e_cuda.Dense.Hold.{select, select_hit, select_miss, and_assoc_not}
use franken_mo_e_cuda.Dense.Carve.{covers_at, lies, any_lies, carve-covers}

abbrev pub taken : List TensorRef → TensorRef → Bool
taken take d = names d.tensor take

abbrev pub left : List TensorRef → TensorRef → Bool
left take d = not (names d.tensor take)

-- The calls for pages change nothing else.
page_call-same :
    (call : ℕ → ℕ → PageCall) (page : ℕ) (d : TensorRef) (w : Dense)
    → page_call call page d w ≡ record w { page_calls = (page_call call page d w).page_calls }
unfolding page_call
page_call-same call page d w = elim (Option-cases (addr_of w d.file_idx d.file_off)) [
  | inl e ↦ rw (e, page_call) refl
  | inr (a, e) ↦ elim (Option-cases (inner_pages page a d.size)) [
    | inl f ↦ rw (e, f, page_call) refl
    | inr (sn, f) ↦ rw (e, f, page_call) refl
  ]
]

page_calls_of-same :
    (call : ℕ → ℕ → PageCall) (page : ℕ) (ds : List TensorRef) (w : Dense)
    → page_calls_of call page ds w
      ≡ record w { page_calls = (page_calls_of call page ds w).page_calls }
unfolding page_calls_of
page_calls_of-same call page [] w = refl
page_calls_of-same call page (d ∷ ds) w =
    let v = page_call call page d w in
    let put : Dense → Dense =
      λ u. record u { page_calls = (page_calls_of call page ds v).page_calls } in
    page_calls_of-same call page ds v ∙ ap put (page_call-same call page d w)

resolve_vmas-same :
    (h : Host) (w : Dense)
    → resolve_vmas h w
      ≡ record w { vmas = (resolve_vmas h w).vmas; vmas_tried = (resolve_vmas h w).vmas_tried }
unfolding resolve_vmas
resolve_vmas-same h w = ground arith

record Left (take ds : List TensorRef) (w v : Dense) : Type 0 where
  kept : v.tensors ≡ w.tensors ++ select (left take) ds
  mapped : v.mapped ≡ w.mapped
  rows : v.rows ≡ w.rows
  dense :
      (s x : ℕ)
      → covers_at s x v.ranges
        ≡ (covers_at s x w.ranges && not (any_lies s x (select (taken take) ds)))

leave_each-Left : (take ds : List TensorRef) (w : Dense) → Left take ds w (leave_each take ds w)
unfolding leave_each select any_lies
leave_each-Left take [] w = record {
  kept = sym (append-nil w.tensors);
  mapped = refl;
  rows = refl;
  dense = λ s x. ground arith;
}
leave_each-Left take (d ∷ ds) w = elim (Bool-cases (names d.tensor take)) [
  | inr k ↦
      let r = leave_each-Left take ds (record w { tensors = w.tensors ++ d ∷ [] }) in
      let e = select_hit (left take) d ds (ground (arith, k)) in
      let o = select_miss (taken take) d ds k in
      rw (k, leave_each)
        (record {
          kept =
              r.kept
              ∙ append_assoc w.tensors (d ∷ []) (select (left take) ds)
              ∙ ap (λ xs. w.tensors ++ xs) (sym e);
          mapped = r.mapped;
          rows = r.rows;
          dense = λ s x.
              r.dense s x ∙ ap (λ xs. covers_at s x w.ranges && not (any_lies s x xs)) (sym o);
        })
  | inl k ↦
      let r = leave_each-Left take ds (record w { ranges = carve d w.ranges }) in
      let e = select_miss (left take) d ds (ground (arith, k)) in
      let o = select_hit (taken take) d ds k in
      rw (k, leave_each)
        (record {
          kept = r.kept ∙ ap (λ xs. w.tensors ++ xs) (sym e);
          mapped = r.mapped;
          rows = r.rows;
          dense = λ s x.
              r.dense s x
              ∙ ap (λ b. b && not (any_lies s x (select (taken take) ds)))
                  (carve-covers s x d w.ranges)
              ∙ and_assoc_not (covers_at s x w.ranges) (lies s x d)
                  (any_lies s x (select (taken take) ds))
              ∙ ap (λ xs. covers_at s x w.ranges && not (any_lies s x xs)) (sym o);
        })
]

without-select : (take ds : List TensorRef) → without take ds ≡ select (left take) ds
unfolding without select
without-select take [] = refl
without-select take (d ∷ ds) = ground (arith, without-select take ds)

-- The weights without the tables of `take`, and the dense bytes without theirs.
pub record TakenOut (take : List TensorRef) (w v : Dense) : Type 0 where
  pub kept : v.tensors ≡ select (left take) w.tensors
  pub mapped : v.mapped ≡ select (left take) w.mapped
  pub dense :
      (s x : ℕ)
      → covers_at s x v.ranges
        ≡ (covers_at s x w.ranges && not (any_lies s x (select (taken take) w.tensors)))

leave_set-TakenOut :
    (h : Host) (take : List TensorRef) (w : Dense)
    → TakenOut take w (leave_set h take w) × ((leave_set h take w).rows ≡ w.rows)
unfolding leave_set
leave_set-TakenOut h take w =
    let seen = resolve_vmas h w in
    let dropped = page_calls_of drop_file_pages h.machine.page take seen in
    let e : dropped ≡ record w {
      vmas = seen.vmas;
      vmas_tried = seen.vmas_tried;
      page_calls = dropped.page_calls;
    } =
      page_calls_of-same drop_file_pages h.machine.page take seen
      ∙ ap {A = Dense} (λ u. record u { page_calls = dropped.page_calls })
          (resolve_vmas-same h w) in
    let r = leave_each-Left take dropped.tensors (record dropped { tensors = [] }) in
    let ts : dropped.tensors ≡ w.tensors = ap (λ u. u.tensors) e in
    (
      record {
        kept = r.kept ∙ ap (select (left take)) ts;
        mapped = without-select take _ ∙ ap (select (left take)) (r.mapped ∙ ap (λ u. u.mapped) e);
        dense = λ s x.
            r.dense s x
            ∙ ap (λ u. covers_at s x u.ranges && not (any_lies s x (select (taken take) u.tensors)))
                e;
      },
      r.rows ∙ ap (λ u. u.rows) e,
    )

-- What init() of a new row stream makes of some tables, for the request of `w`.
abbrev pub made_of : Host → (ℕ → ℕ) → Dense → List TensorRef → Bool × Pool
made_of h tensor_data w take = init h.machine take w.paths w.row_budget (new_rows tensor_data)

-- Nothing is asked for, or the new row stream fails, or it ends up with no table.
abbrev pub Declines : List TensorRef → Bool × Pool → Type 0
Declines take made = (take ≡ []) ⊎ ((made.0 ≡ false) ⊎ (made.1.tables ≡ []))

-- The takeover of `take` is all or nothing: where the row stream declines the weights, the held-back ones
-- and the dense ranges are as before; with the row stream that init() made, which has a table, the tables
-- that it was asked for have left.
pub data Takeover (h : Host) (tensor_data : ℕ → ℕ) (take : List TensorRef) (w : Dense) (v : Dense)
    : Type 0 where
  untouched :
      Declines take (made_of h tensor_data w take)
      → v.rows ≡ none
      → v.tensors ≡ w.tensors
      → v.mapped ≡ w.mapped
      → v.ranges ≡ w.ranges
      → Takeover h tensor_data take w v
  took :
      (made_of h tensor_data w take).0 ≡ true
      → row_source v ≡ some (made_of h tensor_data w take).1
      → TakenOut take w v
      → Takeover h tensor_data take w v

take_tables-Takeover :
    (h : Host) (tensor_data : ℕ → ℕ) (take : List TensorRef) (w : Dense)
    → Takeover h tensor_data take w (take_tables h tensor_data take w)
unfolding take_tables row_source
take_tables-Takeover h tensor_data take w =
    let made = made_of h tensor_data w take in
    let (out, rows) = leave_set-TakenOut h take (record w { rows = some made.1 }) in
    elim (Bool-cases made.0) [
      | inr k ↦ rw (k, take_tables) (untouched (inr (inl k)) refl refl refl refl)
      | inl k ↦ elim (Tables-cases made.1.tables) [
        | inl e ↦ rw (k, e, take_tables) (untouched (inr (inr e)) refl refl refl refl)
        | inr (x, xs, e) ↦
            rw (k, e, take_tables)
              (took k (rw (rows, row_source) (rw e refl))
                (record { kept = out.kept; mapped = out.mapped; dense = out.dense }))
      ]
    ]

Refs-cases :
    (ds : List TensorRef) → (ds ≡ []) ⊎ ((x : TensorRef) × (xs : List TensorRef) × (ds ≡ x ∷ xs))
Refs-cases [] = inl refl
Refs-cases (x ∷ xs) = inr (x, xs, refl)

-- From a state with no row stream, the pending tables that are weights of the run are taken over as a
-- whole or not at all.
pub take_row_gathered-Takeover :
    (h : Host) (tensor_data : ℕ → ℕ) (w : Dense)
    → w.rows ≡ none
    → Takeover h tensor_data (wanted w.row_pending w) w (take_row_gathered h tensor_data w)
unfolding take_row_gathered wanted
take_row_gathered-Takeover h tensor_data w no_rows = elim (Refs-cases w.row_pending) [
  | inl e ↦
      let none_asked : wanted w.row_pending w ≡ [] = ap (λ l. wanted l w) e in
      let emptied : Dense = record w { row_pending = [] } in
      let same : take_row_gathered h tensor_data w ≡ emptied =
        rw (e, take_row_gathered) (λ i. record w { row_pending = e i }) in
      subst (Takeover h tensor_data (wanted w.row_pending w) w) (sym same)
        (untouched (inl none_asked) no_rows refl refl refl)
  | inr (d, ds, e) ↦ elim (Refs-cases (wanted w.row_pending w)) [
    | inl f ↦
        let emptied : Dense = record w { row_pending = [] } in
        let same : take_row_gathered h tensor_data w ≡ emptied =
          rw (e, f, take_row_gathered) refl in
        subst (Takeover h tensor_data (wanted w.row_pending w) w) (sym same)
          (untouched (inl f) no_rows refl refl refl)
    | inr (t, ts, f) ↦
        let emptied : Dense = record w { row_pending = [] } in
        let same : take_row_gathered h tensor_data w ≡ take_tables h tensor_data (t ∷ ts) emptied =
          rw (e, f, take_row_gathered) refl in
        subst₂ (λ l v. Takeover h tensor_data l w v) (sym f) (sym same)
          (elim (take_tables-Takeover h tensor_data (t ∷ ts) emptied) [
            | untouched k a b m r ↦ untouched k a b m r
            | took k s out ↦
                took k s (record { kept = out.kept; mapped = out.mapped; dense = out.dense })
          ])
  ]
]
