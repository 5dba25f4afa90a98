-- ===== src/RowStream/TakeOver.antt =====
-- moe/row_stream.cpp, init(), release() and stats(): the tables that are taken over, and where their
-- tensors point.
use franken_mo_e_cuda.Prelude.{
  ℕ, ◌+◌, max, Bool, true, false, ◌&&◌, ◌||◌, Option, none, some, List, [], ◌∷◌, ◌++◌, ltb, ◌==◌,
  if◌then◌else◌, update, length,
}
use franken_mo_e_cuda.Prelude.Int.{ℤ, pos, negsuc}
use franken_mo_e_cuda.RowStream.Layout.{Table, round_up, slab_bytes, default_budget_bytes}

-- A DenseTensorRef with what init() reads of its tensor: nb[1] and ne[1]. `tensor` is 0 for null.
pub record TensorRef : Type 0 where
  pub tensor : ℕ
  pub size : ℕ
  pub file_off : ℕ
  pub file_idx : ℤ
  pub nb1 : ℕ
  pub ne1 : ℕ

pub data MapCall : Type 0 where
  vm_reserve : ℕ → MapCall
  vm_release : ℕ → ℕ → MapCall

-- What init() needs of its surroundings: the page size, whether the reader of a path opens, and the
-- address of a reservation, 0 for null, from the calls so far.
pub record Machine : Type 0 where
  pub page : ℕ
  pub opens : ℕ → Bool
  pub reserve : List MapCall → ℕ → ℕ

-- The members that init() and release() write, and `tensor_data`, where the tensors point.
pub record Pool : Type 0 where
  pub tables : List Table
  pub n_readers : ℕ
  pub budget_bytes : ℕ
  pub table_bytes : ℕ
  pub tensor_data : ℕ → ℕ
  pub calls : List MapCall

-- The loop of release(): the data pointers, and the reservations.
unfoldable pub restore : List Table → (ℕ → ℕ) → ℕ → ℕ
restore [] to = to
restore (t ∷ ts) to = restore ts (if t.orig_data == 0 then to else update to t.tensor t.orig_data)

unfoldable pub give_back : Machine → List Table → List MapCall → List MapCall
give_back h [] cs = cs
give_back h (t ∷ ts) cs =
    give_back h ts (if t.base == 0 then cs else vm_release t.base (round_up t.size h.page) ∷ cs)

unfoldable pub release : Machine → Pool → Pool
release h p = record p {
  tensor_data = restore p.tables p.tensor_data;
  calls = give_back h p.tables p.calls;
  tables = [];
  n_readers = 0;
  table_bytes = 0;
}

-- A shard index that names a reader.
unfoldable pub shard_of : Pool → ℤ → Option ℕ
shard_of p (pos i) = if ltb i p.n_readers then some i else none
shard_of p (negsuc i) = none

abbrev pub table_of : TensorRef → ℕ → ℕ → ℕ → Table
table_of d shard base orig = record {
  tensor = d.tensor;
  size = d.size;
  file_off = d.file_off;
  file_idx = shard;
  base = base;
  row_bytes = d.nb1;
  n_rows = d.ne1;
  orig_data = orig;
}

-- A table with its reservation at `base`.
unfoldable pub take_one : TensorRef → ℕ → ℕ → List MapCall → Pool → Pool
take_one d shard base calls p = record p {
  tables = p.tables ++ table_of d shard base (p.tensor_data d.tensor) ∷ [];
  tensor_data = update p.tensor_data d.tensor base;
  table_bytes = p.table_bytes + d.size;
  calls = calls;
}

-- The loop over the tensors.
unfoldable pub take_over : Machine → List TensorRef → Pool → Bool × Pool
take_over h [] p = (true, p)
take_over h (d ∷ ds) p =
    let bytes = round_up d.size h.page in
    let base = h.reserve p.calls bytes in
    let calls = vm_reserve bytes ∷ p.calls in
    elim ((d.tensor == 0) || (d.size == 0)) [
      | true ↦ take_over h ds p
      | false ↦ elim (shard_of p d.file_idx) [
        | none ↦ (false, release h p)
        | some shard ↦ elim ((d.nb1 == 0) || (d.ne1 == 0)) [
          | true ↦ take_over h ds p
          | false ↦ elim (base == 0) [
            | true ↦ (false, release h (record p { calls = calls }))
            | false ↦ take_over h ds (take_one d shard base calls p)
          ]
        ]
      ]
    ]

unfoldable pub all_open : Machine → List ℕ → Bool
all_open h [] = true
all_open h (f ∷ fs) = let rest = all_open h fs in h.opens f && rest

-- init(), with `budget` bytes asked for; paths are named by numbers.
unfoldable pub init_budget : ℕ → ℕ
init_budget budget = max (if budget == 0 then default_budget_bytes else budget) slab_bytes

unfoldable pub init : Machine → List TensorRef → List ℕ → ℕ → Pool → Bool × Pool
init h [] paths budget p = (true, p)
init h (d ∷ ds) paths budget p =
    let sized = record p { budget_bytes = init_budget budget } in
    let taken = take_over h (d ∷ ds) (record sized { n_readers = length paths }) in
    elim (all_open h paths) [
      | false ↦ (false, record sized { n_readers = 0 })
      | true ↦ elim taken.1.tables [
        | [] ↦ (taken.0, record taken.1 { n_readers = 0 })
        | _ ∷ _ ↦ taken
      ]
    ]
