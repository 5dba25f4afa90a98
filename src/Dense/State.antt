-- ===== src/Dense/State.antt =====
-- moe/dense_weights.h: the state, and the tensors that are kept out of the resident set.
use franken_mo_e_cuda.Prelude.{
  ℕ, zero, suc, ◌+◌, ◌-◌, Bool, true, false, ◌&&◌, ◌||◌, Option, none, some, List, [], ◌∷◌, ◌++◌,
  ltb, leb, ◌==◌, if◌then◌else◌, get_elem?,
}
use franken_mo_e_cuda.Prelude.Int.{ℤ, pos, negsuc}
use franken_mo_e_cuda.Config.{DenseWeightsMode}
use franken_mo_e_cuda.Expert.Entries.{page_floor, page_ceil}
use franken_mo_e_cuda.RowStream.TakeOver.{TensorRef, Machine, Pool, init}
use franken_mo_e_cuda.Dense.Ranges.{Range, subtract_range}

-- pio::MappedRegion: addresses, and the offset in the file.
pub record MappedRegion : Type 0 where
  pub start : ℕ
  pub end : ℕ
  pub file_offset : ℕ

-- `rows` is rows_, `none` for null. `page_calls` is the sequence of vm_drop_file_pages and
-- vm_advise_random calls, newest first.
pub data PageCall : Type 0 where
  drop_file_pages advise_random : ℕ → ℕ → PageCall

pub record Dense : Type 0 where
  pub mode : DenseWeightsMode
  pub paths : List ℕ
  pub tensors : List TensorRef
  pub mapped : List TensorRef
  pub ranges : List (List Range)
  pub row_pending : List TensorRef
  pub row_budget : ℕ
  pub rows : Option Pool
  pub vmas : List (List MappedRegion)
  pub vmas_tried : Bool
  pub page_calls : List PageCall

-- What is measured: the pages, the reservations, and the regions in which each shard is mapped.
pub record Host : Type 0 where
  pub machine : Machine
  pub regions : List (List MappedRegion)

-- subtract_range() of the ranges of one shard.
unfoldable pub carve_at : ℕ → ℕ → ℕ → List (List Range) → List (List Range)
carve_at s a b [] = []
carve_at zero a b (rs ∷ rss) = subtract_range a b rs ∷ rss
carve_at (suc s) a b (rs ∷ rss) = rs ∷ carve_at s a b rss

unfoldable pub carve : TensorRef → List (List Range) → List (List Range)
carve d ranges = elim d.file_idx [
  | pos s ↦ carve_at s d.file_off (d.file_off + d.size) ranges
  | negsuc s ↦ ranges
]

-- The loop of hold_back_oversized(): `tensors` is the local `keep`.
unfoldable pub hold_each : ℕ → List TensorRef → Dense → Dense
hold_each avail [] w = w
hold_each avail (d ∷ ds) w = elim (leb d.size avail) [
  | true ↦ hold_each avail ds (record w { tensors = w.tensors ++ d ∷ [] })
  | false ↦ hold_each avail ds (record w { mapped = w.mapped ++ d ∷ []; ranges = carve d w.ranges })
]

-- `avail` is pio::mem_available_bytes(), 0 where it is not measured.
unfoldable pub hold_back_oversized : ℕ → Dense → Dense
hold_back_oversized avail w =
    let cleared = record w { mapped = [] } in
    let held = hold_each avail w.tensors (record cleared { tensors = [] }) in
    if avail == 0 then cleared else held

unfoldable pub set_row_gathered : List TensorRef → ℕ → Dense → Dense
set_row_gathered tables budget_bytes w = record w {
  row_pending = tables;
  row_budget = budget_bytes;
}

unfoldable pub row_source : Dense → Option Pool
row_source w = elim w.rows [ none ↦ none | some p ↦ elim p.tables [ [] ↦ none | _ ∷ _ ↦ some p ] ]

unfoldable pub resolve_vmas : Host → Dense → Dense
resolve_vmas h w = if w.vmas_tried then w else record w { vmas_tried = true; vmas = h.regions }

-- The address of an offset in the regions of one shard.
unfoldable pub find_region : List MappedRegion → ℕ → Option ℕ
find_region [] off = none
find_region (v ∷ vs) off =
    let span = v.end - v.start in
    let later = find_region vs off in
    if leb v.file_offset off && ltb off (v.file_offset + span)
    then some (v.start + (off - v.file_offset))
    else later

unfoldable pub addr_of : Dense → ℤ → ℕ → Option ℕ
addr_of w (negsuc s) off = none
addr_of w (pos s) off = elim (get_elem? w.vmas s) [ none ↦ none | some vs ↦ find_region vs off ]

-- The whole pages in the `size` bytes at an address: the address and the length of a call.
unfoldable pub inner_pages : ℕ → ℕ → ℕ → Option (ℕ × ℕ)
inner_pages page a size =
    let a0 = page_ceil page a in
    let a1 = page_floor page (a + size) in if ltb a0 a1 then some (a0, a1 - a0) else none

-- A call for the pages of a tensor, if it is mapped and has a whole page.
unfoldable pub page_call : (ℕ → ℕ → PageCall) → ℕ → TensorRef → Dense → Dense
page_call call page d w = elim (addr_of w d.file_idx d.file_off) [
  | none ↦ w
  | some a ↦ elim (inner_pages page a d.size) [
    | none ↦ w
    | some (s, n) ↦ record w { page_calls = call s n ∷ w.page_calls }
  ]
]

unfoldable pub page_calls_of : (ℕ → ℕ → PageCall) → ℕ → List TensorRef → Dense → Dense
page_calls_of call page [] w = w
page_calls_of call page (d ∷ ds) w = page_calls_of call page ds (page_call call page d w)

unfoldable pub advise_random_mapped : Host → Dense → Dense
advise_random_mapped h w = elim w.mapped [
  | [] ↦ w
  | d ∷ ds ↦ page_calls_of advise_random h.machine.page (d ∷ ds) (resolve_vmas h w)
]

-- drop_mmap_copies() skips a null tensor and an empty one.
unfoldable pub real_tensors : List TensorRef → List TensorRef
real_tensors [] = []
real_tensors (d ∷ ds) =
    let rest = real_tensors ds in if (d.tensor == 0) || (d.size == 0) then rest else d ∷ rest

unfoldable pub drop_mmap_copies : Host → Dense → Dense
drop_mmap_copies h w =
    page_calls_of drop_file_pages h.machine.page (real_tensors w.tensors) (resolve_vmas h w)

-- std::any_of over the tensors.
unfoldable pub names : ℕ → List TensorRef → Bool
names tensor [] = false
names tensor (d ∷ ds) = let rest = names tensor ds in (d.tensor == tensor) || rest

-- The pending tables that are weights of the run.
unfoldable pub wanted : List TensorRef → Dense → List TensorRef
wanted [] w = []
wanted (d ∷ ds) w =
    let rest = wanted ds w in
    if names d.tensor w.tensors || names d.tensor w.mapped then d ∷ rest else rest

-- The loop over tensors_ after a takeover of `take`: `tensors` is the local `keep`.
unfoldable pub leave_each : List TensorRef → List TensorRef → Dense → Dense
leave_each take [] w = w
leave_each take (d ∷ ds) w = elim (names d.tensor take) [
  | false ↦ leave_each take ds (record w { tensors = w.tensors ++ d ∷ [] })
  | true ↦ leave_each take ds (record w { ranges = carve d w.ranges })
]

-- std::remove_if over mapped_.
unfoldable pub without : List TensorRef → List TensorRef → List TensorRef
without take [] = []
without take (d ∷ ds) = let rest = without take ds in if names d.tensor take then rest else d ∷ rest

-- After a successful takeover.
unfoldable pub leave_set : Host → List TensorRef → Dense → Dense
leave_set h take w =
    let dropped = page_calls_of drop_file_pages h.machine.page take (resolve_vmas h w) in
    let left = leave_each take dropped.tensors (record dropped { tensors = [] }) in
    record left { mapped = without take left.mapped }

-- RowStream::init() of a new stream, on the tensors as they point.
abbrev pub new_rows : (ℕ → ℕ) → Pool
new_rows tensor_data = record {
  tables = [];
  n_readers = 0;
  budget_bytes = 0;
  table_bytes = 0;
  tensor_data = tensor_data;
  calls = [];
}

unfoldable pub take_tables : Host → (ℕ → ℕ) → List TensorRef → Dense → Dense
take_tables h tensor_data take w =
    let made = init h.machine take w.paths w.row_budget (new_rows tensor_data) in
    let taken = leave_set h take (record w { rows = some made.1 }) in
    elim made.0 [
      | false ↦ record w { rows = none }
      | true ↦ elim made.1.tables [ [] ↦ record w { rows = none } | _ ∷ _ ↦ taken ]
    ]

unfoldable pub take_row_gathered : Host → (ℕ → ℕ) → Dense → Dense
take_row_gathered h tensor_data w = elim w.row_pending [
  | [] ↦ w
  | _ ∷ _ ↦
      let emptied = record w { row_pending = [] } in
      elim (wanted w.row_pending w) [
        | [] ↦ emptied
        | t ∷ ts ↦ take_tables h tensor_data (t ∷ ts) emptied
      ]
]
