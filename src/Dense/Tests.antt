-- ===== src/Dense/Tests.antt =====
-- moe/dense_weights.cpp at small inputs: one shard of 10000 bytes with two ranges of experts.
use franken_mo_e_cuda.Prelude.{
  ℕ, ◌≡◌, refl, true, false, ◌&&◌, not, none, List, [], ◌∷◌, arith, ltb,
}
use franken_mo_e_cuda.Prelude.Int.{pos}
use franken_mo_e_cuda.Config.{warmed}
use franken_mo_e_cuda.RowStream.TakeOver.{
  TensorRef, init, take_over, all_open, shard_of, take_one, init_budget,
}
use franken_mo_e_cuda.RowStream.Layout.{round_up}
use franken_mo_e_cuda.Dense.Ranges.{
  Range, byte_ranges, gaps, sort, insert, leb_range, covers, subtract_range, cut, Ascending,
}
use franken_mo_e_cuda.Dense.Gaps.{byte_ranges-covers}
use franken_mo_e_cuda.Dense.State.{
  Dense, Host, drop_file_pages, page_call, page_calls_of, resolve_vmas, find_region, addr_of,
  inner_pages, hold_each, hold_back_oversized, carve, carve_at, names, wanted, leave_each, without,
  leave_set, take_tables, take_row_gathered,
}
use franken_mo_e_cuda.Dense.Hold.{select}
use franken_mo_e_cuda.Dense.Prepare.{settle_set, Settled, settle_set-Settled}

abbrev experts : List Range
experts = (6000, 9000) ∷ (1000, 3000) ∷ (2000, 4000) ∷ []

program : Unit {0}
unfolding byte_ranges gaps sort insert leb_range covers subtract_range cut page_call page_calls_of
    resolve_vmas find_region addr_of inner_pages hold_each hold_back_oversized carve carve_at names
    wanted leave_each without leave_set take_tables take_row_gathered init take_over all_open
    shard_of take_one init_budget round_up select
program = tt

byte_ranges_state : byte_ranges experts 10000 ≡ (0, 1000) ∷ (4000, 6000) ∷ (9000, 10000) ∷ []
unfolding program
byte_ranges_state = refl

byte_ranges-covers_example :
    ((x : ℕ) → covers x (byte_ranges experts 10000) ≡ (ltb x 10000 && not (covers x experts)))
    × Ascending 0 (byte_ranges experts 10000)
byte_ranges-covers_example =
    byte_ranges-covers 10000 experts
      ((omega arith, omega arith), ((omega arith, omega arith), ((omega arith, omega arith), tt)))

-- A weight of 500 bytes, and a table of 1500.
abbrev small : TensorRef
small = record { tensor = 1; size = 500; file_off = 0; file_idx = pos 0; nb1 = 100; ne1 = 5 }

abbrev table : TensorRef
table = record { tensor = 2; size = 1500; file_off = 4100; file_idx = pos 0; nb1 = 100; ne1 = 15 }

abbrev begun : Dense
begun = record {
  mode = warmed;
  paths = 0 ∷ [];
  tensors = small ∷ table ∷ [];
  mapped = [];
  ranges = ((0, 1000) ∷ (4000, 6000) ∷ (9000, 10000) ∷ []) ∷ [];
  row_pending = table ∷ [];
  row_budget = 0;
  rows = none;
  vmas = [];
  vmas_tried = false;
  page_calls = [];
}

abbrev host : Host
host = record {
  machine = record { page = 16; opens = λ f. true; reserve = λ cs n. 4096 };
  regions = (record { start = 100000; end = 110000; file_offset = 0 } ∷ []) ∷ [];
}

abbrev avail : ℕ
avail = 1000

-- With 1000 bytes of memory the table is held back.
held_state :
    ((hold_back_oversized 1000 begun).tensors ≡ small ∷ [])
    × ((hold_back_oversized 1000 begun).ranges
        ≡ ((0, 1000) ∷ (4000, 4100) ∷ (5600, 6000) ∷ (9000, 10000) ∷ []) ∷ [])
unfolding program
held_state = (refl, refl)

taken_state :
    ((take_row_gathered host (λ t. t) begun).tensors ≡ small ∷ [])
    × ((take_row_gathered host (λ t. t) begun).ranges
        ≡ ((0, 1000) ∷ (4000, 4100) ∷ (5600, 6000) ∷ (9000, 10000) ∷ []) ∷ [])
    × ((take_row_gathered host (λ t. t) begun).page_calls ≡ drop_file_pages 104112 1488 ∷ [])
unfolding program
taken_state = (refl, refl, refl)

settle_set-Settled_example :
    Settled host (λ t. t) avail begun (settle_set host (λ t. t) avail begun)
settle_set-Settled_example =
    settle_set-Settled host (λ t. t) avail begun (λ z. omega (arith, z)) refl
