-- ===== src/RowStream/Tests.antt =====
-- moe/row_stream.cpp at small inputs: one table of 40000 bytes, three slabs, in a window that holds
-- one of them, and in one that holds the table.
use franken_mo_e_cuda.Prelude.{
  ℕ, ◌+◌, ◌≡◌, refl, true, false, none, some, List, [], ◌∷◌, All, arith, if◌then◌else◌,
}
use franken_mo_e_cuda.Prelude.Int.{ℤ, pos, negsuc}
use franken_mo_e_cuda.Expert.Sequence.{has}
use franken_mo_e_cuda.RowStream.Layout.{Table, Window, Os, Rows, round_up, slab_len, commit_len}
use franken_mo_e_cuda.RowStream.Slabs.{count, total, erase, sort, insert}
use franken_mo_e_cuda.RowStream.Invariant.{IsValid}
use franken_mo_e_cuda.RowStream.Mark.{RowSlabs}
use franken_mo_e_cuda.RowStream.Materialize.{Materialized, materialize-Materialized}
use franken_mo_e_cuda.RowStream.Served.{Within, gather-IsValid, gather-resident, gather-Within}
use franken_mo_e_cuda.RowStream.TakeOver.{TensorRef, Machine, Pool, release, init}
use franken_mo_e_cuda.RowStream.Restore.{init-release}
use franken_mo_e_cuda.RowStream.Ops.{
  find_from, touch, fail, arrive, fetch_slab, evict_slab, evict_walk, evict_to_budget, next_gen,
  mark_slab, mark_span, mark_row, mark_rows, fetch_all, marked, fetch_marked, gather_table,
  gather_rows, gather, drop_slab, drop_slabs, pull_table, materialize,
}

abbrev names : Table
names = record {
  tensor = 7;
  size = 40000;
  file_off = 100;
  file_idx = 0;
  base = 65536;
  row_bytes = 100;
  n_rows = 400;
  orig_data = 5;
}

abbrev narrow : Window
narrow = record { tables = λ ti. names; n_tables = 1; page = 4096; budget_bytes = 20000 }

abbrev wide : Window
wide = record { tables = λ ti. names; n_tables = 1; page = 4096; budget_bytes = 65536 }

abbrev works : Os
works = record { commits = λ cs a n. true; reads = λ cs f dst off len. some len }

abbrev blank : Rows
blank = record {
  resident = λ ti s. false;
  stamp = λ ti s. 0;
  spot = λ ti s. false;
  whole = λ ti. false;
  lru = [];
  gen = 0;
  need = [];
  resident_bytes = 0;
  gathers = 0;
  rows = 0;
  slab_reads = 0;
  bytes_read = 0;
  evictions = 0;
  materialized = 0;
  io_errors = 0;
  calls = [];
}

blank-IsValid : (c : Window) → IsValid c blank
unfolding count total
blank-IsValid c = record {
  pinned = [];
  listed = record {
    once = λ ti s. omega arith;
    placed = λ ti s. omega arith;
    bytes_of = omega arith;
  };
  stamped = record { bound = omega arith; past = λ ti s. omega arith };
  free = λ ti s h. refl;
  wholes = λ ti h. absurd (cc);
}

-- Row 163 lies in slabs 0 and 1; row 350 in slab 2; the indices 400 and -1 in none.
abbrev first : List ℤ
first = pos 350 ∷ pos 400 ∷ negsuc 0 ∷ []

abbrev second : List ℤ
second = pos 163 ∷ pos 350 ∷ []

program : Unit {0}
unfolding find_from touch fail arrive fetch_slab evict_slab evict_walk evict_to_budget next_gen
    mark_slab mark_span mark_row mark_rows fetch_all marked fetch_marked gather_table gather_rows
    gather drop_slab drop_slabs pull_table materialize has count total erase sort insert round_up
    slab_len commit_len
program = tt

abbrev loaded : Rows
loaded = (gather works narrow 7 (some first) blank).1

loaded-IsValid : IsValid narrow loaded
loaded-IsValid = (gather-IsValid works narrow 7 (some first) blank (blank-IsValid narrow)).0

-- The second gather needs all three slabs: it reads two of them, and evicts nothing.
abbrev both : Rows
both = (gather works narrow 7 (some second) loaded).1

both_state :
    (loaded.lru ≡ (0, 2) ∷ [])
    × (loaded.resident_bytes ≡ 8192)
    × (both.need ≡ 0 ∷ 1 ∷ 2 ∷ [])
    × (both.resident_bytes ≡ 40960)
    × (both.evictions ≡ 0)
    × (both.bytes_read ≡ 40000)
unfolding program
both_state = (refl, refl, refl, refl, refl, refl)

-- The third gather needs slab 0 alone, and evicts the others.
abbrev third : Rows
third = (gather works narrow 7 (some (pos 0 ∷ [])) both).1

third_state : (third.lru ≡ (0, 0) ∷ []) × (third.resident_bytes ≡ 16384) × (third.evictions ≡ 2)
unfolding program
third_state = (refl, refl, refl)

-- A commit that is refused.
abbrev full : Os
full = record { commits = λ cs a n. false; reads = λ cs f dst off len. none }

refused_state :
    ((gather full narrow 7 (some first) blank).0 ≡ false)
    × ((gather full narrow 7 (some first) blank).1.io_errors ≡ 1)
    × ((gather full narrow 7 (some first) blank).1.lru ≡ [])
unfolding program
refused_state = (refl, refl, refl)

-- The generation wraps.
wrap_state : (next_gen (record blank { gen = 4294967295 })).gen ≡ 1
unfolding program
wrap_state = refl

pulled_state :
    ((materialize works wide 7 blank).0 ≡ true)
    × ((materialize works wide 7 blank).1.lru ≡ [])
    × ((materialize works wide 7 blank).1.resident_bytes ≡ 40960)
    × ((materialize works narrow 7 blank).0 ≡ false)
unfolding program
pulled_state = (refl, refl, refl, refl)

gather-IsValid_example :
    IsValid narrow both
    × (both.io_errors
        ≡ loaded.io_errors + (if (gather works narrow 7 (some second) loaded).0 then 0 else 1))
gather-IsValid_example = gather-IsValid works narrow 7 (some second) loaded loaded-IsValid

gather-resident_example : All (RowSlabs narrow 0 (λ j. both.resident 0 j ≡ true)) second
unfolding program
gather-resident_example = gather-resident works narrow 7 0 second loaded loaded-IsValid refl refl

gather-Within_example : Within narrow both
unfolding program
gather-Within_example =
    gather-Within works narrow 7 0 (pos 163) (pos 350 ∷ []) loaded loaded-IsValid (omega arith) refl
      refl refl

materialize-Materialized_example :
    Materialized wide 7 blank (materialize works wide 7 blank).0 (materialize works wide 7 blank).1
materialize-Materialized_example = materialize-Materialized works wide 7 blank (blank-IsValid wide)

-- Two tables; the second reservation fails.
abbrev refs : List TensorRef
refs =
    record { tensor = 7; size = 40000; file_off = 0; file_idx = pos 0; nb1 = 100; ne1 = 400 }
    ∷ record { tensor = 9; size = 500; file_off = 40000; file_idx = pos 0; nb1 = 50; ne1 = 10 }
    ∷ []

abbrev machine : Machine
machine = record {
  page = 4096;
  opens = λ f. true;
  reserve = λ cs n. elim cs [ [] ↦ 65536 | _ ∷ _ ↦ 0 ];
}

abbrev pool : Pool
pool = record {
  tables = [];
  n_readers = 0;
  budget_bytes = 0;
  table_bytes = 0;
  tensor_data = λ t. t + 1;
  calls = [];
}

init-release_example :
    ((init machine refs (0 ∷ []) 0 pool).0 ≡ false
      → ((init machine refs (0 ∷ []) 0 pool).1.tables ≡ [])
        × ((t : ℕ) → (init machine refs (0 ∷ []) 0 pool).1.tensor_data t ≡ t + 1))
    × ((t : ℕ) → (release machine (init machine refs (0 ∷ []) 0 pool).1).tensor_data t ≡ t + 1)
init-release_example =
    init-release machine refs (0 ∷ []) 0 pool refl (((λ e. omega arith), tt), (tt, tt))
      ((λ e. omega arith), ((λ e. omega arith), tt))
