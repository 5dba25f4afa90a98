-- ===== src/RowStream/Ops.antt =====
-- moe/row_stream.cpp: lookup, fetch, eviction, gather and materialize.
use franken_mo_e_cuda.Prelude.{
  ℕ, zero, suc, ◌+◌, ◌-◌, ◌*◌, ◌/◌, ◌%◌, ◌^◌, min, Bool, true, false, ◌&&◌, Option, none, some,
  List, [], ◌∷◌, ◌++◌, ltb, leb, ◌==◌, if◌then◌else◌, update, length,
}
use franken_mo_e_cuda.Prelude.Int.{ℤ, pos, negsuc}
use franken_mo_e_cuda.RowStream.Layout.{
  slab_bytes, Window, n_slabs, slab_len, commit_len, SlabId, Call, vm_commit, vm_evict, read, Os,
  Rows, update_at,
}
use franken_mo_e_cuda.RowStream.Slabs.{erase, sort}

-- find(): the first table of the tensor, from index `i` on, `k` tables being left.
unfoldable pub find_from : Window → ℕ → ℕ → ℕ → Option ℕ
find_from c tensor zero i = none
find_from c tensor (suc k) i =
    if (c.tables i).tensor == tensor then some i else find_from c tensor k (suc i)

abbrev pub find : Window → ℕ → Option ℕ
find c tensor = find_from c tensor c.n_tables 0

unfoldable pub serves : Window → ℕ → Bool
serves c tensor = elim (find c tensor) [ none ↦ false | some ti ↦ true ]

unfoldable pub touch : ℕ → ℕ → Rows → Rows
touch ti s w = record w {
  lru = (if w.spot ti s then erase (ti, s) w.lru else w.lru) ++ (ti, s) ∷ [];
  spot = update_at w.spot ti s true;
}

-- The calls of a fetch: the commit, and the read if that succeeded.
abbrev pub commit_call : Window → ℕ → ℕ → Call
commit_call c ti s = vm_commit ((c.tables ti).base + s * slab_bytes) (commit_len c ti s)

abbrev pub fetch_len : Window → ℕ → ℕ → ℕ
fetch_len c ti s = slab_len (c.tables ti).size s slab_bytes

unfoldable pub fail : Rows → Rows
fail w = record w { io_errors = w.io_errors + 1 }

-- What a read leaves: `got` bytes, or an error.
unfoldable pub arrive : Window → ℕ → ℕ → Option ℕ → Rows → Bool × Rows
arrive c ti s none w = (false, fail w)
arrive c ti s (some got) w =
    let there = touch ti s (record w { resident = update_at w.resident ti s true }) in
    (
      true,
      record there {
        resident_bytes = there.resident_bytes + commit_len c ti s;
        slab_reads = there.slab_reads + 1;
        bytes_read = there.bytes_read + got;
      },
    )

unfoldable pub fetch_slab : Os → Window → ℕ → ℕ → Rows → Bool × Rows
fetch_slab os c ti s w =
    let t = c.tables ti in
    let off = s * slab_bytes in
    let len = fetch_len c ti s in
    let asked = record w { calls = commit_call c ti s ∷ w.calls } in
    let sent = record asked {
      calls = read t.file_idx (t.base + off) (t.file_off + off) len ∷ asked.calls;
    } in
    if w.resident ti s
    then (true, touch ti s w)
    else if os.commits w.calls (t.base + off) (commit_len c ti s)
    then arrive c ti s (os.reads asked.calls t.file_idx (t.base + off) (t.file_off + off) len) sent
    else (false, fail asked)

-- Whether `headroom` more bytes fit under the budget.
abbrev pub fits : Window → ℕ → Rows → Bool
fits c headroom w = leb (w.resident_bytes + headroom) c.budget_bytes

unfoldable pub evict_slab : Window → SlabId → Rows → Rows
evict_slab c k w = record w {
  calls = vm_evict ((c.tables k.0).base + k.1 * slab_bytes) (commit_len c k.0 k.1) ∷ w.calls;
  resident = update_at w.resident k.0 k.1 false;
  spot = update_at w.spot k.0 k.1 false;
  resident_bytes = w.resident_bytes - commit_len c k.0 k.1;
  evictions = w.evictions + 1;
  lru = erase k w.lru;
}

-- The loop over lru_, at the iterator that has `ks` before it.
unfoldable pub evict_walk : Window → ℕ → List SlabId → Rows → Rows
evict_walk c headroom [] w = w
evict_walk c headroom (k ∷ ks) w = elim (fits c headroom w) [
  | true ↦ w
  | false ↦ elim (w.stamp k.0 k.1 == w.gen) [
    | true ↦ evict_walk c headroom ks w
    | false ↦ evict_walk c headroom ks (evict_slab c k w)
  ]
]

unfoldable pub evict_to_budget : Window → ℕ → Rows → Rows
evict_to_budget c headroom w =
    let walked = evict_walk c headroom w.lru w in if fits c headroom w then w else walked

-- `++gen_` on 32 bits; on a wrap no stamp may claim to be from the current gather.
unfoldable pub next_gen : Rows → Rows
next_gen w =
    let g = (w.gen + 1) % 2 ^ 32 in
    if g == 0 then record w { stamp = λ ti s. 0; gen = 1 } else record w { gen = g }

-- The state, and the local `missing`.
pub record Marking : Type 0 where
  pub at : Rows
  pub missing : ℕ

-- A slab that a row of the gather needs.
unfoldable pub mark_slab : ℕ → ℕ → Marking → Marking
mark_slab ti s m = if m.at.stamp ti s == m.at.gen then m else record {
  at = record m.at { stamp = update_at m.at.stamp ti s m.at.gen; need = m.at.need ++ s ∷ [] };
  missing = if m.at.resident ti s then m.missing else m.missing + slab_bytes;
}

-- The slabs of the bytes below `b`, from slab `s` on; `fuel` rounds at most.
unfoldable pub mark_span : Window → ℕ → ℕ → ℕ → ℕ → Marking → Marking
mark_span c ti b zero s m = m
mark_span c ti b (suc fuel) s m = elim (ltb (s * slab_bytes) b && ltb s (n_slabs c ti)) [
  | true ↦ mark_span c ti b fuel (suc s) (mark_slab ti s m)
  | false ↦ m
]

-- A row outside the table is skipped. No loop runs over more than the slabs of the table.
unfoldable pub mark_row : Window → ℕ → ℤ → Marking → Marking
mark_row c ti (negsuc r) m = m
mark_row c ti (pos r) m =
    let t = c.tables ti in
    let a = r * t.row_bytes in
    let b = min (a + t.row_bytes) t.size in
    if leb t.n_rows r then m else mark_span c ti b (n_slabs c ti) (a / slab_bytes) m

unfoldable pub mark_rows : Window → ℕ → List ℤ → Marking → Marking
mark_rows c ti [] m = m
mark_rows c ti (r ∷ rs) m = mark_rows c ti rs (mark_row c ti r m)

-- `for (s : need_) if (!fetch_slab(*t, s)) return false`.
unfoldable pub fetch_all : Os → Window → ℕ → List ℕ → Rows → Bool × Rows
fetch_all os c ti [] w = (true, w)
fetch_all os c ti (s ∷ ss) w = elim (fetch_slab os c ti s w).0 [
  | true ↦ fetch_all os c ti ss (fetch_slab os c ti s w).1
  | false ↦ (false, (fetch_slab os c ti s w).1)
]

-- The gather of a served table that is not whole, from `++gen_` on.
unfoldable pub marked : Window → ℕ → List ℤ → Rows → Marking
marked c ti idx w =
    mark_rows c ti idx (record { at = record (next_gen w) { need = [] }; missing = 0 })

unfoldable pub fetch_marked : Os → Window → ℕ → Marking → Bool × Rows
fetch_marked os c ti m =
    let room = evict_to_budget c m.missing m.at in
    let sorted = sort room.need in
    elim m.at.need [
      | [] ↦ (true, m.at)
      | _ ∷ _ ↦ fetch_all os c ti sorted (record room { need = sorted })
    ]

-- gather(): `none` is a null pointer for the indices; `n` is their number, so that `n <= 0` is the
-- empty list.
unfoldable pub gather_table : Os → Window → ℕ → List ℤ → Rows → Bool × Rows
gather_table os c ti idx w =
    fetch_marked os c ti (marked c ti idx (record w { rows = w.rows + length idx }))

unfoldable pub gather_rows : Os → Window → ℕ → Option (List ℤ) → Rows → Bool × Rows
gather_rows os c ti none w = (true, w)
gather_rows os c ti (some []) w = (true, w)
gather_rows os c ti (some (r ∷ rs)) w = gather_table os c ti (r ∷ rs) w

unfoldable pub gather : Os → Window → ℕ → Option (List ℤ) → Rows → Bool × Rows
gather os c tensor idx w = elim (find c tensor) [
  | none ↦ (true, w)
  | some ti ↦
      let counted = record w { gathers = w.gathers + 1 } in
      elim (w.whole ti) [ true ↦ (true, counted) | false ↦ gather_rows os c ti idx counted ]
]

-- The slabs `s`, `s + 1`, ... of a table, `k` of them.
abbrev pub slabs_from : ℕ → ℕ → List ℕ
slabs_from zero s = []
slabs_from (suc k) s = s ∷ slabs_from k (suc s)

-- A slab of a materialized table leaves the list.
unfoldable pub drop_slab : ℕ → ℕ → Rows → Rows
drop_slab ti s w =
    if w.spot ti s
    then record w { lru = erase (ti, s) w.lru; spot = update_at w.spot ti s false }
    else w

unfoldable pub drop_slabs : ℕ → List ℕ → Rows → Rows
drop_slabs ti [] w = w
drop_slabs ti (s ∷ ss) w = drop_slabs ti ss (drop_slab ti s w)

unfoldable pub pull_table : Os → Window → ℕ → Rows → Bool × Rows
pull_table os c ti w =
    let all = slabs_from (n_slabs c ti) 0 in
    let fetched = fetch_all os c ti all w in
    let dropped = drop_slabs ti all fetched.1 in
    elim fetched.0 [
      | false ↦ (false, fetched.1)
      | true ↦ (
        true,
        record dropped {
          whole = update dropped.whole ti true;
          materialized = dropped.materialized + 1;
        },
      )
    ]

unfoldable pub materialize : Os → Window → ℕ → Rows → Bool × Rows
materialize os c tensor w = elim (find c tensor) [
  | none ↦ (true, w)
  | some ti ↦ elim (w.whole ti) [
    | true ↦ (true, w)
    | false ↦ elim (ltb c.budget_bytes (c.tables ti).size) [
      | true ↦ (false, fail w)
      | false ↦ pull_table os c ti w
    ]
  ]
]
