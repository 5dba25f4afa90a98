-- ===== src/RowStream/Layout.antt =====
-- moe/row_stream.h: the tables taken over, the state of the window, and the calls it makes.
use franken_mo_e_cuda.Prelude.{ℕ, ◌+◌, ◌-◌, ◌*◌, ◌/◌, min, Bool, Option, List, update}

-- slab_bytes and default_budget_bytes.
abbrev pub slab_bytes : ℕ
slab_bytes = 16384

abbrev pub default_budget_bytes : ℕ
default_budget_bytes = 67108864

-- The part of a Table that init() fixes; `tensor` names the ggml tensor.
pub record Table : Type 0 where
  pub tensor : ℕ
  pub size : ℕ
  pub file_off : ℕ
  pub file_idx : ℕ
  pub base : ℕ
  pub row_bytes : ℕ
  pub n_rows : ℕ
  pub orig_data : ℕ

-- tables_ (n_tables of them), page_ and budget_bytes_.
pub record Window : Type 0 where
  pub tables : ℕ → Table
  pub n_tables : ℕ
  pub page : ℕ
  pub budget_bytes : ℕ

unfoldable pub round_up : ℕ → ℕ → ℕ
round_up v a = (v + a - 1) / a * a

abbrev pub span : Window → ℕ → ℕ
span c ti = round_up (c.tables ti).size c.page

abbrev pub n_slabs : Window → ℕ → ℕ
n_slabs c ti = round_up (c.tables ti).size slab_bytes / slab_bytes

unfoldable pub slab_len : ℕ → ℕ → ℕ → ℕ
slab_len size s slab = min slab (size - s * slab)

-- The bytes that a slab takes from the window: whole pages, within the reservation.
unfoldable pub commit_len : Window → ℕ → ℕ → ℕ
commit_len c ti s =
    min (round_up (slab_len (c.tables ti).size s slab_bytes) c.page) (span c ti - s * slab_bytes)

-- An element of lru_: the table and the slab.
abbrev pub SlabId : Type 0
SlabId = ℕ × ℕ

-- What the window asks of the operating system and of the readers of the shards.
pub data Call : Type 0 where
  vm_commit vm_evict : ℕ → ℕ → Call
  read : ℕ → ℕ → ℕ → ℕ → Call

-- The answers: whether a commit succeeds, and the bytes that a read (shard, address, offset, length)
-- delivers, `none` for an error. They depend on all the calls so far, newest first.
pub record Os : Type 0 where
  pub commits : List Call → ℕ → ℕ → Bool
  pub reads : List Call → ℕ → ℕ → ℕ → ℕ → Option ℕ

-- `resident`, `stamp` and `spot` are indexed by the table and the slab; `spot` says whether the
-- iterator of a slab is other than lru_.end(). `need` is the scratch list of the gather in flight.
pub record Rows : Type 0 where
  pub resident : ℕ → ℕ → Bool
  pub stamp : ℕ → ℕ → ℕ
  pub spot : ℕ → ℕ → Bool
  pub whole : ℕ → Bool
  pub lru : List SlabId
  pub gen : ℕ
  pub need : List ℕ
  pub resident_bytes : ℕ
  pub gathers : ℕ
  pub rows : ℕ
  pub slab_reads : ℕ
  pub bytes_read : ℕ
  pub evictions : ℕ
  pub materialized : ℕ
  pub io_errors : ℕ
  pub calls : List Call

-- A write to a flag of one slab.
abbrev pub update_at {ℓ} : {A : Type ℓ} → (ℕ → ℕ → A) → ℕ → ℕ → A → ℕ → ℕ → A
update_at f ti s v = update f ti (update (f ti) s v)
