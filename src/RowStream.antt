-- ===== src/RowStream.antt =====
-- moe/row_stream.h and .cpp: tables that the graph only reads by row, served from the file through a
-- bounded window of slabs.
pub mod Layout
pub mod Slabs
pub mod Ops
pub mod Invariant
pub mod Fetch
pub mod Evict
pub mod Mark
pub mod Gather
pub mod Materialize
pub mod Served
pub mod TakeOver
pub mod Restore
mod Tests
