-- ===== src/Expert.antt =====
-- moe/expert_stream_source.h and .cpp: the bounded cache of expert slices.
pub mod Layout
pub mod State
pub mod Sequence
pub mod Invariant
pub mod Entries
pub mod Pages
pub mod Evict
pub mod Touch
mod Retain
pub mod Spec
pub mod Settle
pub mod Load
pub mod Staged
pub mod Batch
pub mod Loaded
pub mod Budget
pub mod Progress
pub mod Sample
mod Tests
