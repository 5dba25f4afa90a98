-- ===== src/Dense.antt =====
-- moe/dense_weights.h and .cpp: the weights that every token reads, and the byte ranges they take in
-- the files.
pub mod Ranges
pub mod Gaps
pub mod Subtract
pub mod State
pub mod Carve
pub mod Hold
pub mod Take
pub mod Pages
pub mod Prepare
mod Tests
