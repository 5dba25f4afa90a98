-- ===== src/Router.antt =====
-- moe/router_hook.cpp: what the hook does to a routing between the router and the experts.
pub mod Rank
pub mod TopK
pub mod Drop
pub mod Kept
pub mod Renorm
pub mod Policy
pub mod Dropped
pub mod Loaded
pub mod Chain
pub mod Once
pub mod Substitute
pub mod Substituted
mod Tests
