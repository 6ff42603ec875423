-- ===== src/Register/Sync.antt =====
-- register/sync/: the planner of a register sync run: its types, its two planners, its totals and its breaker.
pub mod Types
pub mod Totals
pub mod Outcome
pub mod Municipalities
pub mod Similarity
pub mod Schools
pub mod Run
