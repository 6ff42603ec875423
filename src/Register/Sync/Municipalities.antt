-- ===== src/Register/Sync/Municipalities.antt =====
-- register/sync/municipalities.rs: step 1 of a run. Row ids are the numbers that they compare as: the
-- planner only compares them.
pub mod State
pub mod Groups
pub mod Renumber
pub mod Records
pub mod Plan
pub mod Sound
pub mod Counted
pub mod Renumbered
pub mod Recorded
pub mod Total
