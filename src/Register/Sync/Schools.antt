-- ===== src/Register/Sync/Schools.antt =====
-- register/sync/schools.rs: step 5 of a run. A call that would panic is `none`.
pub mod Data
pub mod Book
pub mod Classify
pub mod Place
pub mod Update
pub mod Plan
pub mod Sorted
pub mod Placed
pub mod Planned
pub mod Closed
pub mod Minting
pub mod Updated
pub mod Work
pub mod Matched
pub mod Successors
pub mod Linked
pub mod Total
