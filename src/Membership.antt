-- ===== src/Membership.antt =====
-- membership/: who may do what in an FAU, and when.
pub mod Period
pub mod Vocabulary
pub mod Access
pub mod Acceptance
pub mod Rules
pub mod Retention
pub mod Requests
