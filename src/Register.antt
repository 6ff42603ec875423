-- ===== src/Register.antt =====
-- register/: the register of schools and municipalities, its slugs, search forms, FAU records and sync planner.
pub mod Fold
pub mod Slug
pub mod Search
pub mod Scope
pub mod Source
pub mod Sync
pub mod Brreg
