-- ===== src/Directory.antt =====
-- directory/: how people and addresses are shown.
pub mod History
pub mod Address
pub mod Listing
