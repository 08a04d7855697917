-- ===== src/Aliases.antt =====
-- database.py, the table `aliases`: hidden addresses, each with at most one access key.
pub mod Rows
pub mod Table
pub mod Sync
