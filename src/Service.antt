-- ===== src/Service.antt =====
-- service.py: `GatewayService`, what stands between the web application and the database, Apple and
-- the mailbox.
pub mod Snapshot
pub mod Gate
pub mod Lookup
