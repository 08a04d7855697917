-- ===== src/Mailbox.antt =====
-- The forwarding mailbox: what mailbox_watcher.py keeps of it, and the parts of imap_otp.py that it uses.
pub mod Uids
pub mod Senders
pub mod Index
pub mod Ingest
pub mod Config
pub mod Loop
mod Examples
