-- ===== src/Worker.antt =====
-- jobs.py: `BatchJobManager`, the worker that runs batch jobs.
pub mod Payloads
pub mod PublicErrors
pub mod Environment
pub mod Waits
pub mod Frame
pub mod Snapshot
pub mod Create
pub mod Triples
pub mod Bulk
pub mod Requests
pub mod Resume
pub mod Finish
pub mod RunJob
mod Examples
