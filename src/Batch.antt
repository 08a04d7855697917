-- ===== src/Batch.antt =====
-- database.py, the tables `batch_jobs` and `batch_job_items`: `Rows` has the rows, `Tables` the
-- operations, `Recovery` what a restart and an operator do to interrupted jobs.
-- The items of a job stand in its record (the foreign key with its index), and a blob that
-- `SecretBox` seals is its content, or `damaged` where decryption or JSON decoding raises. Times are
-- milliseconds since the epoch. The texts that the columns `stage`, `status`, `kind`, `action` and
-- `error` take are enumerated.
pub mod Rows
pub mod Tables
pub mod Recovery
pub mod Reach
mod Examples
