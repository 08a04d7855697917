-- ===== src/Lib.antt =====
-- A model of the iCloud code gateway (icloud_gateway/), and what makes it correct.
--
-- The gateway creates Hide My Email aliases at Apple, gives each an access key, and answers lookups of
-- one-time codes. A request for many aliases becomes a batch job in an SQLite database; one worker
-- claims a job, works through its items, pauses on Apple's errors, and after a crash the next owner of
-- the worker's lock recovers what was in flight. Lookups pass a rate limiter.
--
-- Files and code:
--   Base           helpers on lists, options, text and exceptions as values
--   Errors         the exception classes that handlers tell apart (icloud_gateway/hme.py, database.py,
--                  security.py, service.py)
--   RateLimit      icloud_gateway/rate_limit.py: SlidingWindowRateLimiter.check and _purge_empty
--   Columns        icloud_gateway/database.py: _normalize_email, _clean_text
--   Security       icloud_gateway/security.py: validate_access_key, hash_access_key
--   Aliases.Rows   icloud_gateway/database.py: the table aliases, _alias_from_row
--   Aliases.Table  icloud_gateway/database.py: upsert_alias, get_alias, find_alias_by_access_key_hash,
--                  import_, issue_, reveal_ and revoke_access_key, set_alias_state,
--                  update_edge_key_status, delete_alias
--   Aliases.Sync   icloud_gateway/database.py: sync_remote_alias, finish_remote_sync, count_remote_aliases
--   Batch.Rows     icloud_gateway/database.py: batch_jobs, batch_job_items, _batch_job_from_row
--   Batch.Tables   icloud_gateway/database.py: create_batch_job, get_batch_job, next_batch_job,
--                  set_batch_job_status, update_batch_item, _refresh_batch_job_counts
--   Batch.Recovery icloud_gateway/database.py: recover_interrupted_batch_jobs,
--                  resume_reconcilable_create_job
--   Worker         icloud_gateway/jobs.py: BatchJobManager. Payloads has its delays and what an item keeps
--                  across a wait, PublicErrors the texts that it shows, Environment the calls that leave
--                  it, Waits what a pause stores, Frame the variables of _create_alias, Snapshot
--                  _validated_candidate_snapshot, Create _complete_created_alias, and Create.Steps,
--                  Create.Reserve and Create.Run the parts of _create_alias in their order.
--                  Bulk has _bulk_alias, Requests create_alias_job and create_bulk_job,
--                  Resume _wait_for_resume, RunJob _run_job and _run_item, and Finish what follows
--                  the loop of _run_job.
--   Worker.Triples rules for what a method of the worker has done when it returns
--   Mailbox.Uids, Senders, Config
--                  icloud_gateway/imap_otp.py: _uid_sort_key, sender_matches_filter, sender_matches_policy,
--                  ImapConfig
--   Mailbox.Index  icloud_gateway/mailbox_watcher.py: _store, _prune, latest, snapshot
--   Mailbox.Ingest icloud_gateway/mailbox_watcher.py: _ingest, _ingest_folder, _index_messages, _seed_uids,
--                  _new_uids
--   Mailbox.Loop   icloud_gateway/mailbox_watcher.py: _run and what it calls, ready, add_listener
--   Service.Snapshot
--                  icloud_gateway/service.py: _validated_remote_aliases, _reconcile_remote_aliases
--   Service.Gate   icloud_gateway/service.py: _begin_remote_write, _finish_remote_write,
--                  _begin_alias_snapshot, _commit_alias_snapshot; its threads interleave as steps
--                  (Service.Gate.Overlaps)
--   Service.Lookup icloud_gateway/service.py: prepare_lookup, prepare_lookup_for_email, read_indexed_code,
--                  read_scanned_code, lookup_code; Calls has what they work with, Prepare the first two
--
-- A transaction is a function from a table to a new table, or to an exception and no table, since it
-- rolls back. Several transactions in a row are a step relation (Aliases.Table.Reach, Batch.Reach).
-- A method of the worker that writes and may raise keeps what it wrote before the exception. The gateway,
-- Apple's client, clocks, events and fresh ids are operations of an environment on a state of its own
-- (Worker.Environment), and a theorem on the worker holds for each such environment that meets the
-- conditions it names. The loop of
-- _validated_candidate_snapshot turns at most twice, so it is written out. The loop of _wait_for_resume
-- runs on fuel: one turn for each second that is left, counted with the time by which the clock may be
-- set back meanwhile, and one more, is enough. The loop of _run_job runs on fuel as well: one turn for each item, and one more, is enough for a bulk job of which no
-- item waits; a create job retries for as long as Apple refuses it, and so may take any number of turns.
-- Times are whole numbers: microseconds for clocks, milliseconds where a time is stored. Texts that are
-- literals of the program (statuses, stages, errors) are data types. What SecretBox sealed is a value
-- that can be opened, or one that is damaged. SHA-256, keyed digests and `str.casefold` are parameters,
-- as are fresh UUIDs and keys.
-- A lookup finds the reading of its configuration, the scan of the mailbox and the slots for it in an
-- environment on a state of its own.
--
-- The mailbox is known by what a connection answers (Mailbox.Ingest.Connection), and getaddresses and the
-- regular expressions for senders are parameters.
--
-- Not modelled: the web application, Apple's HTTP client, IMAP, the browser, the Cloudflare worker,
-- and the encryption itself.
pub mod Base
pub mod Errors
pub mod RateLimit
pub mod Columns
pub mod Security
pub mod Mailbox
pub mod Service
pub mod Aliases
pub mod Batch
pub mod Worker
