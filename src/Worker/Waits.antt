-- ===== src/Worker/Waits.antt =====
-- The pauses of jobs.py: what the worker stores before it waits.
use icloud_code_gateway.Base.{
  [], ◌==◌, ◌∷◌, if◌then◌else◌, List, ℕ, zero, suc, ◌*◌, String, Bool, none, some, or_else,
}
use icloud_code_gateway.Batch.Rows.{
  rate_limited, transient_error, empty, Stage, ItemStatus, JobStatus, RetryKind, Payload, ItemError,
  JobError, ItemView,
}
use icloud_code_gateway.Batch.Tables.{ItemChange}
use icloud_code_gateway.Worker.Payloads.{
  Settings, second, is_waiting, without_rate_limit, without_transient, rate_limit_stage_of,
  stage_of, with_transient_retry, with_capacity, with_rate_limit, waiting_stage,
}
use icloud_code_gateway.Worker.Environment.{Environment, AuditOutcome}
use icloud_code_gateway.Worker.Environment.Actions.{
  Worker, ◌>>=◌, ◌>>◌, pure, read_job, ask, update_item, set_status, record_audit,
}

-- What `_pause_for_transient_retry` stores for the item.
unfoldable pub transient_change : RetryKind → Payload → ItemChange
unfolding waiting_stage
transient_change kind payload = record {
  stage = waiting_stage payload;
  status = ItemStatus.queued;
  alias_id = none;
  result = some payload;
  error = some (ItemError.retryable kind);
}

unfoldable pub capacity_change : String → ItemView → ItemChange
unfolding with_capacity
capacity_change code it = record {
  stage = Stage.waiting_capacity;
  status = ItemStatus.queued;
  alias_id = none;
  result = some (with_capacity code it.result);
  error = some (ItemError.capacity_reached code);
}

unfoldable pub rate_limit_change : String → Payload → ItemChange
rate_limit_change code payload = record {
  stage = Stage.waiting_quota;
  status = ItemStatus.queued;
  alias_id = none;
  result = some payload;
  error = some (ItemError.rate_limited code);
}

-- The change that takes an item out of a wait, with the result that is left of it.
abbrev pub cleared_change : Stage → Payload → ItemChange
cleared_change stage payload = record {
  stage = stage;
  status = ItemStatus.queued;
  alias_id = none;
  result = some payload;
  error = none;
}

-- The entry with the item's index, or the item as it was.
unfoldable pub entry_of : ItemView → List ItemView → ItemView
entry_of it [] = it
entry_of it (entry ∷ entries) =
    let rest = entry_of it entries in if entry.index == it.index then entry else rest

module _ {W : Type 0} (env : Environment W) (settings : Settings) (job_id : String) where
  unfoldable pub pause_for_transient_retry : ItemView → RetryKind → Bool → Worker W (Unit {0})
  pause_for_transient_retry it kind reconcile = do
    now ← ask env.now
    let payload = with_transient_retry settings now kind reconcile it.result
    update_item env job_id it.index (transient_change kind payload)
    set_status env job_id JobStatus.queued
        (some (JobError.retrying_at (or_else payload.resume_at 0)))
    record_audit AuditOutcome.retrying none

  unfoldable pub pause_for_capacity : ItemView → String → Worker W (Unit {0})
  pause_for_capacity it code = do
    update_item env job_id it.index (capacity_change code it)
    record_audit AuditOutcome.capacity_reached none

  -- `retry_after_seconds` comes from Apple's answer, in whole seconds.
  unfoldable pub pause_for_rate_limit : ItemView → String → ℕ → Worker W (Unit {0})
  pause_for_rate_limit it code retry_after_seconds = do
    now ← ask env.now
    let payload = with_rate_limit now code (retry_after_seconds * second) it.result
    update_item env job_id it.index (rate_limit_change code payload)
    set_status env job_id JobStatus.queued (
        some (elim retry_after_seconds [
          | zero ↦ JobError.no_cooldown code
          | suc _ ↦ JobError.cooling_down code (or_else payload.resume_at 0)
        ]))
    record_audit AuditOutcome.rate_limited none

  -- The item as the database has it after the change.
  unfoldable pub clear_and_read : ItemView → ItemChange → Worker W ItemView
  clear_and_read it c = do
    update_item env job_id it.index c
    job ← read_job job_id
    pure (entry_of it job.items)

  unfoldable pub clear_rate_limit_wait : ItemView → Worker W ItemView
  clear_rate_limit_wait it =
      let payload = without_rate_limit (or_else it.result empty) in
      if is_waiting rate_limited it.result
      then clear_and_read it (cleared_change (rate_limit_stage_of payload) payload)
      else pure it

  unfoldable pub clear_transient_wait : ItemView → Worker W ItemView
  clear_transient_wait it =
      let payload = without_transient (or_else it.result empty) in
      if is_waiting transient_error it.result
      then clear_and_read it (cleared_change (stage_of payload) payload)
      else pure it
