-- ===== src/Worker/RunJob/Examples.antt =====
-- A run of `_run_job` whose only item, a deletion, is lost.
use icloud_code_gateway.Base.{
  arith, ◌≢◌, ◌≡◌, refl, true, false, none, some, [], ◌∷◌, returned, raised,
}
use icloud_code_gateway.Errors.{Exception}
use icloud_code_gateway.Batch.Rows.{
  sealed, Stage, ItemStatus, JobStatus, JobKind, Action, ItemInput, Item, Job, JobView,
}
use icloud_code_gateway.Batch.Tables.{update_batch_item, set_batch_job_status}
use icloud_code_gateway.Aliases.Rows.{Remote, AliasState, EdgeKeyStatus, Alias, alias_from_row}
use icloud_code_gateway.Aliases.Rows
use icloud_code_gateway.Aliases.Table.{get_alias}
use icloud_code_gateway.Worker.Environment.{State, Environment}
use icloud_code_gateway.Worker.Environment.Actions.{
  ◌>>=◌, try_except, ask, update_item, set_status, on_jobs, raise_if_stopping,
}
use icloud_code_gateway.Worker.Payloads.{Settings}
use icloud_code_gateway.Worker.Bulk.{
  Gateway, handler_change, handler_result, read_alias, require_state, perform, bulk_body,
  bulk_handler, bulk_alias,
}
use icloud_code_gateway.Worker.RunJob.{
  run_loop, turn, drop_legacy, run_queued, is_cooling_down, run_or_retry, is_retrying, run_item,
  after_item, RunEnd, run_job,
}
use icloud_code_gateway.Worker.RunJob.Left.{Ended}
use icloud_code_gateway.Worker.RunJob.Bulk.{LeavesJobs}
use icloud_code_gateway.Worker.RunJob.Returns.{run_job-ends}
use icloud_code_gateway.Worker.RunJob.Ends.{run_job-Ended}

-- The clock stands still, and nothing stops the worker.
abbrev env : Environment (Unit {0})
env = record {
  now = λ w. (1_000_000, w);
  stopping = λ w. (false, w);
  stop_wait = λ _ w. (false, w);
  fresh_id = λ w. ("alias-2", w);
  fresh_key = λ w. ("", w);
  ensure_hme_fresh = λ w. (returned tt, w);
  begin_remote_write = λ w. (returned tt, w);
  finish_remote_write = λ w. w;
  get_hme_session = λ w. (returned false, w);
  open_client = λ w. (returned tt, w);
  close_client = λ w. w;
  has_two_steps = true;
  generate_alias = λ w. (raised Exception.hme_network, w);
  reserve_alias = λ _ _ _ w. (raised Exception.hme_network, w);
  create_alias = λ _ _ w. (raised Exception.hme_network, w);
  list_aliases = λ w. (returned [], w);
  refresh_hme_session = λ _ w. (returned tt, w);
  push_alias_to_edge = λ _ _ w. w;
  casefold = λ s. s;
  sha256 = λ s. s;
  digest = λ s. s;
}

-- Apple cannot be reached.
abbrev gateway : Gateway (Unit {0})
gateway = record {
  issue_access_key = λ _ _ s. (raised Exception.hme_network, s);
  reveal_access_key = λ _ s. (raised Exception.hme_network, s);
  deactivate_alias = λ _ s. (raised Exception.hme_network, s);
  delete_alias = λ _ _ s. (raised Exception.hme_network, s);
}

abbrev row : Alias
row = record {
  id = "alias-1";
  email_hash = "quiet.fox@icloud.com";
  email_blob = Rows.sealed "quiet.fox@icloud.com";
  remote_blob = none;
  label = "shop";
  note = "";
  sender_filter = "";
  usage_label = "";
  state = AliasState.inactive;
  access_key_hash = none;
  access_key_hint = none;
  access_key_blob = none;
  key_issued_at = none;
  key_revoked_at = none;
  edge_key_status = EdgeKeyStatus.unknown;
  edge_status_checked_at = none;
  created_at = 10;
  updated_at = 10;
  last_synced_at = none;
}

abbrev item : Item
item = record {
  index = 1;
  alias_id = some "alias-1";
  input = sealed (ItemInput.bulk_input "alias-1" true);
  stage = Stage.queued;
  status = ItemStatus.queued;
  result = none;
  error = none;
  created_at = 10;
  updated_at = 10;
}

abbrev job : Job
job = record {
  id = "job-1";
  kind = JobKind.bulk_aliases;
  action = Action.delete;
  status = JobStatus.running;
  idempotency_key_hash = none;
  request_fingerprint = "fingerprint-1";
  requested = 1;
  succeeded = 0;
  failed = 0;
  current = 0;
  created_at = 10;
  updated_at = 10;
  error = none;
  items = item ∷ [];
}

abbrev state : State (Unit {0})
state = record { jobs = job ∷ []; aliases = row ∷ []; audit = []; world = tt }

abbrev settings : Settings
settings = record {
  throttle = 0;
  rate_limit_cooldown = 0;
  transient_retry_base = 1_000_000;
  transient_retry_max = 8_000_000;
}

abbrev claimed : JobView
claimed = record {
  id = "job-1";
  kind = JobKind.bulk_aliases;
  action = Action.delete;
  status = JobStatus.running;
  requested = 1;
  succeeded = 0;
  failed = 0;
  current = 0;
  created_at = 10;
  updated_at = 10;
  error = none;
  items =
      record {
        index = 1;
        alias_id = some "alias-1";
        input = ItemInput.bulk_input "alias-1" true;
        stage = Stage.queued;
        status = ItemStatus.queued;
        result = none;
        error = none;
      }
      ∷ [];
}

abbrev after : State (Unit {0})
after = (run_job env settings gateway 0 "job-1" 2 claimed state).1

-- The job stops: nobody knows whether Apple has deleted the alias.
stops :
    run_job env settings gateway 0 "job-1" 2 claimed state
    ≡ (returned RunEnd.outcome_unknown, after)
unfolding run_job run_loop turn drop_legacy run_queued is_cooling_down run_or_retry is_retrying
    run_item after_item set_status set_batch_job_status bulk_alias bulk_body bulk_handler
    handler_change handler_result perform require_state read_alias raise_if_stopping ask try_except
    ◌>>=◌ update_item on_jobs update_batch_item get_alias alias_from_row
stops = refl

run_job-Ended_example : Ended "job-1" RunEnd.outcome_unknown after.jobs
run_job-Ended_example =
    run_job-Ended env settings gateway 0 "job-1" 2 claimed RunEnd.outcome_unknown state after stops

keeps : LeavesJobs gateway
keeps = record {
  issued = λ alias_id confirmed s. refl;
  revealed = λ alias_id s. refl;
  deactivated = λ alias_id s. refl;
  deleted = λ alias_id confirmation s. refl;
}

run_job-ends_example :
    (run_job env settings gateway 0 "job-1" 2 claimed state).0 ≢ returned RunEnd.out_of_fuel
run_job-ends_example =
    run_job-ends env settings gateway keeps 0 "job-1" 1 2 claimed state (refl, refl, refl)
      (job, refl, (refl, refl, refl)) (omega arith)
