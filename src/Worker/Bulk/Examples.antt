-- ===== src/Worker/Bulk/Examples.antt =====
-- Runs of `_bulk_alias` of jobs.py: a deletion whose answer is lost, and one that is refused.
use icloud_code_gateway.Base.{◌≡◌, refl, true, false, inr, none, some, [], ◌∷◌, returned, raised}
use icloud_code_gateway.Errors.{Exception}
use icloud_code_gateway.Batch.Rows.{
  sealed, Stage, ItemStatus, JobStatus, JobKind, Action, ItemInput, Item, Job,
}
use icloud_code_gateway.Batch.Tables.{update_batch_item, has_item}
use icloud_code_gateway.Batch.Tables.Stored.{IsStored}
use icloud_code_gateway.Aliases.Rows.{
  Remote, AliasState, EdgeKeyStatus, Alias, AliasView, alias_from_row,
}
use icloud_code_gateway.Aliases.Rows
use icloud_code_gateway.Aliases.Table.{get_alias}
use icloud_code_gateway.Worker.Environment.{State, Environment}
use icloud_code_gateway.Worker.Environment.Actions.{
  ◌>>=◌, try_except, ask, update_item, on_jobs, raise_if_stopping,
}
use icloud_code_gateway.Worker.Bulk.{
  Gateway, handler_change, handler_result, read_alias, require_state, perform, bulk_body,
  bulk_handler, bulk_alias,
}
use icloud_code_gateway.Worker.Bulk.Results.{
  is_settled, bulk_alias-IsStored, Refused, bulk_alias-refuses,
}

-- The clock stands still, and nothing stops the worker.
abbrev env : Environment (Unit {0})
env = record {
  now = λ w. (1_000_000, w);
  stopping = λ w. (false, w);
  stop_wait = λ _ w. (false, w);
  fresh_id = λ w. ("alias-2", w);
  fresh_key = λ w. ("", w);
  ensure_hme_fresh = λ w. (returned tt, w);
  begin_remote_write = λ w. (returned tt, w);
  finish_remote_write = λ w. w;
  get_hme_session = λ w. (returned false, w);
  open_client = λ w. (returned tt, w);
  close_client = λ w. w;
  has_two_steps = true;
  generate_alias = λ w. (raised Exception.hme_network, w);
  reserve_alias = λ _ _ _ w. (raised Exception.hme_network, w);
  create_alias = λ _ _ w. (raised Exception.hme_network, w);
  list_aliases = λ w. (returned [], w);
  refresh_hme_session = λ _ w. (returned tt, w);
  push_alias_to_edge = λ _ _ w. w;
  casefold = λ s. s;
  sha256 = λ s. s;
  digest = λ s. s;
}

-- Apple cannot be reached.
abbrev gateway : Gateway (Unit {0})
gateway = record {
  issue_access_key = λ _ _ s. (raised Exception.hme_network, s);
  reveal_access_key = λ _ s. (raised Exception.hme_network, s);
  deactivate_alias = λ _ s. (raised Exception.hme_network, s);
  delete_alias = λ _ _ s. (raised Exception.hme_network, s);
}

abbrev row : AliasState → Alias
row alias_state = record {
  id = "alias-1";
  email_hash = "quiet.fox@icloud.com";
  email_blob = Rows.sealed "quiet.fox@icloud.com";
  remote_blob = none;
  label = "shop";
  note = "";
  sender_filter = "";
  usage_label = "";
  state = alias_state;
  access_key_hash = none;
  access_key_hint = none;
  access_key_blob = none;
  key_issued_at = none;
  key_revoked_at = none;
  edge_key_status = EdgeKeyStatus.unknown;
  edge_status_checked_at = none;
  created_at = 10;
  updated_at = 10;
  last_synced_at = none;
}

abbrev view : AliasState → AliasView
view alias_state = record {
  id = "alias-1";
  email = "quiet.fox@icloud.com";
  remote_metadata = none;
  label = "shop";
  note = "";
  sender_filter = "";
  usage_label = "";
  state = alias_state;
  has_access_key = false;
  access_key_recoverable = false;
  access_key_hint = none;
  key_issued_at = none;
  key_revoked_at = none;
  edge_key_status = EdgeKeyStatus.unknown;
  edge_status_checked_at = none;
  created_at = 10;
  updated_at = 10;
  last_synced_at = none;
}

abbrev item : Item
item = record {
  index = 1;
  alias_id = some "alias-1";
  input = sealed (ItemInput.bulk_input "alias-1" true);
  stage = Stage.queued;
  status = ItemStatus.queued;
  result = none;
  error = none;
  created_at = 10;
  updated_at = 10;
}

abbrev job : Job
job = record {
  id = "job-1";
  kind = JobKind.bulk_aliases;
  action = Action.delete;
  status = JobStatus.running;
  idempotency_key_hash = none;
  request_fingerprint = "fingerprint-1";
  requested = 1;
  succeeded = 0;
  failed = 0;
  current = 0;
  created_at = 10;
  updated_at = 10;
  error = none;
  items = item ∷ [];
}

abbrev state : AliasState → State (Unit {0})
state alias_state = record {
  jobs = job ∷ [];
  aliases = row alias_state ∷ [];
  audit = [];
  world = tt;
}

abbrev lost : State (Unit {0})
lost = (bulk_alias env gateway "job-1" 1 Action.delete "alias-1" true (state AliasState.inactive)).1

lost_once :
    bulk_alias env gateway "job-1" 1 Action.delete "alias-1" true (state AliasState.inactive)
    ≡ (returned true, lost)
unfolding bulk_alias bulk_body bulk_handler handler_change handler_result perform require_state
    read_alias raise_if_stopping ask try_except ◌>>=◌ update_item on_jobs update_batch_item
    get_alias alias_from_row
lost_once = refl

bulk_alias-IsStored_example : IsStored "job-1" 1 (is_settled true) lost.jobs
bulk_alias-IsStored_example =
    bulk_alias-IsStored env gateway "job-1" 1 Action.delete "alias-1" true true
      (state AliasState.inactive) lost lost_once

bulk_alias-refuses_example :
    Refused env gateway "job-1" 1 Action.delete "alias-1"
      (state AliasState.active)
      tt
      (bulk_alias env gateway "job-1" 1 Action.delete "alias-1" true (state AliasState.active))
unfolding get_alias alias_from_row has_item
bulk_alias-refuses_example =
    bulk_alias-refuses env gateway "job-1" 1 Action.delete "alias-1" true (state AliasState.active)
      (view AliasState.active) (inr (refl, refl)) refl refl refl
