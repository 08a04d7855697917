-- ===== src/Worker/Finish/Examples.antt =====
-- A job of two items, one of which failed.
use icloud_code_gateway.Base.{ℕ, ◌≡◌, refl, none, [], ◌∷◌, returned}
use icloud_code_gateway.Batch.Rows.{
  ItemInput, Item, ItemStatus, Stage, JobStatus, JobKind, Action, Job, JobView, Sealed, unseal,
  unseal_result, item_from_row, items_from_rows, job_from_row,
}
use icloud_code_gateway.Batch.Tables.Counts.{IsCounted}
use icloud_code_gateway.Worker.Finish.{final_status, status_by_items, final_status-items}

abbrev item : ℕ → Stage → ItemStatus → Item
item index stage status = record {
  index = index;
  alias_id = none;
  input = Sealed.sealed (ItemInput.create_input "shop" "" "");
  stage = stage;
  status = status;
  result = none;
  error = none;
  created_at = 1;
  updated_at = 2;
}

abbrev job : Job
job = record {
  id = "job-1";
  kind = JobKind.create_aliases;
  action = Action.create;
  status = JobStatus.running;
  idempotency_key_hash = none;
  request_fingerprint = "";
  requested = 2;
  succeeded = 1;
  failed = 1;
  current = 2;
  created_at = 1;
  updated_at = 2;
  error = none;
  items = item 1 Stage.completed ItemStatus.success ∷ item 2 Stage.failed ItemStatus.failed ∷ [];
}

abbrev view : JobView
view = record {
  id = "job-1";
  kind = JobKind.create_aliases;
  action = Action.create;
  status = JobStatus.running;
  requested = 2;
  succeeded = 1;
  failed = 1;
  current = 2;
  created_at = 1;
  updated_at = 2;
  error = none;
  items =
      record {
        index = 1;
        alias_id = none;
        input = ItemInput.create_input "shop" "" "";
        stage = Stage.completed;
        status = ItemStatus.success;
        result = none;
        error = none;
      }
      ∷ record {
        index = 2;
        alias_id = none;
        input = ItemInput.create_input "shop" "" "";
        stage = Stage.failed;
        status = ItemStatus.failed;
        result = none;
        error = none;
      }
      ∷ [];
}

counted : IsCounted job
counted = record {
  requested_items = refl;
  succeeded_items = refl;
  failed_items = refl;
  current_items = refl;
}

read : job_from_row job ≡ returned view
unfolding job_from_row items_from_rows item_from_row unseal unseal_result
read = refl

is_partial : final_status view ≡ JobStatus.partial
unfolding final_status
is_partial = refl

final_status-items_example : final_status view ≡ status_by_items job.items
final_status-items_example = final_status-items job view counted read
