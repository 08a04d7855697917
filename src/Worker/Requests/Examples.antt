-- ===== src/Worker/Requests/Examples.antt =====
-- Requests to jobs.py that are accepted.
use icloud_code_gateway.Base.{
  ◌≤◌, min, String, ◌≡◌, refl, Bool, true, not, ◌||◌, Option, none, some, [], ◌∷◌, map, length, all,
  strip, chars, returned,
}
use icloud_code_gateway.Batch.Rows.{
  Stage, ItemStatus, JobStatus, JobKind, Action, ItemInput, JobView, ItemView, job_from_row,
}
use icloud_code_gateway.Batch.Tables.{Jobs, new_job, create_batch_job}
use icloud_code_gateway.Aliases.Rows.{AliasState, EdgeKeyStatus, Alias, alias_from_row}
use icloud_code_gateway.Aliases.Rows
use icloud_code_gateway.Aliases.Table.{get_alias}
use icloud_code_gateway.Worker.Bulk.{is_remote_write}
use icloud_code_gateway.Worker.Requests.{
  Payload, is_prefix, are_ids, is_distinct, is_bulk_action, label_of, check_states, get_all,
  create_request, create_alias_job, bulk_request, create_bulk_job,
}
use icloud_code_gateway.Worker.Requests.Checked.{
  target_of, is_ready, create_alias_job-checked, create_bulk_job-checked,
}

abbrev digest : String → String
digest s = s

abbrev fingerprint : Payload → String
fingerprint p = "fingerprint"

label_example : label_of "shop" 12 10 ≡ "shop 10"
unfolding label_of
label_example = refl

abbrev item : ItemInput → Option String → ItemView
item input alias_id = record {
  index = 1;
  alias_id = alias_id;
  input = input;
  stage = Stage.queued;
  status = ItemStatus.queued;
  result = none;
  error = none;
}

abbrev view : JobKind → Action → ItemView → JobView
view kind action it = record {
  id = "job-1";
  kind = kind;
  action = action;
  status = JobStatus.queued;
  requested = 1;
  succeeded = 0;
  failed = 0;
  current = 0;
  created_at = 10;
  updated_at = 10;
  error = none;
  items = it ∷ [];
}

abbrev create_view : JobView
create_view =
    view JobKind.create_aliases Action.create (item (ItemInput.create_input "shop" "" "") none)

abbrev created : JobView × Bool × Jobs
created = (
  create_view,
  true,
  new_job "job-1" 10 none (create_request digest fingerprint 1 "shop" "" "" none) ∷ [],
)

created_once :
    create_alias_job digest fingerprint 50 "job-1" 10 1 " shop " "" "" none [] ≡ returned created
unfolding create_alias_job create_request create_batch_job job_from_row strip chars
created_once = refl

create_alias_job-checked_example :
    (1 ≤ 1)
    × (1 ≤ min 50 100)
    × (is_prefix (strip " shop ") ≡ true)
    × (length (create_request digest fingerprint 1 (strip " shop ") "" "" none).items ≡ 1)
    × (create_batch_job digest "job-1" 10
          (create_request digest fingerprint 1 (strip " shop ") "" "" none)
          []
        ≡ returned created)
create_alias_job-checked_example =
    create_alias_job-checked digest fingerprint 50 "job-1" 10 1 " shop " "" "" none [] created
      created_once

abbrev row : Alias
row = record {
  id = "alias-1";
  email_hash = "quiet.fox@icloud.com";
  email_blob = Rows.sealed "quiet.fox@icloud.com";
  remote_blob = none;
  label = "shop";
  note = "";
  sender_filter = "";
  usage_label = "";
  state = AliasState.inactive;
  access_key_hash = none;
  access_key_hint = none;
  access_key_blob = none;
  key_issued_at = none;
  key_revoked_at = none;
  edge_key_status = EdgeKeyStatus.unknown;
  edge_status_checked_at = none;
  created_at = 10;
  updated_at = 10;
  last_synced_at = none;
}

abbrev bulk_view : JobView
bulk_view =
    view JobKind.bulk_aliases Action.delete
      (item (ItemInput.bulk_input "alias-1" true) (some "alias-1"))

abbrev deletion : JobView × Bool × Jobs
deletion = (
  bulk_view,
  true,
  new_job "job-1" 10 none (bulk_request digest fingerprint Action.delete ("alias-1" ∷ []) true none)
      ∷ [],
)

deletion_once :
    create_bulk_job digest fingerprint "job-1" 10 Action.delete
      ("alias-1" ∷ [])
      true
      none
      (row ∷ [])
      []
    ≡ returned deletion
unfolding create_bulk_job bulk_request create_batch_job job_from_row strip is_distinct check_states
    get_all get_alias alias_from_row
deletion_once = refl

create_bulk_job-checked_example :
    (are_ids (map strip ("alias-1" ∷ [])) ≡ true)
    × (is_distinct (map strip ("alias-1" ∷ [])) ≡ true)
    × (is_bulk_action Action.delete ≡ true)
    × (not (is_remote_write Action.delete) || true ≡ true)
    × (not (is_remote_write Action.delete)
          || all (is_ready Action.delete (row ∷ [])) (map strip ("alias-1" ∷ []))
        ≡ true)
    × (map target_of
          (bulk_request digest fingerprint Action.delete
            (map strip ("alias-1" ∷ []))
            true
            none).items
        ≡ map (λ id. some (strip id, true)) ("alias-1" ∷ []))
    × (create_batch_job digest "job-1" 10
          (bulk_request digest fingerprint Action.delete (map strip ("alias-1" ∷ [])) true none)
          []
        ≡ returned deletion)
create_bulk_job-checked_example =
    create_bulk_job-checked digest fingerprint "job-1" 10 Action.delete ("alias-1" ∷ []) true none
      (row ∷ []) [] deletion deletion_once
