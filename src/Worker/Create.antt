-- ===== src/Worker/Create.antt =====
-- `_create_alias` of jobs.py: one item of a create job, from the suggestion of a candidate to its key.
pub mod Steps
pub mod Reserve
pub mod Run
pub mod Calls
pub mod Left
pub mod Rules
pub mod Outcome
pub mod ReserveOutcome
pub mod Results
pub mod Unconfirmed
pub mod Refused
mod Examples
use icloud_code_gateway.Base.{
  ℕ, String, Bool, true, false, not, ◌&&◌, ◌||◌, Option, none, some, str_eq, strip, or_else,
  if◌then◌else◌, returned, raised,
}
use icloud_code_gateway.Errors.{Exception, Result}
use icloud_code_gateway.Columns.{clean_candidate, has_one_at}
use icloud_code_gateway.Batch.Rows.{
  Stage, ItemStatus, RetryKind, Payload, empty, ItemInput, create_input, bulk_input, ItemError,
  ItemView,
}
use icloud_code_gateway.Batch.Tables.{ItemChange}
use icloud_code_gateway.Aliases.Rows.{Remote, AliasState, AliasView}
use icloud_code_gateway.Aliases.Table.{
  Aliases, AliasInput, IssuedAccessKey, upsert_alias, issue_access_key, get_alias,
}
use icloud_code_gateway.Worker.Environment.{Environment, AuditOutcome}
use icloud_code_gateway.Worker.Environment.Actions.{
  Worker, ◌>>=◌, ◌>>◌, pure, raise, ask, on_aliases, update_item, record_audit,
}
use icloud_code_gateway.Worker.Snapshot.{remote_email, anonymous_id}

-- The label, the note and the sender filter of the item's input; a bulk input has none of them.
pub record Values : Type 0 where
  pub label : String
  pub note : String
  pub sender_filter : String

-- The change of an item that has no alias and keeps its result.
abbrev pub in_stage : Stage → ItemStatus → Option ItemError → ItemChange
in_stage stage status error = record {
  stage = stage;
  status = status;
  alias_id = none;
  result = none;
  error = error;
}

-- `"inactive" if remote.get("isActive") is False else "active"`
abbrev pub remote_state : Remote → AliasState
remote_state r = elim r.is_active [ some false ↦ AliasState.inactive | _ ↦ AliasState.active ]

unfoldable pub created_input : String → Values → Remote → AliasInput
created_input email values remote = record {
  email = email;
  remote_metadata = some remote;
  label = values.label;
  note = values.note;
  sender_filter = values.sender_filter;
  state = remote_state remote;
  synced_at = none;
}

unfoldable pub completed_change : AliasView → ItemChange
completed_change alias = record {
  stage = Stage.completed;
  status = ItemStatus.success;
  alias_id = some alias.id;
  result =
      some
        (record empty { id = some alias.id; email = some alias.email; label = some alias.label });
  error = none;
}

-- The response has an address and an id.
unfoldable pub is_complete : String → Remote → Bool
unfolding has_one_at anonymous_id
is_complete email remote = has_one_at email && not (str_eq (anonymous_id remote) "")

-- The row that a transaction wrote, read back; reading changes nothing.
abbrev with_view : Aliases → Result AliasView → Result (AliasView × Aliases)
with_view rows (returned view) = returned (view, rows)
with_view rows (raised e) = raised e

module _ {W : Type 0} (env : Environment W) where
  -- `upsert_alias`, and its `get_alias` at the end.
  unfoldable pub upsert_and_read : AliasInput → Worker W AliasView
  upsert_and_read i = do
    fresh_id ← ask env.fresh_id
    alias_id ← on_aliases env (λ now rows. upsert_alias env.casefold env.digest fresh_id now i rows)
    on_aliases env (λ _ rows. with_view rows (get_alias alias_id rows))

  unfoldable pub issue_key : String → Worker W IssuedAccessKey
  issue_key alias_id = do
    key ← ask env.fresh_key
    on_aliases env (issue_access_key env.sha256 alias_id key)

  -- `_complete_created_alias`: the id of the alias and its key.
  unfoldable pub complete_created_alias : String → ℕ → Values → Remote → Worker W (String × String)
  complete_created_alias job_id index values remote = do
    let email = clean_candidate env.casefold (remote_email remote)
    if is_complete email remote then pure tt else raise Exception.hme_error
    alias ← upsert_and_read (created_input email values remote)
    issued ← issue_key alias.id
    update_item env job_id index (completed_change alias)
    record_audit AuditOutcome.succeeded (some alias.id)
    view ← on_aliases env (λ _ rows. with_view rows (get_alias alias.id rows))
    pure (view.id, issued.access_key)
