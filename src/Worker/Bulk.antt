-- ===== src/Worker/Bulk.antt =====
-- `_bulk_alias` of jobs.py: one item of a bulk job.
pub mod Results
mod Examples
use icloud_code_gateway.Base.{
  ℕ, String, Bool, true, false, not, Option, none, some, str_eq, if◌then◌else◌, returned, raised,
}
use icloud_code_gateway.Errors.{Exception, type_name, Result}
use icloud_code_gateway.Batch.Rows.{Stage, ItemStatus, Action, ItemError, ItemView, Payload, empty}
use icloud_code_gateway.Batch.Tables.{ItemChange}
use icloud_code_gateway.Aliases.Rows.{AliasState, active, inactive, AliasView}
use icloud_code_gateway.Aliases.Table.{get_alias}
use icloud_code_gateway.Worker.Environment.{State, Environment}
use icloud_code_gateway.Worker.Environment.Actions.{
  Worker, ◌>>=◌, ◌>>◌, pure, raise, try_except, update_item, raise_if_stopping,
}

-- The operations of the gateway that a bulk item calls; they write to the tables themselves.
pub record Gateway (W : Type 0) : Type 0 where
  pub issue_access_key :
      (alias_id : String) (confirm_remote_replacement : Bool) → Worker W (Unit {0})
  pub reveal_access_key : (alias_id : String) → Worker W (Unit {0})
  pub deactivate_alias : (alias_id : String) → Worker W AliasView
  pub delete_alias : (alias_id confirmation : String) → Worker W (Unit {0})

-- `remote_write = action in {"deactivate", "delete"}`
abbrev pub is_remote_write : Action → Bool
is_remote_write Action.deactivate = true
is_remote_write Action.delete = true
is_remote_write _ = false

abbrev pub is_active_view : AliasView → Bool
is_active_view a = elim a.state [ active ↦ true | inactive ↦ false ]

-- The alias is in the state that the action requires.
abbrev pub is_allowed : Action → AliasView → Bool
is_allowed Action.deactivate a = is_active_view a
is_allowed Action.delete a = not (is_active_view a)
is_allowed _ a = true

-- A deleted alias has no label in the result.
unfoldable pub bulk_result : Action → String → AliasView → Payload
bulk_result Action.delete alias_id a = record empty { id = some alias_id; email = some a.email }
bulk_result _ alias_id a = record empty {
  id = some alias_id;
  email = some a.email;
  label = some a.label;
}

abbrev pub bulk_change : String → Stage → ItemStatus → Option ItemError → ItemChange
bulk_change alias_id stage status error = record {
  stage = stage;
  status = status;
  alias_id = some alias_id;
  result = none;
  error = error;
}

-- `stage = status = "unknown" if remote_write else "failed"`, with the name of the exception.
abbrev pub unsure_change : String → Bool → Exception → ItemChange
unsure_change alias_id remote_write e =
    if remote_write
    then bulk_change alias_id Stage.unknown ItemStatus.unknown
        (some (ItemError.type_named (type_name e)))
    else bulk_change alias_id Stage.failed ItemStatus.failed
        (some (ItemError.type_named (type_name e)))

-- What the handlers store for an exception.
unfoldable pub handler_change : String → Bool → Exception → ItemChange
unfolding type_name
handler_change alias_id remote_write Exception.gateway_stopping =
    bulk_change alias_id Stage.queued ItemStatus.queued none
handler_change alias_id remote_write Exception.not_found =
    bulk_change alias_id Stage.failed ItemStatus.failed (some ItemError.not_found)
handler_change alias_id remote_write Exception.conflict =
    bulk_change alias_id Stage.failed ItemStatus.failed (some ItemError.conflict)
handler_change alias_id remote_write Exception.remote_key_exists =
    bulk_change alias_id Stage.failed ItemStatus.failed (some ItemError.remote_key_exists)
handler_change alias_id remote_write Exception.key_status_unavailable =
    bulk_change alias_id Stage.failed ItemStatus.failed (some ItemError.key_status_unavailable)
handler_change alias_id remote_write (Exception.hme_capacity code) =
    unsure_change alias_id remote_write (Exception.hme_capacity code)
handler_change alias_id remote_write (Exception.hme_rate_limited code seconds) =
    unsure_change alias_id remote_write (Exception.hme_rate_limited code seconds)
handler_change alias_id remote_write Exception.hme_network =
    unsure_change alias_id remote_write Exception.hme_network
handler_change alias_id remote_write Exception.hme_session =
    unsure_change alias_id remote_write Exception.hme_session
handler_change alias_id remote_write Exception.hme_error =
    unsure_change alias_id remote_write Exception.hme_error
handler_change alias_id remote_write Exception.gateway_error =
    unsure_change alias_id remote_write Exception.gateway_error
handler_change alias_id remote_write e =
    bulk_change alias_id Stage.failed ItemStatus.failed (some (ItemError.type_named (type_name e)))

-- What the handlers return: whether the outcome of a remote write is unknown.
unfoldable pub handler_result : Bool → Exception → Bool
handler_result remote_write (Exception.hme_capacity code) = remote_write
handler_result remote_write (Exception.hme_rate_limited code seconds) = remote_write
handler_result remote_write Exception.hme_network = remote_write
handler_result remote_write Exception.hme_session = remote_write
handler_result remote_write Exception.hme_error = remote_write
handler_result remote_write Exception.gateway_error = remote_write
handler_result remote_write e = false

module _ {W : Type 0} (env : Environment W) (gateway : Gateway W) (job_id : String) where
  unfoldable pub read_alias : String → Worker W AliasView
  read_alias alias_id s = (get_alias alias_id s.aliases, s)

  unfoldable pub require_state : Action → String → Worker W (Unit {0})
  require_state action alias_id =
      if is_remote_write action
      then (read_alias alias_id >>= λ a.
          if is_allowed action a then pure tt else raise Exception.conflict)
      else pure tt

  -- The call of the gateway, and the alias that the result describes.
  unfoldable pub perform : Action → String → Bool → Worker W AliasView
  perform Action.issue_keys alias_id confirmed =
      gateway.issue_access_key alias_id confirmed >> read_alias alias_id
  perform Action.reveal_keys alias_id confirmed =
      gateway.reveal_access_key alias_id >> read_alias alias_id
  perform Action.deactivate alias_id confirmed = gateway.deactivate_alias alias_id
  perform _ alias_id confirmed = do
    a ← read_alias alias_id
    gateway.delete_alias alias_id a.email
    pure a

  unfoldable pub bulk_body : ℕ → Action → String → Bool → Worker W Bool
  bulk_body index action alias_id confirmed = do
    raise_if_stopping env
    require_state action alias_id
    update_item env job_id index (bulk_change alias_id Stage.executing ItemStatus.running none)
    a ← perform action alias_id confirmed
    update_item env job_id index
        (record (bulk_change alias_id Stage.completed ItemStatus.success none) {
          result = some (bulk_result action alias_id a);
        })
    pure false

  unfoldable pub bulk_handler : ℕ → Action → String → Exception → Worker W Bool
  bulk_handler index action alias_id e =
      update_item env job_id index (handler_change alias_id (is_remote_write action) e)
      >> pure (handler_result (is_remote_write action) e)

  -- `_bulk_alias`, for the alias and the confirmation in the item's input: true if the outcome is unknown.
  unfoldable pub bulk_alias : ℕ → Action → String → Bool → Worker W Bool
  bulk_alias index action alias_id confirmed =
      try_except (bulk_body index action alias_id confirmed) (bulk_handler index action alias_id)
