-- ===== src/Worker/PublicErrors.antt =====
-- `_public_item_error` of jobs.py. The text "remote write was not attempted", which it also reads, is
-- one that no operation of the program stores.
use icloud_code_gateway.Base.{Bool, true, false, Option, none, some, if◌then◌else◌}
use icloud_code_gateway.Batch.Rows.{ItemStatus, ItemError, ItemView}

-- The texts that `_public_item_error` shows.
pub data PublicError : Type 0 where
  interrupted_in_flight remote_write_unknown rate_limited retrying capacity_reached : PublicError
  not_found conflict remote_key_exists key_status_unavailable operation_failed : PublicError

abbrev is_unknown_status : ItemStatus → Bool
is_unknown_status ItemStatus.unknown = true
is_unknown_status _ = false

abbrev public_text : ItemError → PublicError
public_text (ItemError.retryable kind) = PublicError.retrying
public_text (ItemError.capacity_reached code) = PublicError.capacity_reached
public_text (ItemError.rate_limited code) = PublicError.rate_limited
public_text ItemError.not_found = PublicError.not_found
public_text ItemError.conflict = PublicError.conflict
public_text ItemError.remote_key_exists = PublicError.remote_key_exists
public_text ItemError.key_status_unavailable = PublicError.key_status_unavailable
public_text ItemError.outcome_unknown = PublicError.operation_failed
public_text ItemError.interrupted = PublicError.operation_failed
public_text (ItemError.type_named name) = PublicError.operation_failed

abbrev unknown_text : ItemError → PublicError
unknown_text ItemError.interrupted = PublicError.interrupted_in_flight
unknown_text _ = PublicError.remote_write_unknown

unfoldable pub public_item_error : ItemView → Option PublicError
public_item_error it = elim it.error [
  | none ↦ none
  | some e ↦ some (if is_unknown_status it.status then unknown_text e else public_text e)
]
