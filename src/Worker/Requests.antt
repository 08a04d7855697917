-- ===== src/Worker/Requests.antt =====
-- `create_alias_job` and `create_bulk_job` of jobs.py: what a request must satisfy, and the job that it
-- becomes. The wake-up of the worker is an event without a state of its own.
pub mod Checked
pub mod Accepted
mod Examples
use Prim.Native.String.{slice}
use Prim.Native.String
use icloud_code_gateway.Base.{
  ℕ, zero, suc, ◌+◌, ◌/◌, ◌%◌, min, String, Bool, true, false, not, ◌&&◌, ◌||◌, Option, none, some,
  List, [], ◌∷◌, map, length, any, all, ltb, ◌==◌, str_eq, strip, chars, if◌then◌else◌, ◌>>=◌, ◌>>◌,
  returned, raised, raise_if,
}
use icloud_code_gateway.Errors.{Exception, Result}
use icloud_code_gateway.Batch.Rows.{JobKind, Action, ItemInput, JobView}
use icloud_code_gateway.Batch.Tables.{Jobs, Request, create_batch_job}
use icloud_code_gateway.Aliases.Rows.{AliasView}
use icloud_code_gateway.Aliases.Table.{Aliases, get_alias}
use icloud_code_gateway.Worker.Bulk.{is_remote_write, is_allowed}

-- The decimal digits of a number that is not above the fuel's power of ten.
unfoldable pub decimal : ℕ → ℕ → String
decimal zero n = ""
decimal (suc fuel) n =
    let higher = decimal fuel (n / 10) in
    let digit = slice "0123456789" (n % 10) (n % 10 + 1) in
    if ltb n 10 then digit else String.◌++◌ higher digit

-- `prefix if requested == 1 else f"{prefix} {index}"`; a request has at most 100 items.
unfoldable pub label_of : String → ℕ → ℕ → String
unfolding decimal
label_of prefix requested index =
    if requested == 1 then prefix else String.◌++◌ prefix (String.◌++◌ " " (decimal 3 index))

-- The items from `index` on.
unfoldable pub create_items : String → String → String → ℕ → ℕ → ℕ → List ItemInput
unfolding label_of
create_items prefix note sender requested index zero = []
create_items prefix note sender requested index (suc left) =
    ItemInput.create_input (label_of prefix requested index) note sender
    ∷ create_items prefix note sender requested (suc index) left

-- `payload` of `create_alias_job`, and of `create_bulk_job`.
pub data Payload : Type 0 where
  create_payload : (count : ℕ) (label_prefix note sender_filter : String) → Payload
  bulk_payload : Action → (alias_ids : List String) → (confirmed : Bool) → Payload

abbrev pub is_prefix : String → Bool
is_prefix prefix = not (str_eq prefix "") && not (ltb 140 (chars prefix))

-- `not ids or len(ids) > 100 or any(not alias_id for alias_id in ids)`
abbrev pub are_ids : List String → Bool
are_ids ids =
    not (length ids == 0) && not (ltb 100 (length ids)) && not (any (λ id. str_eq id "") ids)

-- `len(set(ids)) == len(ids)`
unfoldable pub is_distinct : List String → Bool
is_distinct [] = true
is_distinct (id ∷ ids) = let rest = is_distinct ids in not (any (str_eq id) ids) && rest

abbrev pub is_bulk_action : Action → Bool
is_bulk_action Action.create = false
is_bulk_action _ = true

-- `NotFoundError` becomes `ValueError`.
abbrev pub unknown_id : {A : Type 0} → Result A → Result A
unknown_id (returned a) = returned a
unknown_id (raised Exception.not_found) = raised Exception.value_error
unknown_id (raised e) = raised e

unfoldable pub get_all : List String → Aliases → Result (List AliasView)
unfolding get_alias
get_all [] rows = returned []
get_all (id ∷ ids) rows = do a ← get_alias id rows; rest ← get_all ids rows; returned (a ∷ rest)

-- The aliases of a remote action are in the state that it requires.
unfoldable pub check_states : Action → List String → Aliases → Result (Unit {0})
unfolding get_all
check_states action ids rows =
    if is_remote_write action
    then (unknown_id (get_all ids rows) >>= λ views.
        raise_if (not (all (is_allowed action) views)) Exception.value_error)
    else returned tt

-- `fingerprint` is `request_fingerprint`: SHA-256 of the canonical JSON text.
module _ (digest : String → String) (fingerprint : Payload → String) where
  unfoldable pub create_request : ℕ → String → String → String → Option String → Request
  unfolding create_items
  create_request count prefix note sender key = record {
    kind = JobKind.create_aliases;
    action = Action.create;
    fingerprint = fingerprint (create_payload count prefix note sender);
    items = create_items prefix note sender count 1 count;
    idempotency_key = key;
  }

  -- `create_alias_job`, for the limit of the settings, the fresh id and the time of its transaction.
  unfoldable pub create_alias_job :
      (batch_limit : ℕ) (job_id : String) (now count : ℕ) (label_prefix note sender_filter : String)
      (idempotency_key : Option String) (jobs : Jobs)
      → Result (JobView × Bool × Jobs)
  unfolding create_request
  create_alias_job batch_limit job_id now count label_prefix note sender key jobs = do
    raise_if (ltb count 1 || ltb (min batch_limit 100) count) Exception.value_error
    raise_if (not (is_prefix (strip label_prefix))) Exception.value_error
    create_batch_job digest job_id now (create_request count (strip label_prefix) note sender key)
        jobs

  unfoldable pub bulk_request : Action → List String → Bool → Option String → Request
  bulk_request action ids confirmed key = record {
    kind = JobKind.bulk_aliases;
    action = action;
    fingerprint = fingerprint (bulk_payload action ids confirmed);
    items = map (λ id. ItemInput.bulk_input id confirmed) ids;
    idempotency_key = key;
  }

  unfoldable pub create_bulk_job :
      (job_id : String) (now : ℕ) (action : Action) (alias_ids : List String) (confirmed : Bool)
      (idempotency_key : Option String) (aliases : Aliases) (jobs : Jobs)
      → Result (JobView × Bool × Jobs)
  unfolding bulk_request
  create_bulk_job job_id now action alias_ids confirmed key aliases jobs = do
    let ids = map strip alias_ids
    raise_if (not (are_ids ids)) Exception.value_error
    raise_if (not (is_distinct ids)) Exception.value_error
    raise_if (not (is_bulk_action action)) Exception.value_error
    raise_if (is_remote_write action && not confirmed) Exception.value_error
    check_states action ids aliases
    create_batch_job digest job_id now (bulk_request action ids confirmed key) jobs
