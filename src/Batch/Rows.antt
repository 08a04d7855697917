-- ===== src/Batch/Rows.antt =====
-- The rows of `batch_jobs` and `batch_job_items`, and what `_batch_job_from_row` reads from them.
use icloud_code_gateway.Base.{
  ℕ, String, Bool, false, Option, none, some, List, [], ◌∷◌, ◌>>=◌, returned, raised,
}
use icloud_code_gateway.Errors.{Result, security_error}

pub data Sealed (A : Type 0) : Type 0 where
  sealed : A → Sealed A
  damaged : Sealed A

pub data Stage : Type 0 where
  queued generating generated reconciling reserving executing : Stage
  waiting_retry waiting_reconcile waiting_capacity waiting_quota : Stage
  completed failed unknown : Stage

pub data ItemStatus : Type 0 where
  queued running success failed unknown cancelled : ItemStatus

pub data JobStatus : Type 0 where
  queued running completed partial failed needs_reconcile cancelled : JobStatus

pub data JobKind : Type 0 where
  create_aliases bulk_aliases : JobKind

pub data Action : Type 0 where
  create issue_keys reveal_keys deactivate delete : Action

pub data WaitReason : Type 0 where
  rate_limited transient_error capacity_reached : WaitReason

pub data RetryKind : Type 0 where
  network session reconcile remote_rejected reserve_unconfirmed : RetryKind

-- The JSON object in `result_blob`; a key that is not there is `none`, or `false`.
pub record Payload : Type 0 where
  pub candidate : Option String
  pub reconcile_before_reserve : Bool
  pub wait_reason : Option WaitReason
  pub resume_at : Option ℕ
  pub code : Option String
  pub retry_kind : Option RetryKind
  pub retry_after_seconds : Option ℕ
  pub transient_retry_attempts : Option ℕ
  pub id : Option String
  pub email : Option String
  pub label : Option String

abbrev pub empty : Payload
empty = record {
  candidate = none;
  reconcile_before_reserve = false;
  wait_reason = none;
  resume_at = none;
  code = none;
  retry_kind = none;
  retry_after_seconds = none;
  transient_retry_attempts = none;
  id = none;
  email = none;
  label = none;
}

-- The JSON object in `input_blob`.
pub data ItemInput : Type 0 where
  create_input : (label note sender_filter : String) → ItemInput
  bulk_input : (alias_id : String) (confirmed : Bool) → ItemInput

-- The texts of an item's `error`.
pub data ItemError : Type 0 where
  -- "retryable:<kind>", "capacity_reached:<code>", "rate_limited:<code>"
  retryable : RetryKind → ItemError
  capacity_reached rate_limited : String → ItemError
  -- "remote write outcome is unknown"
  outcome_unknown : ItemError
  -- "interrupted during an in-flight operation"
  interrupted : ItemError
  -- "not_found", "conflict", "remote_key_exists", "key_status_unavailable"
  not_found conflict remote_key_exists key_status_unavailable : ItemError
  -- the class name of an exception
  type_named : String → ItemError

-- The texts of a job's `error`.
pub data JobError : Type 0 where
  -- "an in-flight operation was interrupted; automatic replay stopped"
  interrupted : JobError
  -- "remote write outcome is unknown; automatic replay stopped"
  outcome_unknown : JobError
  -- "Apple HME address capacity is full; …"
  capacity_full : JobError
  -- "Apple HME rate limited (<code>); cooling down until <time>", and "…; retrying without cooldown"
  cooling_down : String → ℕ → JobError
  no_cooldown : String → JobError
  -- "temporary HME failure; retrying at <time>"
  retrying_at : ℕ → JobError
  -- "batch worker failed safely"
  worker_failed : JobError

pub record Item : Type 0 where
  pub index : ℕ
  pub alias_id : Option String
  pub input : Sealed ItemInput
  pub stage : Stage
  pub status : ItemStatus
  pub result : Option (Sealed Payload)
  pub error : Option ItemError
  pub created_at : ℕ
  pub updated_at : ℕ

pub record Job : Type 0 where
  pub id : String
  pub kind : JobKind
  pub action : Action
  pub status : JobStatus
  pub idempotency_key_hash : Option String
  pub request_fingerprint : String
  pub requested : ℕ
  pub succeeded : ℕ
  pub failed : ℕ
  pub current : ℕ
  pub created_at : ℕ
  pub updated_at : ℕ
  pub error : Option JobError
  pub items : List Item

-- An item and a job as `_batch_job_from_row` returns them.
pub record ItemView : Type 0 where
  pub index : ℕ
  pub alias_id : Option String
  pub input : ItemInput
  pub stage : Stage
  pub status : ItemStatus
  pub result : Option Payload
  pub error : Option ItemError

pub record JobView : Type 0 where
  pub id : String
  pub kind : JobKind
  pub action : Action
  pub status : JobStatus
  pub requested : ℕ
  pub succeeded : ℕ
  pub failed : ℕ
  pub current : ℕ
  pub created_at : ℕ
  pub updated_at : ℕ
  pub error : Option JobError
  pub items : List ItemView

-- `SecretBox.decrypt` and `json.loads`
unfoldable pub unseal : {A : Type 0} → Sealed A → Result A
unseal (sealed a) = returned a
unseal damaged = raised security_error

unfoldable pub unseal_result : Option (Sealed Payload) → Result (Option Payload)
unseal_result none = returned none
unseal_result (some (sealed p)) = returned (some p)
unseal_result (some damaged) = raised security_error

unfoldable pub item_from_row : Item → Result ItemView
unfolding unseal unseal_result
item_from_row it = do
  input ← unseal it.input
  result ← unseal_result it.result
  returned (record {
    index = it.index;
    alias_id = it.alias_id;
    input = input;
    stage = it.stage;
    status = it.status;
    result = result;
    error = it.error;
  })

unfoldable pub items_from_rows : List Item → Result (List ItemView)
unfolding item_from_row
items_from_rows [] = returned []
items_from_rows (it ∷ its) = do
  view ← item_from_row it
  views ← items_from_rows its
  returned (view ∷ views)

unfoldable pub job_from_row : Job → Result JobView
unfolding items_from_rows
job_from_row j = do
  views ← items_from_rows j.items
  returned (record {
    id = j.id;
    kind = j.kind;
    action = j.action;
    status = j.status;
    requested = j.requested;
    succeeded = j.succeeded;
    failed = j.failed;
    current = j.current;
    created_at = j.created_at;
    updated_at = j.updated_at;
    error = j.error;
    items = views;
  })
