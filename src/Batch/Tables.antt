-- ===== src/Batch/Tables.antt =====
-- The operations of database.py on batch jobs. A transaction that raises rolls back, so an operation
-- returns the new table, or the exception and no table.
pub mod Counts
pub mod Claim
pub mod Idempotency
pub mod Stored
use Prim.Native.Nat.{Ordering}
use Prim.Native.String.{compare}
use icloud_code_gateway.Base.{
  ℕ, suc, ◌+◌, String, Bool, true, false, not, ◌&&◌, ◌||◌, Option, none, some, List, [], ◌∷◌, ◌++◌,
  map, ltb, ◌==◌, str_eq, if◌then◌else◌, coalesce, length, count_if, any, find, ◌>>=◌, ◌>>◌,
  returned, raised, raise_if,
}
use icloud_code_gateway.Errors.{Result, value_error, integrity_error}
use icloud_code_gateway.Errors
use icloud_code_gateway.Columns.{clean_text}
use icloud_code_gateway.Batch.Rows.{
  Sealed, sealed, Stage, ItemStatus, JobStatus, JobKind, create_aliases, bulk_aliases, Action,
  Payload, ItemInput, create_input, bulk_input, ItemError, JobError, Item, Job, JobView,
  job_from_row,
}

abbrev pub Jobs : Type 0
Jobs = List Job

abbrev pub is_success : Item → Bool
is_success it = elim it.status [ ItemStatus.success ↦ true | _ ↦ false ]

-- `status IN ('failed', 'unknown', 'cancelled')`
abbrev pub is_failed : Item → Bool
is_failed it = elim it.status [
  | ItemStatus.failed ↦ true
  | ItemStatus.unknown ↦ true
  | ItemStatus.cancelled ↦ true
  | _ ↦ false
]

abbrev pub is_unknown : Item → Bool
is_unknown it = elim it.status [ ItemStatus.unknown ↦ true | _ ↦ false ]

abbrev pub is_running : Item → Bool
is_running it = elim it.status [ ItemStatus.running ↦ true | _ ↦ false ]

-- `status != 'queued'`
abbrev pub is_current : Item → Bool
is_current it = elim it.status [ ItemStatus.queued ↦ false | _ ↦ true ]

abbrev pub has_id : String → Job → Bool
has_id job_id j = str_eq j.id job_id

abbrev pub is_queued : Job → Bool
is_queued j = elim j.status [ JobStatus.queued ↦ true | _ ↦ false ]

-- `_refresh_batch_job_counts`, on the row that it updates.
unfoldable pub refresh_counts : ℕ → Job → Job
refresh_counts now j = record j {
  succeeded = count_if is_success j.items;
  failed = count_if is_failed j.items;
  current = count_if is_current j.items;
  updated_at = now;
}

-- `UPDATE … WHERE id = ?`
unfoldable pub update_job : String → (Job → Job) → Jobs → Jobs
update_job job_id f [] = []
update_job job_id f (j ∷ js) = (if has_id job_id j then f j else j) ∷ update_job job_id f js

unfoldable pub get_batch_job : String → Jobs → Result JobView
get_batch_job job_id jobs = elim (find (has_id job_id) jobs) [
  | none ↦ raised Errors.not_found
  | some j ↦ job_from_row j
]

unfoldable pub set_batch_job_status : String → JobStatus → Option JobError → ℕ → Jobs → Result Jobs
unfolding update_job
set_batch_job_status job_id status error now jobs =
    if any (has_id job_id) jobs
    then returned (
        update_job job_id (λ j. record j { status = status; error = error; updated_at = now }) jobs)
    else raised Errors.not_found

-- The arguments of `update_batch_item`; those that default to `None` are `none`.
pub record ItemChange : Type 0 where
  pub stage : Stage
  pub status : ItemStatus
  pub alias_id : Option String
  pub result : Option Payload
  pub error : Option ItemError

unfoldable pub change_item : ItemChange → ℕ → Item → Item
change_item c now it = record it {
  stage = c.stage;
  status = c.status;
  alias_id = coalesce c.alias_id it.alias_id;
  result = elim c.result [ none ↦ it.result | some p ↦ some (sealed p) ];
  error = c.error;
  updated_at = now;
}

unfoldable pub update_item : ℕ → (Item → Item) → List Item → List Item
update_item index f [] = []
update_item index f (it ∷ its) = (if it.index == index then f it else it) ∷ update_item index f its

unfoldable pub has_item : String → ℕ → Job → Bool
has_item job_id index j = has_id job_id j && any (λ it. it.index == index) j.items

unfoldable pub update_batch_item : String → ℕ → ItemChange → ℕ → Jobs → Result Jobs
unfolding refresh_counts update_job change_item update_item has_item
update_batch_item job_id index c now jobs =
    if any (has_item job_id index) jobs
    then returned (
        update_job job_id
          (λ j.
            refresh_counts now (record j { items = update_item index (change_item c now) j.items }))
          jobs)
    else raised Errors.not_found

-- `ORDER BY created_at, id`
unfoldable pub comes_before : Job → Job → Bool
comes_before a b =
    ltb a.created_at b.created_at
    || (a.created_at == b.created_at && elim (compare a.id b.id) [ Ordering.gt ↦ false | _ ↦ true ])

-- `SELECT … WHERE status = 'queued' ORDER BY created_at, id LIMIT 1`
unfoldable pub oldest_queued : Jobs → Option Job
unfolding comes_before
oldest_queued [] = none
oldest_queued (j ∷ js) =
    let rest = oldest_queued js in
    if is_queued j
    then elim rest [ none ↦ some j | some k ↦ if comes_before j k then some j else some k ]
    else rest

abbrev pub claimed : ℕ → Job → Job
claimed now j = record j { status = JobStatus.running; error = none; updated_at = now }

-- `next_batch_job`: the claim, and the row read back; a damaged blob raises and rolls the claim back.
unfoldable pub next_batch_job : ℕ → Jobs → Result (Option JobView × Jobs)
unfolding oldest_queued update_job
next_batch_job now jobs = elim (oldest_queued jobs) [
  | none ↦ returned (none, jobs)
  | some j ↦ job_from_row (claimed now j) >>= λ view.
      returned (some view, update_job j.id (claimed now) jobs)
]

abbrev alias_of : ItemInput → Option String
alias_of (create_input _ _ _) = none
alias_of (bulk_input alias_id _) = some alias_id

-- The inserted items, numbered from `index`.
unfoldable pub new_items : ℕ → ℕ → List ItemInput → List Item
new_items now index [] = []
new_items now index (input ∷ inputs) =
    record {
      index = index;
      alias_id = alias_of input;
      input = sealed input;
      stage = Stage.queued;
      status = ItemStatus.queued;
      result = none;
      error = none;
      created_at = now;
      updated_at = now;
    }
    ∷ new_items now (suc index) inputs

-- What a request asks for. `kind` and `action` are literals at every call, so their validation passes.
pub record Request : Type 0 where
  pub kind : JobKind
  pub action : Action
  pub fingerprint : String
  pub items : List ItemInput
  pub idempotency_key : Option String

unfoldable pub new_job : String → ℕ → Option String → Request → Job
unfolding new_items
new_job job_id now key_hash r = record {
  id = job_id;
  kind = r.kind;
  action = r.action;
  status = JobStatus.queued;
  idempotency_key_hash = key_hash;
  request_fingerprint = r.fingerprint;
  requested = length r.items;
  succeeded = 0;
  failed = 0;
  current = 0;
  created_at = now;
  updated_at = now;
  error = none;
  items = new_items now 1 r.items;
}

abbrev pub same_kind : JobKind → JobKind → Bool
same_kind create_aliases create_aliases = true
same_kind bulk_aliases bulk_aliases = true
same_kind _ _ = false

-- `WHERE kind = ? AND idempotency_key_hash = ?`
abbrev pub has_key : JobKind → String → Job → Bool
has_key kind key_hash j =
    same_kind j.kind kind
    && elim j.idempotency_key_hash [ none ↦ false | some h ↦ str_eq h key_hash ]

unfoldable pub existing_job : JobKind → Option String → Jobs → Option Job
existing_job kind none jobs = none
existing_job kind (some key_hash) jobs = find (has_key kind key_hash) jobs

-- The row is inserted last; a UUID that is taken violates the primary key.
unfoldable pub insert_job :
    String → ℕ → Option String → Request → Jobs → Result (JobView × Bool × Jobs)
unfolding new_job
insert_job job_id now key_hash r jobs = do
  raise_if (any (has_id job_id) jobs) integrity_error
  view ← job_from_row (new_job job_id now key_hash r)
  returned (view, true, jobs ++ new_job job_id now key_hash r ∷ [])

abbrev no_items : List ItemInput → Bool
no_items [] = true
no_items (_ ∷ _) = false

-- `digest` is `SecretBox.digest` for the purpose "batch-idempotency-key".
module _ (digest : String → String) where
  unfoldable pub hash_of_key : Option String → Result (Option String)
  unfolding clean_text
  hash_of_key none = returned none
  hash_of_key (some key) = do
    clean_key ← clean_text key 200
    raise_if (str_eq clean_key "") value_error
    returned (some (digest clean_key))

  -- The job, whether it is new, and the table. `job_id` is the fresh `uuid4`.
  unfoldable pub create_batch_job : String → ℕ → Request → Jobs → Result (JobView × Bool × Jobs)
  unfolding hash_of_key existing_job insert_job
  create_batch_job job_id now r jobs = do
    raise_if (no_items r.items) value_error
    key_hash ← hash_of_key r.idempotency_key
    elim (existing_job r.kind key_hash jobs) [
      | none ↦ insert_job job_id now key_hash r jobs
      | some j ↦ do
        raise_if (not (str_eq j.request_fingerprint r.fingerprint)) Errors.conflict
        view ← job_from_row j
        returned (view, false, jobs)
    ]
