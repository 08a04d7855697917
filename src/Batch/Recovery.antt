-- ===== src/Batch/Recovery.antt =====
-- database.py: `recover_interrupted_batch_jobs`, which a worker runs when it becomes the owner, and
-- `resume_reconcilable_create_job`, which an operator asks for.
pub mod Safety
pub mod Stranded
pub mod Resume
use icloud_code_gateway.Base.{
  ℕ, String, Bool, true, false, not, ◌&&◌, ◌||◌, Option, none, some, List, [], ◌∷◌, if◌then◌else◌,
  or_else, any, find, ◌>>=◌, ◌>>◌, returned, raised, raise_if,
}
use icloud_code_gateway.Errors.{Result}
use icloud_code_gateway.Errors
use icloud_code_gateway.Columns.{clean_candidate, has_one_at}
use icloud_code_gateway.Batch.Rows.{
  Sealed, sealed, damaged, Stage, ItemStatus, JobStatus, JobKind, create_aliases, bulk_aliases,
  Payload, ItemError, JobError, Item, Job, JobView,
}
use icloud_code_gateway.Batch.Tables.{
  Jobs, is_unknown, is_running, has_id, refresh_counts, update_job, get_batch_job,
}

abbrev pub is_create : JobKind → Bool
is_create create_aliases = true
is_create bulk_aliases = false

abbrev pub is_generating : Stage → Bool
is_generating Stage.generating = true
is_generating _ = false

abbrev pub is_running_job : JobStatus → Bool
is_running_job JobStatus.running = true
is_running_job _ = false

-- `result["reconcile_before_reserve"] = True` on a copy.
abbrev pub must_reconcile : Payload → Payload
must_reconcile p = record p { reconcile_before_reserve = true }

abbrev retried : ℕ → Item → Stage × Option (Sealed Payload) → Item
retried now it (stage, result) = record it {
  status = ItemStatus.queued;
  stage = stage;
  result = elim result [ none ↦ it.result | some r ↦ some r ];
  error = none;
  updated_at = now;
}

abbrev interrupted : ℕ → Item → Item
interrupted now it = record it {
  status = ItemStatus.unknown;
  stage = Stage.unknown;
  error = some ItemError.interrupted;
  updated_at = now;
}

-- `UPDATE batch_jobs SET status = 'needs_reconcile', …` for the job of such a row.
unfoldable pub stop_replay : Bool → ℕ → Job → Job
stop_replay stopped now j =
    if stopped
    then record j {
      status = JobStatus.needs_reconcile;
      error = some JobError.interrupted;
      updated_at = now;
    }
    else j

abbrev pub is_requeued : Job → Bool
is_requeued j = is_running_job j.status && not (any is_unknown j.items)

-- `UPDATE batch_jobs SET status = 'queued', …` for a running job with no unknown item.
unfoldable pub requeue : ℕ → Job → Job
requeue now j =
    if is_requeued j
    then record j { status = JobStatus.queued; error = none; updated_at = now }
    else j

abbrev pub is_stopped_create : Job → Bool
is_stopped_create j =
    is_create j.kind && elim j.status [ JobStatus.needs_reconcile ↦ true | _ ↦ false ]

module _ (casefold : String → String) where
  -- `candidate.count("@") == 1` for the saved candidate, stripped and folded.
  unfoldable pub has_candidate : Payload → Bool
  unfolding clean_candidate has_one_at
  has_candidate p = has_one_at (clean_candidate casefold (or_else p.candidate ""))

  -- The new stage, and the new result if it changes; `none` where the outcome cannot be known.
  unfoldable pub retry_of :
      Stage → Option (Sealed Payload) → Option (Stage × Option (Sealed Payload))
  unfolding has_candidate
  retry_of stage result = if is_generating stage then some (Stage.queued, none) else elim result [
    | none ↦ none
    | some damaged ↦ none
    | some (sealed p) ↦
        if has_candidate p then some (Stage.reconciling, some (sealed (must_reconcile p))) else none
  ]

  unfoldable pub recover_item : JobKind → ℕ → Item → Item
  unfolding retry_of
  recover_item kind now it =
      if is_running it
      then elim (if is_create kind then retry_of it.stage it.result else none) [
        | none ↦ interrupted now it
        | some r ↦ retried now it r
      ]
      else it

  -- The items of a job after the loop over the interrupted rows.
  unfoldable pub recover_items : JobKind → ℕ → List Item → List Item
  unfolding recover_item
  recover_items kind now [] = []
  recover_items kind now (it ∷ its) = recover_item kind now it ∷ recover_items kind now its

  -- Some interrupted row of the job could not be requeued.
  unfoldable pub cannot_retry : JobKind → Item → Bool
  unfolding retry_of
  cannot_retry kind it =
      is_running it && elim (if is_create kind then retry_of it.stage it.result else none) [
        | none ↦ true
        | some _ ↦ false
      ]

  unfoldable pub recover_job : ℕ → Job → Job
  unfolding recover_items cannot_retry stop_replay requeue refresh_counts
  recover_job now j =
      let stopped = any (cannot_retry j.kind) j.items in
      let after_loop =
        stop_replay stopped now (record j { items = recover_items j.kind now j.items }) in
      let affected = any is_running j.items || is_requeued after_loop in
      let after_queue = requeue now after_loop in
      if affected then refresh_counts now after_queue else after_queue

  unfoldable pub recover_interrupted_batch_jobs : ℕ → Jobs → Jobs
  unfolding recover_job
  recover_interrupted_batch_jobs now [] = []
  recover_interrupted_batch_jobs now (j ∷ js) =
      recover_job now j ∷ recover_interrupted_batch_jobs now js

  -- The saved result of an unknown item, marked for reconciliation; a missing or damaged blob and a
  -- missing candidate raise `ConflictError`.
  unfoldable pub prepared : Item → Result Payload
  unfolding has_candidate
  prepared it = elim it.result [
    | none ↦ raised Errors.conflict
    | some damaged ↦ raised Errors.conflict
    | some (sealed p) ↦
        if has_candidate p then returned (must_reconcile p) else raised Errors.conflict
  ]

  unfoldable pub resume_item : ℕ → Item → Result Item
  unfolding prepared
  resume_item now it =
      if is_unknown it
      then (prepared it >>= λ p. returned (record it {
        status = ItemStatus.queued;
        stage = Stage.reconciling;
        result = some (sealed p);
        error = none;
        updated_at = now;
      }))
      else returned it

  unfoldable pub resume_items : ℕ → List Item → Result (List Item)
  unfolding resume_item
  resume_items now [] = returned []
  resume_items now (it ∷ its) = do
    it' ← resume_item now it
    its' ← resume_items now its
    returned (it' ∷ its')

  unfoldable pub resume_job : ℕ → Job → Result Job
  unfolding resume_items refresh_counts
  resume_job now j = do
    raise_if (not (is_stopped_create j)) Errors.conflict
    raise_if (not (any is_unknown j.items)) Errors.conflict
    items ← resume_items now j.items
    returned
        (refresh_counts now (record j { items = items; status = JobStatus.queued; error = none }))

  -- The transaction, and the table after it; the view is read back by `get_batch_job`.
  unfoldable pub resume_reconcilable_create_job : String → ℕ → Jobs → Result Jobs
  unfolding resume_job update_job
  resume_reconcilable_create_job job_id now jobs = elim (find (has_id job_id) jobs) [
    | none ↦ raised Errors.not_found
    | some j ↦ resume_job now j >>= λ j'. returned (update_job job_id (λ _. j') jobs)
  ]
