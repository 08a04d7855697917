-- ===== src/Worker/Finish.antt =====
-- The end of `_run_job` of jobs.py: the status of a job whose items have all had their turn.
mod Examples
use icloud_code_gateway.Base.{
  none, ℕ, zero, suc, ◌+◌, ◌≤◌, String, ◌≡◌, refl, Bool, true, false, not, if◌then◌else◌, ◌==◌,
  List, [], ◌∷◌, length, count_if, all, any, arith, returned, raised, sym, ◌∙◌, ap, Bool-cases, inl,
  inr,
}
use icloud_code_gateway.Errors.{Result}
use icloud_code_gateway.Batch.Rows.{
  JobStatus, Job, JobView, ItemView, Item, job_from_row, items_from_rows,
}
use icloud_code_gateway.Batch.Tables.{is_success}
use icloud_code_gateway.Worker.Environment.{Environment}
use icloud_code_gateway.Worker.Environment.Actions.{Worker, ◌>>=◌, read_job, set_status}
use icloud_code_gateway.Batch.Tables.Counts.{IsCounted}

unfoldable pub final_status : JobView → JobStatus
final_status job =
    if job.succeeded == job.requested
    then JobStatus.completed
    else if job.succeeded == 0
    then JobStatus.failed
    else JobStatus.partial

module _ {W : Type 0} (env : Environment W) where
  -- What follows the loop of `_run_job`.
  unfoldable pub finish_job : String → Worker W (Unit {0})
  finish_job job_id = read_job job_id >>= λ job. set_status env job_id (final_status job) none

-- The status by the items: all, some or none of them succeeded.
unfoldable pub status_by_items : List Item → JobStatus
status_by_items its =
    if all is_success its
    then JobStatus.completed
    else if any is_success its
    then JobStatus.partial
    else JobStatus.failed

count_if-le-length : (its : List Item) → count_if is_success its ≤ length its
count_if-le-length [] = omega arith
count_if-le-length (it ∷ its) = ground (arith, count_if-le-length its)

count_if-length : (its : List Item) → (count_if is_success its == length its) ≡ all is_success its
count_if-length [] = refl
count_if-length (it ∷ its) = ground (arith, count_if-length its, count_if-le-length its)

count_if-zero : (its : List Item) → (count_if is_success its == 0) ≡ not (any is_success its)
count_if-zero [] = refl
count_if-zero (it ∷ its) = ground (arith, count_if-zero its)

-- The view of a row has the row's counters.
pub counters :
    (j : Job) (view : JobView)
    → job_from_row j ≡ returned view
    → (view.requested ≡ j.requested) × (view.succeeded ≡ j.succeeded)
unfolding job_from_row
counters j view e = (ground arith, ground arith)

-- The status that `_run_job` gives a job, from the counters of its view, is the one by its items, if
-- the counters of the row agree with the items.
pub final_status-items :
    (j : Job) (view : JobView)
    → IsCounted j
    → job_from_row j ≡ returned view
    → final_status view ≡ status_by_items j.items
unfolding final_status status_by_items
final_status-items j view c e =
    let fields = counters j view e in
    let full = count_if-length j.items in
    let no = count_if-zero j.items in
    rw fields.0
      (rw fields.1 (rw c.requested_items (rw c.succeeded_items (rw full (rw no (ground arith))))))
