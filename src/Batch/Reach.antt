-- ===== src/Batch/Reach.antt =====
-- Every table that the operations of database.py can build: one step for each transaction on batch
-- jobs, in any order, with any arguments.
use icloud_code_gateway.Base.{
  ℕ, ◌+◌, ◌≤◌, String, ◌≡◌, refl, inl, inr, Bool-cases, sym, ◌∙◌, Bool, ◌&&◌, Option, none, some,
  List, [], ◌∷◌, map, length, any, all, find, All, returned, arith, Ensures, Ensures-if,
  Ensures->>=, Ensures-returned, Ensures-elim_option,
}
use mathlib.Core.Path.{subst}
use icloud_code_gateway.Batch.Rows.{JobStatus, JobKind, JobError, Item, Job, JobView}
use icloud_code_gateway.Batch.Tables.{
  Jobs, is_unknown, has_id, refresh_counts, set_batch_job_status, ItemChange, update_batch_item,
  next_batch_job, Request, create_batch_job,
}
use icloud_code_gateway.Batch.Tables.Counts.{
  IsCounted, AreCounted, finished-le-current, current-le-length, refresh_counts-IsCounted,
  All-update_job, set_batch_job_status-AreCounted, update_batch_item-AreCounted,
  next_batch_job-AreCounted, create_batch_job-AreCounted,
}
use icloud_code_gateway.Batch.Recovery.{
  recover_items, stop_replay, requeue, recover_job, recover_interrupted_batch_jobs,
  is_stopped_create, resume_job, resume_reconcilable_create_job,
}
use icloud_code_gateway.Batch.Recovery.Safety.{recover_items_same, cannot_retry-running}
use icloud_code_gateway.Batch.Recovery.Resume.{is_resumable, resumed, resume_job-eq}

length-map {ℓ} : {A B : Type ℓ} (f : A → B) (xs : List A) → length (map f xs) ≡ length xs
length-map f [] = refl
length-map f (x ∷ xs) = omega (arith, length-map f xs)

find-All :
    (P : Job → Type 0) (p : Job → Bool) (jobs : Jobs) (j : Job)
    → All P jobs
    → find p jobs ≡ some j
    → P j
find-All P p [] j h e = cc
find-All P p (k ∷ ks) j h e = elim (Bool-cases (p k)) [
  | inl hit ↦ let same : k ≡ j = ground arith in subst P same h.0
  | inr miss ↦ find-All P p ks j h.1 (rw miss at e)
]

module _ (digest casefold : String → String) where
  pub data Step (jobs : Jobs) : Jobs → Type 0 where
    created :
        {after : Jobs} (job_id : String) (now : ℕ) (r : Request) (view : JobView) (is_new : Bool)
        → create_batch_job digest job_id now r jobs ≡ returned (view, is_new, after)
        → Step jobs after
    claimed_next :
        {after : Jobs} (now : ℕ) (view : Option JobView)
        → next_batch_job now jobs ≡ returned (view, after)
        → Step jobs after
    status_set :
        {after : Jobs} (job_id : String) (status : JobStatus) (error : Option JobError) (now : ℕ)
        → set_batch_job_status job_id status error now jobs ≡ returned after
        → Step jobs after
    item_updated :
        {after : Jobs} (job_id : String) (index : ℕ) (c : ItemChange) (now : ℕ)
        → update_batch_item job_id index c now jobs ≡ returned after
        → Step jobs after
    recovered :
        {after : Jobs} (now : ℕ)
        → recover_interrupted_batch_jobs casefold now jobs ≡ after
        → Step jobs after
    resumed_job :
        {after : Jobs} (job_id : String) (now : ℕ)
        → resume_reconcilable_create_job casefold job_id now jobs ≡ returned after
        → Step jobs after

  pub data Reach : Jobs → Type 0 where
    start : Reach []
    step : {jobs after : Jobs} → Reach jobs → Step jobs after → Reach after

  length-recover_items :
      (kind : JobKind) (now : ℕ) (its : List Item)
      → length (recover_items casefold kind now its) ≡ length its
  unfolding recover_items
  length-recover_items kind now [] = refl
  length-recover_items kind now (it ∷ its) = omega (arith, length-recover_items kind now its)

  recover_job-IsCounted : (now : ℕ) (j : Job) → IsCounted j → IsCounted (recover_job casefold now j)
  unfolding recover_job stop_replay requeue refresh_counts
  recover_job-IsCounted now j c = ground (
    arith,
    length-recover_items j.kind now j.items,
    recover_items_same casefold j.kind now j.items,
    cannot_retry-running casefold j.kind j.items,
  )

  recover-AreCounted :
      (now : ℕ) (jobs : Jobs)
      → AreCounted jobs
      → AreCounted (recover_interrupted_batch_jobs casefold now jobs)
  unfolding recover_interrupted_batch_jobs
  recover-AreCounted now [] h = tt
  recover-AreCounted now (j ∷ js) h =
      (recover_job-IsCounted now j h.0, recover-AreCounted now js h.1)

  resume_job-IsCounted :
      (now : ℕ) (j : Job) → IsCounted j → Ensures IsCounted (resume_job casefold now j)
  resume_job-IsCounted now j c = rw (resume_job-eq casefold now j) (
      Ensures-if IsCounted
        (is_stopped_create j && any is_unknown j.items && all (is_resumable casefold) j.items) _ _
        (refresh_counts-IsCounted now
          (record j {
            items = map (resumed casefold now) j.items;
            status = JobStatus.queued;
            error = none;
          })
          (c.requested_items ∙ sym (length-map (resumed casefold now) j.items)))
        tt)

  resume-AreCounted :
      (job_id : String) (now : ℕ) (jobs : Jobs)
      → AreCounted jobs
      → Ensures AreCounted (resume_reconcilable_create_job casefold job_id now jobs)
  unfolding resume_reconcilable_create_job
  resume-AreCounted job_id now jobs h =
      Ensures-elim_option AreCounted (find (has_id job_id) jobs) _ _ (λ _. tt)
        λ j e. Ensures->>= AreCounted (resume_job casefold now j) _ λ j' r.
          All-update_job IsCounted job_id (λ _. j') jobs
            (λ _ _.
              Ensures-returned IsCounted (resume_job casefold now j) j'
                (resume_job-IsCounted now j (find-All IsCounted (has_id job_id) jobs j h e)) r)
            h

  Step-AreCounted : {jobs after : Jobs} → Step jobs after → AreCounted jobs → AreCounted after
  Step-AreCounted {jobs} {after} (created job_id now r view is_new e) h =
      Ensures-returned (λ v. AreCounted v.2) (create_batch_job digest job_id now r jobs)
        (view, is_new, after) (create_batch_job-AreCounted digest job_id now r jobs h) e
  Step-AreCounted {jobs} {after} (claimed_next now view e) h =
      Ensures-returned (λ v. AreCounted v.1) (next_batch_job now jobs) (view, after)
        (next_batch_job-AreCounted now jobs h) e
  Step-AreCounted {jobs} {after} (status_set job_id status error now e) h =
      Ensures-returned AreCounted (set_batch_job_status job_id status error now jobs) after
        (set_batch_job_status-AreCounted job_id status error now jobs h) e
  Step-AreCounted {jobs} {after} (item_updated job_id index c now e) h =
      Ensures-returned AreCounted (update_batch_item job_id index c now jobs) after
        (update_batch_item-AreCounted job_id index c now jobs h) e
  Step-AreCounted {jobs} {after} (recovered now e) h = rw e at (recover-AreCounted now jobs h)
  Step-AreCounted {jobs} {after} (resumed_job job_id now e) h =
      Ensures-returned AreCounted (resume_reconcilable_create_job casefold job_id now jobs) after
        (resume-AreCounted job_id now jobs h) e

  -- In every table that the operations can build, the four counters of each job are what its items say:
  -- as many as were requested, those that succeeded, those that failed, are unknown or cancelled, and
  -- those that have left the queue.
  pub Reach-AreCounted : {jobs : Jobs} → Reach jobs → AreCounted jobs
  Reach-AreCounted start = tt
  Reach-AreCounted (step r s) = Step-AreCounted s (Reach-AreCounted r)

  IsCounted-progress :
      (j : Job) → IsCounted j → (j.succeeded + j.failed ≤ j.current) × (j.current ≤ j.requested)
  IsCounted-progress j c = omega (arith, finished-le-current j.items, current-le-length j.items)

  -- So the progress that a client polls is consistent: no more items have ended than have left the
  -- queue, and no more have left it than were requested.
  Reach-progress :
      {jobs : Jobs} (job_id : String) (j : Job)
      → Reach jobs
      → find (has_id job_id) jobs ≡ some j
      → (j.succeeded + j.failed ≤ j.current) × (j.current ≤ j.requested)
  Reach-progress {jobs} job_id j r e =
      IsCounted-progress j (find-All IsCounted (has_id job_id) jobs j (Reach-AreCounted r) e)
