-- ===== src/Worker/RunJob/Marked.antt =====
-- What the row of a job says after `set_batch_job_status`.
use icloud_code_gateway.Base.{
  ℕ, String, ◌≡◌, refl, true, Option, some, [], ◌∷◌, any, find, ◌/◌, arith, returned, raised, inl,
  inr, Bool-cases,
}
use mathlib.Core.Path.{subst}
use icloud_code_gateway.Errors.{Result}
use icloud_code_gateway.Batch.Rows.{JobStatus, JobError, Job}
use icloud_code_gateway.Batch.Tables.{Jobs, has_id, update_job, set_batch_job_status}
use icloud_code_gateway.Worker.Environment.{Environment, State}
use icloud_code_gateway.Worker.Environment.Actions.{on_jobs, put_jobs, set_status}
use icloud_code_gateway.Worker.Triples.{Upon, Triple, Anything}

-- The row of the job is there, and satisfies the predicate.
abbrev pub IsMarked : String → (Job → Type 0) → Jobs → Type 0
IsMarked job_id P jobs = (j : Job) × (find (has_id job_id) jobs ≡ some j) × P j

abbrev pub with_status : JobStatus → Option JobError → ℕ → Job → Job
with_status status error now j = record j { status = status; error = error; updated_at = now }

module _ (job_id : String) (P : Job → Type 0) where
  pub update_job-IsMarked :
      (f : Job → Job) (jobs : Jobs)
      → any (has_id job_id) jobs ≡ true
      → ((j : Job) → has_id job_id (f j) ≡ has_id job_id j)
      → ((j : Job) → find (has_id job_id) jobs ≡ some j → P (f j))
      → IsMarked job_id P (update_job job_id f jobs)
  unfolding update_job
  update_job-IsMarked f [] hit ids h = absurd (cc hit)
  update_job-IsMarked f (j ∷ js) hit ids h = elim (Bool-cases (has_id job_id j)) [
    | inl this ↦ (f j, rw (this, ids j, this) refl, h j (rw this refl))
    | inr other ↦
        let rest : any (has_id job_id) js ≡ true = ground arith in
        let (k, found, marked) = update_job-IsMarked f js rest ids (λ k e. h k (rw other e)) in
        (k, rw (other, other) found, marked)
  ]

  set_batch_job_status-IsMarked :
      (status : JobStatus) (error : Option JobError) (now : ℕ) (jobs after : Jobs)
      → ((j : Job) → find (has_id job_id) jobs ≡ some j → P (with_status status error now j))
      → set_batch_job_status job_id status error now jobs ≡ returned after
      → IsMarked job_id P after
  unfolding set_batch_job_status
  set_batch_job_status-IsMarked status error now jobs after h e =
      elim (Bool-cases (any (has_id job_id) jobs)) [
        | inl hit ↦
            let table : update_job job_id (with_status status error now) jobs ≡ after =
              ground arith in
            subst (IsMarked job_id P) table
              (update_job-IsMarked (with_status status error now) jobs hit (λ j. refl) h)
        | inr miss ↦ absurd (ground arith)
      ]

  -- A status of the job is written, from a state in which the row that it changes is known.
  pub set_status-IsMarked :
      {W : Type 0} (env : Environment W) (Known : Jobs → Type 0) (status : JobStatus)
      (error : Option JobError)
      → ((now : ℕ) (jobs : Jobs) (j : Job)
          → Known jobs
          → find (has_id job_id) jobs ≡ some j
          → P (with_status status error now j))
      → Triple {S = State W} Anything
          (λ s. Known s.jobs)
          (set_status env job_id status error)
          (λ _ s. IsMarked job_id P s.jobs)
  unfolding set_status on_jobs
  set_status-IsMarked {W} env Known status error h = record {
    run = λ s i known.
        let (now, w) = env.now s.world in
        (
          tt,
          by_result (now / 1000) s.jobs known (record s { world = w })
              (set_batch_job_status job_id status error (now / 1000) s.jobs) refl,
        );
  }
    where
      by_result :
          (now : ℕ) (jobs : Jobs)
          → Known jobs
          → (t : State W) (r : Result Jobs) → set_batch_job_status job_id status error now jobs ≡ r
          → Upon (λ _ s. IsMarked job_id P s.jobs) (put_jobs t r).0 (put_jobs t r).1
      by_result now jobs known t (returned after) e =
          set_batch_job_status-IsMarked status error now jobs after (λ j. h now jobs j known) e
      by_result now jobs known t (raised x) e = tt
