-- ===== src/Batch/Recovery/Stranded.antt =====
-- What `recover_interrupted_batch_jobs` does not see: a running job with an unknown item.
use icloud_code_gateway.Base.{
  ℕ, String, ◌≡◌, refl, inl, inr, true, false, not, ◌&&◌, Bool, Option, none, some, [], ◌∷◌, any,
  find, All, arith, str_eq, returned, raised,
}
use icloud_code_gateway.Errors
use icloud_code_gateway.Errors.{Result}
use icloud_code_gateway.Batch.Rows.{Job, JobView, job_from_row}
use icloud_code_gateway.Batch.Tables.{
  Jobs, refresh_counts, has_id, is_queued, is_unknown, is_running, claimed, next_batch_job,
}
use icloud_code_gateway.Batch.Tables.Claim.{IsAmong, next_batch_job-IsOldest}
use icloud_code_gateway.Batch.Recovery.{
  stop_replay, requeue, is_running_job, is_stopped_create, recover_job,
  recover_interrupted_batch_jobs, resume_job, resume_reconcilable_create_job,
}
use icloud_code_gateway.Batch.Recovery.Safety.{recover_job-same}

-- The job is running, has an unknown item and no running one.
abbrev pub is_stranded : Job → Bool
is_stranded j = is_running_job j.status && any is_unknown j.items && not (any is_running j.items)

-- So are all rows with the id.
abbrev pub AreStranded : String → Jobs → Type 0
AreStranded job_id = All (λ j. has_id job_id j ≡ true → is_stranded j ≡ true)

-- A claim returned a job with the id.
abbrev pub claims : String → Result (Option JobView × Jobs) → Bool
claims job_id (raised e) = false
claims job_id (returned (none, after)) = false
claims job_id (returned (some view, after)) = str_eq view.id job_id

among-stranded :
    (job_id : String) (jobs : Jobs) (j : Job)
    → AreStranded job_id jobs
    → IsAmong j jobs
    → has_id job_id j ≡ true
    → is_stranded j ≡ true
among-stranded job_id [] j h i same = elim i [ ]
among-stranded job_id (k ∷ ks) j h (inl e) same = rw e (h.0 (rw (← e) same))
among-stranded job_id (k ∷ ks) j h (inr i) same = among-stranded job_id ks j h.1 i same

claimed-not_stranded :
    (now : ℕ) (j : Job) (view : JobView)
    → is_queued j ≡ true
    → job_from_row (claimed now j) ≡ returned view
    → (view.id ≡ j.id) × (is_stranded j ≡ false)
unfolding job_from_row
claimed-not_stranded now j view q e = ground arith

module _ (casefold : String → String) (job_id : String) where
  stranded_same : (now : ℕ) (j : Job) → is_stranded j ≡ true → recover_job casefold now j ≡ j
  stranded_same now j h = recover_job-same casefold now j (ground arith) (ground arith)

  id-recover_job : (now : ℕ) (j : Job) → (recover_job casefold now j).id ≡ j.id
  unfolding recover_job stop_replay requeue refresh_counts
  id-recover_job now j = ground arith

  AreStranded-recover :
      (now : ℕ) (jobs : Jobs)
      → AreStranded job_id jobs
      → AreStranded job_id (recover_interrupted_batch_jobs casefold now jobs)
  unfolding recover_interrupted_batch_jobs
  AreStranded-recover now [] h = tt
  AreStranded-recover now (j ∷ js) h = (
    λ same.
        let stranded : is_stranded j ≡ true = h.0 (rw (← id-recover_job now j) same) in
        rw (stranded_same now j stranded) stranded,
    AreStranded-recover now js h.1,
  )

  find-recover :
      (now : ℕ) (jobs : Jobs)
      → AreStranded job_id jobs
      → find (has_id job_id) (recover_interrupted_batch_jobs casefold now jobs)
        ≡ find (has_id job_id) jobs
  unfolding recover_interrupted_batch_jobs
  find-recover now [] h = refl
  find-recover now (j ∷ js) h =
      ground (arith, id-recover_job now j, h.0, stranded_same now j, find-recover now js h.1)

  find-stranded :
      (jobs : Jobs) (j : Job)
      → AreStranded job_id jobs
      → find (has_id job_id) jobs ≡ some j
      → is_stranded j ≡ true
  find-stranded [] j h e = cc
  find-stranded (k ∷ ks) j h e = ground (arith, h.0, find-stranded ks j h.1)

  never_claimed :
      (now : ℕ) (jobs : Jobs)
      → AreStranded job_id jobs
      → claims job_id (next_batch_job now jobs) ≡ false
  never_claimed now jobs h = by_result (next_batch_job now jobs) refl
    where
      by_result :
          (r : Result (Option JobView × Jobs))
          → next_batch_job now jobs ≡ r
          → claims job_id r ≡ false
      by_result (raised e) c = refl
      by_result (returned (none, after)) c = refl
      by_result (returned (some view, after)) c =
          let (j, among, queued, read) = (next_batch_job-IsOldest now jobs after view c).4 in
          let fields = claimed-not_stranded now j view queued read in
          ground (arith, fields.0, fields.1, among-stranded job_id jobs j h among)

  not_resumed :
      (now : ℕ) (jobs : Jobs) (j : Job)
      → find (has_id job_id) jobs ≡ some j
      → is_stopped_create j ≡ false
      → resume_reconcilable_create_job casefold job_id now jobs ≡ raised Errors.conflict
  unfolding resume_reconcilable_create_job resume_job
  not_resumed now jobs j e running = rw (e, resume_reconcilable_create_job) (rw running refl)

  -- A crash between marking an item unknown and stopping its job leaves a job that is running, with an
  -- unknown item and no running one. If all rows with the id are like that, recovery at any time leaves
  -- the job's row as it was and all of them as they are, and afterwards, at any later time, an operator
  -- cannot resume the job, which is refused as a conflict, and a claim does not return it.
  pub recover_misses_unknown :
      (now later : ℕ) (jobs : Jobs) (j : Job)
      → AreStranded job_id jobs
      → find (has_id job_id) jobs ≡ some j
      → let recovered = recover_interrupted_batch_jobs casefold now jobs in
        (find (has_id job_id) recovered ≡ some j)
        × AreStranded job_id recovered
        × (resume_reconcilable_create_job casefold job_id later recovered ≡ raised Errors.conflict)
        × (claims job_id (next_batch_job later recovered) ≡ false)
  recover_misses_unknown now later jobs j h e =
      let recovered = recover_interrupted_batch_jobs casefold now jobs in
      let found : find (has_id job_id) recovered ≡ some j = rw (find-recover now jobs h) e in
      let stranded = AreStranded-recover now jobs h in
      let running = find-stranded jobs j h e in
      let idle : is_stopped_create j ≡ false = ground arith in
      (
        found,
        stranded,
        not_resumed later recovered j found idle,
        never_claimed later recovered stranded,
      )
