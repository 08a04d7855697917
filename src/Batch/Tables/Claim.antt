-- ===== src/Batch/Tables/Claim.antt =====
-- What a worker claims.
use mathlib.Core.Path.{subst}
use icloud_code_gateway.Base.{
  sym, ◌⊎◌, Bool-cases, ℕ, ◌≤◌, ◌≡◌, refl, inl, inr, true, false, Option, none, some, [], ◌∷◌, any,
  All, returned, arith, Option-cases, Ensures, Ensures-elim_option, Ensures-returned, Ensures->>=,
}
use icloud_code_gateway.Batch.Rows.{JobStatus, Job, JobView, job_from_row}
use icloud_code_gateway.Batch.Tables.{
  Jobs, comes_before, is_queued, update_job, oldest_queued, claimed, next_batch_job,
}

abbrev pub IsOldest : ℕ → Jobs → Type 0
IsOldest time = All (λ k. is_queued k ≡ true → time ≤ k.created_at)

All-trans : (jobs : Jobs) (a b : ℕ) → a ≤ b → IsOldest b jobs → IsOldest a jobs
All-trans [] a b h o = tt
All-trans (k ∷ ks) a b h o = (λ q. ground (arith, o.0 q), All-trans ks a b h o.1)

oldest_queued-none : (jobs : Jobs) → oldest_queued jobs ≡ none → any is_queued jobs ≡ false
unfolding oldest_queued
oldest_queued-none [] e = refl
oldest_queued-none (k ∷ ks) e = ground (arith, oldest_queued-none ks)

IsOldest-of_none : (jobs : Jobs) (time : ℕ) → any is_queued jobs ≡ false → IsOldest time jobs
IsOldest-of_none [] time h = tt
IsOldest-of_none (k ∷ ks) time h = (λ q. ground arith, IsOldest-of_none ks time (ground arith))

abbrev pub IsAmong : Job → Jobs → Type 0
IsAmong j [] = ⊥
IsAmong j (k ∷ ks) = (j ≡ k) ⊎ IsAmong j ks

first_or_rest :
    (j k l : Job) (ks : Jobs)
    → oldest_queued ks ≡ some l
    → oldest_queued (k ∷ ks) ≡ some j
    → (j ≡ k) ⊎ (j ≡ l)
unfolding oldest_queued
first_or_rest j k l ks r e = elim (Bool-cases (is_queued k)) [
  | inr idle ↦ inr (ground arith)
  | inl queued ↦ elim (Bool-cases (comes_before k l)) [
    | inl before ↦ inl (ground arith)
    | inr later ↦ inr (ground arith)
  ]
]

either : (j k l : Job) (ks : Jobs) → (j ≡ k) ⊎ (j ≡ l) → IsAmong l ks → IsAmong j (k ∷ ks)
either j k l ks (inl same) among = inl same
either j k l ks (inr same) among = inr (subst (λ x. IsAmong x ks) (sym same) among)

-- The first of the queue is a queued job of the table, and no queued job is older.
oldest_queued_lem :
    (jobs : Jobs) (j : Job)
    → oldest_queued jobs ≡ some j
    → (is_queued j ≡ true) × IsOldest j.created_at jobs × IsAmong j jobs
unfolding oldest_queued
oldest_queued_lem [] j e = cc
oldest_queued_lem (k ∷ ks) j e = elim (Option-cases (oldest_queued ks)) [
  | inl r ↦ (
    ground arith,
    (λ q. ground arith, IsOldest-of_none ks j.created_at (oldest_queued-none ks r)),
    inl (ground arith),
  )
  | inr (l, r) ↦
      let ih = oldest_queued_lem ks l r in
      (
        ground (arith, ih.0),
        (λ q. ground (arith, ih.0), All-trans ks j.created_at l.created_at (ground arith) ih.1),
        either j k l ks (first_or_rest j k l ks r e) ih.2,
      )
]

job_from_row-fields :
    (j : Job) (view : JobView)
    → job_from_row j ≡ returned view
    → (view.id ≡ j.id)
      × (view.status ≡ j.status)
      × (view.error ≡ j.error)
      × (view.created_at ≡ j.created_at)
unfolding job_from_row
job_from_row-fields j view e = ground arith

-- The view is that of a queued job of the table, marked as running.
abbrev pub WasQueued : ℕ → JobView → Jobs → Type 0
WasQueued now view jobs =
    (j : Job) × IsAmong j jobs
    × (is_queued j ≡ true)
    × (job_from_row (claimed now j) ≡ returned view)

-- What a claim returns, for each of its two results.
abbrev Claimed : ℕ → Jobs → Option JobView → Jobs → Type 0
Claimed now jobs none after = (any is_queued jobs ≡ false) × (after ≡ jobs)
Claimed now jobs (some view) after =
    (view.status ≡ JobStatus.running)
    × (view.error ≡ none)
    × IsOldest view.created_at jobs
    × (after ≡ update_job view.id (claimed now) jobs)
    × WasQueued now view jobs

claim_lem :
    (now : ℕ) (jobs : Jobs) → Ensures (λ r. Claimed now jobs r.0 r.1) (next_batch_job now jobs)
unfolding next_batch_job
claim_lem now jobs =
    Ensures-elim_option (λ r. Claimed now jobs r.0 r.1) (oldest_queued jobs) _ _
      (λ e. (oldest_queued-none jobs e, refl))
      λ j e.
        Ensures->>= (λ r. Claimed now jobs r.0 r.1) (job_from_row (claimed now j)) _
          λ view v.
            let fields = job_from_row-fields (claimed now j) view v in
            let oldest = oldest_queued_lem jobs j e in
            (fields.1, fields.2, rw fields.3 oldest.1, rw fields.0 refl, (j, oldest.2, oldest.0, v))

-- A claim takes a job of the table that was queued, marks it running and clears its error, and no queued
-- job was created before it; the table changes only in the rows with its id.
pub next_batch_job-IsOldest :
    (now : ℕ) (jobs after : Jobs) (view : JobView)
    → next_batch_job now jobs ≡ returned (some view, after)
    → (view.status ≡ JobStatus.running)
      × (view.error ≡ none)
      × IsOldest view.created_at jobs
      × (after ≡ update_job view.id (claimed now) jobs)
      × WasQueued now view jobs
next_batch_job-IsOldest now jobs after view e =
    Ensures-returned (λ r. Claimed now jobs r.0 r.1) (next_batch_job now jobs) (some view, after)
      (claim_lem now jobs) e

-- A claim that finds nothing leaves the table as it was, and then nothing is queued.
next_batch_job-none :
    (now : ℕ) (jobs after : Jobs)
    → next_batch_job now jobs ≡ returned (none, after)
    → (any is_queued jobs ≡ false) × (after ≡ jobs)
next_batch_job-none now jobs after e =
    Ensures-returned (λ r. Claimed now jobs r.0 r.1) (next_batch_job now jobs) (none, after)
      (claim_lem now jobs) e
