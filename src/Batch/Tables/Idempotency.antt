-- ===== src/Batch/Tables/Idempotency.antt =====
-- An idempotency key makes the creation of a job repeatable.
use icloud_code_gateway.Base.{
  ◌∙◌, ap, inr, eq_iff, raised, inl, Bool-cases, ◌≢◌, Ensures-returned, ℕ, String, ◌≡◌, refl, Bool,
  true, false, not, none, some, [], ◌∷◌, ◌++◌, find, any, returned, raise_if, arith, eq_refl,
  str_eq, Ensures, Ensures->>=, Ensures-elim_option, ◌>>=◌, ◌>>◌,
}
use icloud_code_gateway.Errors
use icloud_code_gateway.Errors.{Result, integrity_error, value_error}
use icloud_code_gateway.Batch.Rows.{
  JobKind, create_aliases, bulk_aliases, Job, JobView, job_from_row,
}
use icloud_code_gateway.Batch.Tables.{
  Jobs, has_id, has_key, same_kind, no_items, Request, new_job, insert_job, existing_job,
  hash_of_key, create_batch_job,
}

same_kind_refl : (k : JobKind) → same_kind k k ≡ true
same_kind_refl create_aliases = refl
same_kind_refl bulk_aliases = refl

has_key-new_job :
    (job_id : String) (now : ℕ) (h : String) (r : Request)
    → has_key r.kind h (new_job job_id now (some h) r) ≡ true
unfolding new_job
has_key-new_job job_id now h r = ground (arith, same_kind_refl r.kind, eq_refl h)

find-append_new :
    (p : Job → Bool) (jobs : Jobs) (j : Job)
    → find p jobs ≡ none
    → p j ≡ true
    → find p (jobs ++ j ∷ []) ≡ some j
find-append_new p [] j n h = rw h
find-append_new p (k ∷ ks) j n h = ground (arith, find-append_new p ks j)

module _ (digest : String → String) (h : String) (r : Request)
    (keyed : hash_of_key digest r.idempotency_key ≡ returned (some h)) where
  -- What the table knows of the key once a creation has returned.
  record Registered (view : JobView) (after : Jobs) : Type 0 where
    job : Job
    registered : find (has_key r.kind h) after ≡ some job
    same_payload : str_eq job.request_fingerprint r.fingerprint ≡ true
    same_view : job_from_row job ≡ returned view

  insert_job-Registered :
      (job_id : String) (now : ℕ) (jobs : Jobs)
      → existing_job r.kind (some h) jobs ≡ none
      → Ensures (λ v. Registered v.0 v.2) (insert_job job_id now (some h) r jobs)
  unfolding insert_job existing_job
  insert_job-Registered job_id now jobs e =
      Ensures->>= (λ v. Registered v.0 v.2) (raise_if (any (has_id job_id) jobs) integrity_error) _
        λ _ _.
          Ensures->>= (λ v. Registered v.0 v.2) (job_from_row (new_job job_id now (some h) r)) _
            λ view read. record {
              job = new_job job_id now (some h) r;
              registered =
                  find-append_new (has_key r.kind h) jobs (new_job job_id now (some h) r) e
                    (has_key-new_job job_id now h r);
              same_payload = unfold new_job in eq_refl r.fingerprint;
              same_view = read;
            }

  create_batch_job-Registered :
      (job_id : String) (now : ℕ) (jobs : Jobs)
      → Ensures (λ v. Registered v.0 v.2) (create_batch_job digest job_id now r jobs)
  unfolding create_batch_job
  create_batch_job-Registered job_id now jobs =
      Ensures->>= (λ v. Registered v.0 v.2) (raise_if (no_items r.items) value_error) _
        λ _ _. rw keyed (
          Ensures-elim_option (λ v. Registered v.0 v.2) (existing_job r.kind (some h) jobs) _ _
            (λ e. insert_job-Registered job_id now jobs e)
            (λ j e. found j e (str_eq j.request_fingerprint r.fingerprint) refl))
    where
      found :
          (j : Job)
          → existing_job r.kind (some h) jobs ≡ some j
          → (b : Bool) → str_eq j.request_fingerprint r.fingerprint ≡ b
          → Ensures {A = JobView × Bool × Jobs}
              (λ v. Registered v.0 v.2)
              (raise_if (not b) Errors.conflict
                >> (job_from_row j >>= λ view. returned (view, false, jobs)))
      found j e false s = tt
      found j e true s =
          Ensures->>= (λ v. Registered v.0 v.2) (job_from_row j) _
            λ view read. record { job = j; registered = e; same_payload = s; same_view = read }

  create-has_items :
      (job_id : String) (now : ℕ) (jobs : Jobs) (v : JobView × Bool × Jobs)
      → create_batch_job digest job_id now r jobs ≡ returned v
      → no_items r.items ≡ false
  unfolding create_batch_job
  create-has_items job_id now jobs v e = elim (Bool-cases (no_items r.items)) [
    | inl empty ↦ absurd (cc (rw empty at e))
    | inr full ↦ full
  ]

  -- A creation that is sent again with its key, at any time and with any fresh id, returns the job of
  -- the first one, says that it is not new, and leaves the table as it is.
  pub create_batch_job-again :
      (job_id again_id : String) (now later : ℕ) (jobs after : Jobs) (view : JobView)
      (is_new : Bool)
      → create_batch_job digest job_id now r jobs ≡ returned (view, is_new, after)
      → create_batch_job digest again_id later r after ≡ returned (view, false, after)
  unfolding create_batch_job
  create_batch_job-again job_id again_id now later jobs after view is_new e =
      let known =
        Ensures-returned (λ v. Registered v.0 v.2) (create_batch_job digest job_id now r jobs)
          (view, is_new, after) (create_batch_job-Registered job_id now jobs) e in
      ground (
        arith,
        create-has_items job_id now jobs (view, is_new, after) e,
        keyed,
        known.registered,
        known.same_payload,
        known.same_view,
      )

  -- The same key with another payload of the same kind is refused.
  pub create_batch_job-mismatch :
      (job_id other_id : String) (now later : ℕ) (jobs after : Jobs) (view : JobView)
      (is_new : Bool) (other : Request)
      → create_batch_job digest job_id now r jobs ≡ returned (view, is_new, after)
      → other.kind ≡ r.kind
      → hash_of_key digest other.idempotency_key ≡ returned (some h)
      → no_items other.items ≡ false
      → other.fingerprint ≢ r.fingerprint
      → create_batch_job digest other_id later other after ≡ raised Errors.conflict
  unfolding create_batch_job
  create_batch_job-mismatch job_id other_id now later jobs after view is_new other e k o f ne =
      let known =
        Ensures-returned (λ v. Registered v.0 v.2) (create_batch_job digest job_id now r jobs)
          (view, is_new, after) (create_batch_job-Registered job_id now jobs) e in
      ground (
        arith,
        ap (λ kind. find (has_key kind h) after) k ∙ known.registered,
        differs known.job known.same_payload,
      )
    where
      differs :
          (j : Job)
          → str_eq j.request_fingerprint r.fingerprint ≡ true
          → str_eq j.request_fingerprint other.fingerprint ≡ false
      differs j s = ground (
        arith,
        eq_iff j.request_fingerprint r.fingerprint,
        eq_iff j.request_fingerprint other.fingerprint,
      )
