-- ===== src/Worker/Create/Calls.antt =====
-- What the calls and the table operations of the worker leave as it is, and what they store.
use icloud_code_gateway.Base.{◌/◌, ℕ, String, ◌≡◌, refl, Bool, true, Option, returned, raised}
use icloud_code_gateway.Errors.{Result}
use icloud_code_gateway.Batch.Rows.{JobStatus, JobError, Item}
use icloud_code_gateway.Batch.Tables.{
  Jobs, ItemChange, change_item, update_batch_item, set_batch_job_status,
}
use icloud_code_gateway.Batch.Tables.Stored.{
  IsStored, update_batch_item-IsStored, set_batch_job_status-IsStored,
}
use icloud_code_gateway.Aliases.Table.{Aliases}
use icloud_code_gateway.Worker.Environment.{State, Environment, AuditOutcome}
use icloud_code_gateway.Worker.Environment.Actions.{
  call, ask, tell, put_jobs, put_aliases, on_jobs, on_aliases, update_item, set_status,
  record_audit,
}
use icloud_code_gateway.Worker.Triples.{Upon, Triple, Anything}

module _ {W A : Type 0} (Q : Jobs → Type 0) where
  pub call-Triple :
      (f : W → Result A × W)
      → Triple {S = State W} Anything (λ s. Q s.jobs) (call f) (λ _ s. Q s.jobs)
  unfolding call
  call-Triple f = record {
    run = λ s i q. (tt, by_result (record s { world = (f s.world).1 }) q (f s.world).0);
  }
    where
      by_result : (t : State W) → Q t.jobs → (r : Result A) → Upon (λ _ t. Q t.jobs) r t
      by_result t q (returned a) = q
      by_result t q (raised e) = tt

  pub ask-Triple :
      (f : W → A × W) → Triple {S = State W} Anything (λ s. Q s.jobs) (ask f) (λ _ s. Q s.jobs)
  unfolding ask
  ask-Triple f = record { run = λ s i q. (tt, q) }

  pub on_aliases-Triple :
      (env : Environment W) (f : ℕ → Aliases → Result (A × Aliases))
      → Triple {S = State W} Anything (λ s. Q s.jobs) (on_aliases env f) (λ _ s. Q s.jobs)
  unfolding on_aliases
  on_aliases-Triple env f = record {
    run = λ s i q. (
      tt,
      by_result (record s { world = (env.now s.world).1 }) q
          (f ((env.now s.world).0 / 1000) s.aliases),
    );
  }
    where
      by_result :
          (t : State W)
          → Q t.jobs
          → (r : Result (A × Aliases))
          → Upon (λ _ t. Q t.jobs) (put_aliases t r).0 (put_aliases t r).1
      by_result t q (returned (a, rows)) = q
      by_result t q (raised e) = tt

module _ {W : Type 0} (Q : Jobs → Type 0) where
  pub tell-Triple :
      (f : W → W) → Triple {S = State W} Anything (λ s. Q s.jobs) (tell f) (λ _ s. Q s.jobs)
  unfolding tell
  tell-Triple f = record { run = λ s i q. (tt, q) }

  pub record_audit-Triple :
      (o : AuditOutcome) (alias_id : Option String)
      → Triple {S = State W} Anything (λ s. Q s.jobs) (record_audit o alias_id) (λ _ s. Q s.jobs)
  unfolding record_audit
  record_audit-Triple o alias_id = record { run = λ s i q. (tt, q) }

module _ {W : Type 0} (env : Environment W) (job_id : String) (index : ℕ) (p : Item → Bool) where
  abbrev pub Stores : State W → Type 0
  Stores s = IsStored job_id index p s.jobs

  pub update_item-Triple :
      (c : ItemChange)
      → ((now : ℕ) (it : Item) → p (change_item c now it) ≡ true)
      → Triple Anything Anything (update_item env job_id index c) (λ _. Stores)
  unfolding update_item on_jobs
  update_item-Triple c h = record {
    run = λ s i q.
        let (now, w) = env.now s.world in
        (
          tt,
          by_result (now / 1000) s.jobs (record s { world = w })
              (update_batch_item job_id index c (now / 1000) s.jobs) refl,
        );
  }
    where
      by_result :
          (now : ℕ) (jobs : Jobs) (t : State W) (r : Result Jobs)
          → update_batch_item job_id index c now jobs ≡ r
          → Upon (λ _. Stores) (put_jobs t r).0 (put_jobs t r).1
      by_result now jobs t (returned after) e =
          update_batch_item-IsStored job_id index p c now jobs after (h now) e
      by_result now jobs t (raised x) e = tt

  pub set_status-Triple :
      (status : JobStatus) (error : Option JobError)
      → Triple Anything Stores (set_status env job_id status error) (λ _. Stores)
  unfolding set_status on_jobs
  set_status-Triple status error = record {
    run = λ s i q.
        let (now, w) = env.now s.world in
        (
          tt,
          by_result (now / 1000) s.jobs (record s { world = w }) q
              (set_batch_job_status job_id status error (now / 1000) s.jobs) refl,
        );
  }
    where
      by_result :
          (now : ℕ) (jobs : Jobs) (t : State W)
          → IsStored job_id index p jobs
          → (r : Result Jobs) → set_batch_job_status job_id status error now jobs ≡ r
          → Upon (λ _. Stores) (put_jobs t r).0 (put_jobs t r).1
      by_result now jobs t q (returned after) e =
          set_batch_job_status-IsStored job_id index p job_id status error now jobs after e q
      by_result now jobs t q (raised x) e = tt
