-- ===== src/Worker/RunJob/Pauses.antt =====
-- How the parts of a turn of `_run_job` end that wait, requeue or stop the job.
use icloud_code_gateway.Base.{
  ℕ, zero, suc, ◌+◌, String, refl, inl, inr, Option, none, some, returned, raised,
}
use icloud_code_gateway.Errors.{Result}
use icloud_code_gateway.Batch.Rows.{JobStatus, JobError, ItemView, JobView}
use icloud_code_gateway.Batch.Tables.{Jobs, get_batch_job}
use icloud_code_gateway.Batch.Tables.Stored.{IsStored}
use icloud_code_gateway.Worker.Payloads.{Settings}
use icloud_code_gateway.Worker.Environment.{Environment, State}
use icloud_code_gateway.Worker.Environment.Actions.{Worker, read_job, set_status}
use icloud_code_gateway.Worker.Frame.{RunOutcome}
use icloud_code_gateway.Worker.Create.Left.{is_left}
use icloud_code_gateway.Worker.Create.Calls.{ask-Triple, set_status-Triple}
use icloud_code_gateway.Worker.Bulk.{Gateway}
use icloud_code_gateway.Worker.Resume.{Waited, wait_for_resume}
use icloud_code_gateway.Worker.RunJob.{
  RunEnd, Turn, requeue, reread, resume_running, after_wait, wait_then, wait_out, retry_later,
  next_item, after_item,
}
use icloud_code_gateway.Worker.RunJob.Marked.{IsMarked, set_status-IsMarked}
use icloud_code_gateway.Worker.Triples.{
  Upon, Triple, Anything, Triple-free, Triple-last, Triple-first, Triple-if, Triple-and,
  Triple-pure,
}
use icloud_code_gateway.Worker.RunJob.Left.{Ends, Says, HasLeft, Ended, TurnEnded, ItemLeft}

module _ {W : Type 0} (env : Environment W) (settings : Settings) (gateway : Gateway W)
    (wait_fuel : ℕ) (job_id : String) where
  pub requeue-Ends : Ends job_id (requeue env settings gateway wait_fuel job_id)
  requeue-Ends =
      Triple-first Anything (λ s. Ended job_id RunEnd.requeued s.jobs)
        (set_status-IsMarked job_id _ env (λ jobs. Unit) JobStatus.queued none
          (λ now jobs j known e. (refl, refl)))
        λ _. Triple-pure Anything (λ s p. p)

  pub reread-Ends : (index : ℕ) → Ends job_id (reread env settings gateway wait_fuel job_id index)
  reread-Ends index = Triple-last Anything Triple-free λ job. Triple-pure Anything (λ s p. tt)

  pub resume_running-Ends :
      (index : ℕ) → Ends job_id (resume_running env settings gateway wait_fuel job_id index)
  resume_running-Ends index = Triple-last Anything Triple-free λ _. reread-Ends index

  pub weaken :
      {P : State W → Type 0} {m : Worker W Turn}
      → Ends job_id m
      → Triple Anything P m (TurnEnded job_id)
  weaken h = record { run = λ s i p. h.run s i tt }

  pub wait-keeps :
      (Q : Jobs → Type 0) (fuel : ℕ) (resume_at : Option ℕ)
      → Triple Anything (λ s. Q s.jobs) (wait_for_resume env fuel resume_at) (λ _ s. Q s.jobs)
  unfolding wait_for_resume
  wait-keeps Q zero resume_at = Triple-pure Anything (λ s q. q)
  wait-keeps Q (suc fuel) resume_at =
      Triple-first Anything (λ s. Q s.jobs) (ask-Triple Q _)
        λ stop. Triple-if Anything stop (Triple-pure Anything (λ s q. q)) (
          Triple-first Anything (λ s. Q s.jobs) (ask-Triple Q _)
            λ now. Triple-if Anything _ (Triple-pure Anything (λ s q. q)) (
              Triple-first Anything (λ s. Q s.jobs) (ask-Triple Q _)
                λ woken.
                  Triple-if Anything woken (Triple-pure Anything (λ s q. q))
                    (wait-keeps Q fuel resume_at)))

  pub wait_then-Ends :
      (Q : Jobs → Type 0) (resume_at : Option ℕ) {stopped go_on : Worker W Turn}
      → Triple Anything (λ s. Q s.jobs) stopped (TurnEnded job_id)
      → Ends job_id go_on
      → Triple Anything
          (λ s. Q s.jobs)
          (wait_then env settings gateway wait_fuel job_id resume_at stopped go_on)
          (TurnEnded job_id)
  unfolding wait_then
  wait_then-Ends Q resume_at {stopped} {go_on} hs hg =
      Triple-first Anything (λ s. Q s.jobs) (wait-keeps Q wait_fuel resume_at) by_wait
    where
      by_wait :
          (w : Waited)
          → Triple Anything
              (λ s. Q s.jobs)
              (after_wait env settings gateway wait_fuel job_id stopped go_on w)
              (TurnEnded job_id)
      by_wait Waited.interrupted = hs
      by_wait Waited.out_of_fuel = Triple-pure Anything (λ s p. tt)
      by_wait Waited.resumed =
          weaken (Triple-last Anything Triple-free λ stop. Triple-if Anything stop requeue-Ends hg)

  pub read_job-keeps :
      (Q : Jobs → Type 0)
      → Triple {S = State W} Anything (λ s. Q s.jobs) (read_job job_id) (λ _ s. Q s.jobs)
  unfolding read_job
  read_job-keeps Q = record { run = λ s i q. (tt, by_result (get_batch_job job_id s.jobs) s q) }
    where
      by_result : (r : Result JobView) (s : State W) → Q s.jobs → Upon (λ _ s. Q s.jobs) r s
      by_result (returned job) s q = q
      by_result (raised e) s q = tt

  pub wait_out-Ends :
      (error : JobError) (it : ItemView) (clear : ItemView → Worker W ItemView) (index : ℕ)
      → Ends job_id (wait_out env settings gateway wait_fuel job_id error it clear index)
  unfolding wait_out
  wait_out-Ends error it clear index = Triple-last Anything Triple-free λ _.
      wait_then-Ends (λ jobs. Unit) _ requeue-Ends
        (Triple-last Anything Triple-free
          λ _. Triple-last Anything Triple-free λ _. reread-Ends index)

  pub retry_later-Ends :
      (it : ItemView) (index : ℕ)
      → Triple Anything
          (λ s. Ended job_id RunEnd.interrupted s.jobs)
          (retry_later env settings gateway wait_fuel job_id it index)
          (TurnEnded job_id)
  unfolding retry_later
  retry_later-Ends it index =
      Triple-first Anything (λ s. Ended job_id RunEnd.interrupted s.jobs) (read_job-keeps _)
        λ refreshed.
          wait_then-Ends (Ended job_id RunEnd.interrupted) _ (Triple-pure Anything (λ s p. p)) (
            Triple-if Anything _
              (Triple-last Anything Triple-free
                λ woken. Triple-if Anything woken requeue-Ends (resume_running-Ends index))
              (resume_running-Ends index))

  pub next_item-Ends :
      (index : ℕ) → Ends job_id (next_item env settings gateway wait_fuel job_id index)
  unfolding next_item
  next_item-Ends index = Triple-last Anything Triple-free λ stop.
      Triple-if Anything stop requeue-Ends (
        Triple-last Anything Triple-free
          λ woken. Triple-if Anything woken requeue-Ends (reread-Ends (index + 1)))

  pub stop-Ends :
      (error : JobError) (o : RunOutcome)
      → Triple Anything
          (λ s. HasLeft job_id o s.jobs)
          (set_status env job_id JobStatus.needs_reconcile (some error))
          (λ _ s.
            IsMarked job_id (Says JobStatus.needs_reconcile (some error)) s.jobs
            × HasLeft job_id o s.jobs)
  stop-Ends error o =
      Triple-and Anything
        (set_status-IsMarked job_id _ env (HasLeft job_id o) JobStatus.needs_reconcile (some error)
          (λ now jobs j known e. (refl, refl)))
        (record {
          run = λ s i (index, stored).
              let kept =
                (set_status-Triple env job_id index (is_left o) JobStatus.needs_reconcile
                    (some error)).run
                  s tt stored in
              (
                tt,
                pack index (set_status env job_id JobStatus.needs_reconcile (some error) s).0 _
                    kept.1,
              );
        })
    where
      pack :
          (index : ℕ) (r : Result (Unit {0})) (s : State W)
          → Upon (λ _ s. IsStored job_id index (is_left o) s.jobs) r s
          → Upon (λ _ s. HasLeft job_id o s.jobs) r s
      pack index (returned _) s q = (index, q)
      pack index (raised e) s q = tt

  pub after_item-Ends :
      (it : ItemView) (index : ℕ) (o : RunOutcome)
      → Triple Anything
          (ItemLeft job_id o)
          (after_item env settings gateway wait_fuel job_id it index o)
          (TurnEnded job_id)
  unfolding after_item
  after_item-Ends it index RunOutcome.capacity =
      Triple-first Anything (λ s. Ended job_id RunEnd.capacity_full s.jobs)
        (stop-Ends JobError.capacity_full RunOutcome.capacity) λ _. Triple-pure Anything (λ s p. p)
  after_item-Ends it index RunOutcome.unknown =
      Triple-first Anything (λ s. Ended job_id RunEnd.outcome_unknown s.jobs)
        (stop-Ends JobError.outcome_unknown RunOutcome.unknown) λ _. Triple-pure Anything (λ s p. p)
  after_item-Ends it index RunOutcome.rate_limited = record {
    run = λ s i left. (retry_later-Ends it index).run s i (inl left);
  }
  after_item-Ends it index RunOutcome.retry = record {
    run = λ s i left. (retry_later-Ends it index).run s i (inr left);
  }
  after_item-Ends it index RunOutcome.ok = weaken (next_item-Ends index)
  after_item-Ends it index RunOutcome.failed = weaken (next_item-Ends index)
  after_item-Ends it index RunOutcome.stopped = weaken (next_item-Ends index)
