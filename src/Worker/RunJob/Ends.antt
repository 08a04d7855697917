-- ===== src/Worker/RunJob/Ends.antt =====
-- How `_run_job` leaves the job and the item that it stopped at.
use icloud_code_gateway.Base.{
  find, ℕ, zero, suc, String, ◌≡◌, refl, Option, none, some, returned, raised,
}
use mathlib.Core.Path.{subst}
use icloud_code_gateway.Worker.Finish.{final_status, finish_job, counters}
use icloud_code_gateway.Worker.RunJob.{go_on_with, item_at, is_queued_item}
use icloud_code_gateway.Errors.{Result}
use icloud_code_gateway.Batch.Rows.{Job, ItemView, JobView}
use icloud_code_gateway.Batch.Tables.{has_id, Jobs, get_batch_job}
use icloud_code_gateway.Worker.Payloads.{Settings}
use icloud_code_gateway.Worker.Environment.{Environment, State}
use icloud_code_gateway.Worker.Environment.Actions.{Worker, read_job}
use icloud_code_gateway.Worker.Bulk.{Gateway}
use icloud_code_gateway.Worker.RunJob.{
  is_queued_item, clear_wait, run_item, visit_or_finish, finish_job, run_job, run_or_retry, turn,
  run_queued, run_loop, RunEnd, Turn, ends, goes_on,
}
use icloud_code_gateway.Worker.RunJob.Marked.{set_status-IsMarked}
use icloud_code_gateway.Worker.Triples.{
  Triple->>=, Upon, Triple, Anything, Triple-free, Triple-last, Triple-first, Triple-if,
  Triple-pure,
}
use icloud_code_gateway.Worker.RunJob.Left.{
  final_of, Ended, TurnEnded, ItemLeft, Ends, run_kind-ItemLeft,
}
use icloud_code_gateway.Worker.RunJob.Pauses.{
  requeue-Ends, reread-Ends, wait_out-Ends, after_item-Ends,
}

module _ {W : Type 0} (env : Environment W) (settings : Settings) (gateway : Gateway W)
    (wait_fuel : ℕ) (job_id : String) where
  run_or_retry-Ends :
      (job : JobView) (it : ItemView) (index : ℕ)
      → Ends job_id (run_or_retry env settings gateway wait_fuel job_id job it index)
  unfolding run_or_retry run_item clear_wait
  run_or_retry-Ends job it index = Triple-last Anything Triple-free λ retrying.
      Triple-if Anything retrying (wait_out-Ends env settings gateway wait_fuel job_id _ it _ index)
        (Triple-if Anything _
          (Triple-last Anything Triple-free λ _.
            Triple-last Anything Triple-free
              λ _. reread-Ends env settings gateway wait_fuel job_id index)
          (Triple->>= Anything (ItemLeft job_id)
            (run_kind-ItemLeft env settings gateway wait_fuel job_id job.kind it.input job.action
              it)
            (after_item-Ends env settings gateway wait_fuel job_id it index)))

  run_queued-Ends :
      (fresh : JobView × ItemView) (index : ℕ)
      → Ends job_id (run_queued env settings gateway wait_fuel job_id fresh index)
  unfolding run_queued clear_wait
  run_queued-Ends (job, it) index = Triple-last Anything Triple-free λ cooling.
      Triple-if Anything cooling (wait_out-Ends env settings gateway wait_fuel job_id _ it _ index)
        (Triple-if Anything _
          (Triple-last Anything Triple-free λ _.
            Triple-last Anything Triple-free
              λ _. reread-Ends env settings gateway wait_fuel job_id index)
          (run_or_retry-Ends job it index))

  by_counters :
      (view : JobView) (jobs : Jobs) (j : Job)
      → get_batch_job job_id jobs ≡ returned view
      → find (has_id job_id) jobs ≡ some j
      → final_status view ≡ final_of j.succeeded j.requested
  unfolding final_status get_batch_job
  by_counters view jobs j known found =
      let same = counters j view (rw (found, get_batch_job) at known) in rw (same.0, same.1) refl

  read_known :
      Triple {S = State W} Anything Anything
        (read_job job_id)
        (λ view s. get_batch_job job_id s.jobs ≡ returned view)
  unfolding read_job
  read_known = record { run = λ s i p. (tt, by_result s (get_batch_job job_id s.jobs) refl) }
    where
      by_result :
          (s : State W) (r : Result JobView)
          → get_batch_job job_id s.jobs ≡ r
          → Upon (λ view s. get_batch_job job_id s.jobs ≡ returned view) r s
      by_result s (returned view) e = e
      by_result s (raised x) e = tt

  finish-Ends :
      Triple Anything Anything (finish_job env job_id) (λ _ s. Ended job_id RunEnd.finished s.jobs)
  unfolding finish_job
  finish-Ends =
      Triple->>= Anything (λ view s. get_batch_job job_id s.jobs ≡ returned view) read_known
        λ view.
          set_status-IsMarked job_id _ env (λ jobs. get_batch_job job_id jobs ≡ returned view)
            (final_status view) none
            (λ now jobs j known found. (by_counters view jobs j known found, refl))

  turn-Ends :
      (job : JobView) (index : ℕ)
      → Ends job_id (turn env settings gateway wait_fuel job_id job index)
  unfolding turn
  turn-Ends job index = by_item (item_at index job.items)
    where
      by_item :
          (it : Option ItemView)
          → Ends job_id (visit_or_finish env settings gateway wait_fuel job_id job index it)
      by_item none =
          Triple-first Anything (λ s. Ended job_id RunEnd.finished s.jobs) finish-Ends
            λ _. Triple-pure Anything (λ s p. p)
      by_item (some it) = Triple-last Anything Triple-free λ stop.
          Triple-if Anything stop (requeue-Ends env settings gateway wait_fuel job_id) (
            Triple-if Anything (is_queued_item it)
              (Triple-last Anything Triple-free λ fresh. run_queued-Ends fresh index)
              (Triple-pure Anything (λ s p. tt)))

  weaken_end :
      {P : State W → Type 0} {m : Worker W RunEnd}
      → Triple Anything Anything m (λ e s. Ended job_id e s.jobs)
      → Triple Anything P m (λ e s. Ended job_id e s.jobs)
  weaken_end h = record { run = λ s i p. h.run s i tt }

  run_loop-Ends :
      (fuel : ℕ) (job : JobView) (index : ℕ)
      → Triple Anything Anything
          (run_loop env settings gateway wait_fuel job_id fuel job index)
          (λ e s. Ended job_id e s.jobs)
  unfolding run_loop
  run_loop-Ends zero job index = Triple-pure Anything (λ s p. tt)
  run_loop-Ends (suc fuel) job index =
      Triple->>= Anything (TurnEnded job_id) (turn-Ends job index) (by_turn (run_loop-Ends fuel))
    where
      by_turn :
          ((next : JobView) (i : ℕ)
            → Triple Anything Anything
                (run_loop env settings gateway wait_fuel job_id fuel next i)
                (λ e s. Ended job_id e s.jobs))
          → (t : Turn)
          → Triple {S = State W} Anything
              (TurnEnded job_id t)
              (go_on_with env settings gateway wait_fuel job_id
                (λ next i. run_loop env settings gateway wait_fuel job_id fuel next i)
                t)
              (λ e s. Ended job_id e s.jobs)
      by_turn rest (ends e) = Triple-pure Anything (λ s p. p)
      by_turn rest (goes_on next i) = weaken_end (rest next i)

  -- When `_run_job` returns, the table says how it has ended, whatever Apple, the clock and the gateway
  -- answered. At the end of its items the job has the status of its counters. If the worker was stopped,
  -- the job is back in the queue, or an item waits there with the reason that its pause has stored. If the
  -- outcome of a write at Apple is unknown, or Apple's capacity is full, the job needs to be reconciled,
  -- with that error, and an item is stored as unknown, or as waiting for capacity. Nothing is said of a
  -- run whose fuel is used up.
  pub run_job-Ended :
      (fuel : ℕ) (job : JobView) (e : RunEnd) (s after : State W)
      → run_job env settings gateway wait_fuel job_id fuel job s ≡ (returned e, after)
      → Ended job_id e after.jobs
  unfolding run_job
  run_job-Ended fuel job e s after h =
      let all_ends : Triple {S = State W} Anything Anything
          (run_job env settings gateway wait_fuel job_id fuel job) (λ e s. Ended job_id e s.jobs) =
        Triple-last Anything Triple-free λ _. run_loop-Ends fuel job 0 in
      subst (λ x. Upon (λ e s. Ended job_id e s.jobs) x.0 x.1) h (all_ends.run s tt tt).1
