-- ===== src/Worker/RunJob.antt =====
-- `_run_job` of jobs.py: a claimed job, item after item, until it has to stop or is done.
pub mod Marked
pub mod Shape
pub mod Bulk
pub mod Turns
pub mod Returns
pub mod Left
pub mod Pauses
pub mod Ends
mod Examples
use icloud_code_gateway.Base.{
  ℕ, zero, suc, ◌+◌, String, Bool, true, false, not, ◌&&◌, Option, none, some, List, [], ◌∷◌, find,
  ◌==◌, str_eq, or_else, if◌then◌else◌,
}
use icloud_code_gateway.Errors.{Exception}
use icloud_code_gateway.Batch.Rows.{
  ItemStatus, JobStatus, JobKind, create_aliases, bulk_aliases, rate_limited, transient_error,
  Payload, empty, create_input, bulk_input, ItemInput, Action, JobError, ItemView, JobView,
}
use icloud_code_gateway.Worker.Payloads.{
  Settings, is_waiting, item_is_cooling_down, item_is_retrying,
}
use icloud_code_gateway.Worker.Environment.{Environment}
use icloud_code_gateway.Worker.Environment.Actions.{
  Worker, ◌>>=◌, ◌>>◌, pure, raise, read_job, ask, set_status,
}
use icloud_code_gateway.Worker.Waits.{clear_rate_limit_wait, clear_transient_wait}
use icloud_code_gateway.Worker.Frame.{RunOutcome}
use icloud_code_gateway.Worker.Create.{Values}
use icloud_code_gateway.Worker.Create.Run.{create_alias}
use icloud_code_gateway.Worker.Bulk.{Gateway, bulk_alias}
use icloud_code_gateway.Worker.Resume.{Waited, wait_for_resume}
use icloud_code_gateway.Worker.Finish.{finish_job}

-- Where the method returns, and the end of the fuel, which the source does not have.
pub data RunEnd : Type 0 where
  finished requeued interrupted capacity_full outcome_unknown out_of_fuel : RunEnd

-- A turn of the loop has returned from the method, or goes on with a job and an index.
pub data Turn : Type 0 where
  ends : RunEnd → Turn
  goes_on : JobView → ℕ → Turn

abbrev pub item_at : ℕ → List ItemView → Option ItemView
item_at index [] = none
item_at zero (it ∷ its) = some it
item_at (suc index) (it ∷ its) = item_at index its

abbrev pub is_queued_item : ItemView → Bool
is_queued_item it = elim it.status [ ItemStatus.queued ↦ true | _ ↦ false ]

abbrev pub resume_at_of : Option Payload → Option ℕ
resume_at_of result = (or_else result empty).resume_at

-- `result.get("code") or "-41015"`
abbrev pub code_of : Option Payload → String
code_of result =
    let code = or_else (or_else result empty).code "" in if str_eq code "" then "-41015" else code

-- The result of the entry with the item's index, if there is one.
abbrev pub parked_result : ItemView → JobView → Option Payload
parked_result it job = elim (find (λ entry. entry.index == it.index) job.items) [
  | none ↦ none
  | some entry ↦ entry.result
]

module _ {W : Type 0} (env : Environment W) (settings : Settings) (gateway : Gateway W)
    (wait_fuel : ℕ) (job_id : String) where
  abbrev pub unknown_if : Bool → RunOutcome
  unknown_if is_lost = if is_lost then RunOutcome.unknown else RunOutcome.ok

  abbrev pub run_kind : JobKind → ItemInput → Action → ItemView → Worker W RunOutcome
  run_kind create_aliases (create_input label note sender_filter) action it =
      create_alias env settings job_id
        (record { label = label; note = note; sender_filter = sender_filter }) it
  run_kind bulk_aliases (bulk_input alias_id confirmed) action it =
      bulk_alias env gateway job_id it.index action alias_id confirmed >>= λ is_lost.
      pure (unknown_if is_lost)
  run_kind create_aliases (bulk_input _ _) action it = raise (Exception.other "KeyError")
  run_kind bulk_aliases (create_input _ _ _) action it = raise (Exception.other "KeyError")

  -- `_run_item`; an item's input is of the kind of its job.
  unfoldable pub run_item : JobView → ItemView → Worker W RunOutcome
  run_item job it = run_kind job.kind it.input job.action it

  abbrev pub requeue : Worker W Turn
  requeue = set_status env job_id JobStatus.queued none >> pure (ends RunEnd.requeued)

  abbrev pub reread : ℕ → Worker W Turn
  reread index = read_job job_id >>= λ job. pure (goes_on job index)

  abbrev pub resume_running : ℕ → Worker W Turn
  resume_running index = set_status env job_id JobStatus.running none >> reread index

  abbrev pub after_wait : (stopped go_on : Worker W Turn) → Waited → Worker W Turn
  after_wait stopped go_on Waited.interrupted = stopped
  after_wait stopped go_on Waited.out_of_fuel = pure (ends RunEnd.out_of_fuel)
  after_wait stopped go_on Waited.resumed =
      ask env.stopping >>= λ stop. if stop then requeue else go_on

  -- `if self._wait_for_resume(resume_at): …` and `if self._stopping(): …`
  unfoldable pub wait_then : Option ℕ → (stopped go_on : Worker W Turn) → Worker W Turn
  wait_then resume_at stopped go_on =
      wait_for_resume env wait_fuel resume_at >>= after_wait stopped go_on

  -- The job waits in the queue until the time that the item has stored.
  unfoldable pub wait_out : JobError → ItemView → (ItemView → Worker W ItemView) → ℕ → Worker W Turn
  wait_out error it clear index =
      set_status env job_id JobStatus.queued (some error)
      >> wait_then (resume_at_of it.result) requeue
          (set_status env job_id JobStatus.running none >> (clear it >> reread index))

  -- The time of the item is over, or it has none.
  unfoldable pub clear_wait : ItemView → (ItemView → Worker W ItemView) → ℕ → Worker W Turn
  clear_wait it clear index =
      set_status env job_id JobStatus.running none >> (clear it >> reread index)

  -- With the cooldown disabled, what an item keeps of one is dropped first.
  unfoldable pub drop_legacy : JobView → ItemView → Worker W (JobView × ItemView)
  drop_legacy job it =
      if settings.rate_limit_cooldown == 0 && is_waiting rate_limited it.result
      then (do
        cleared ← clear_rate_limit_wait env settings job_id it
        set_status env job_id JobStatus.running none
        fresh ← read_job job_id
        pure (fresh, cleared))
      else pure (job, it)

  -- Without a cooldown, retries are paced like items.
  abbrev pub pace : ℕ → ℕ → Worker W Turn
  pace retry_after index =
      if retry_after == 0 && not (settings.throttle == 0)
      then (ask (env.stop_wait settings.throttle) >>= λ woken.
          if woken then requeue else resume_running index)
      else resume_running index

  -- What follows a pause that `_create_alias` has stored.
  unfoldable pub retry_later : ItemView → ℕ → Worker W Turn
  retry_later it index = read_job job_id >>= λ refreshed.
      let parked = parked_result it refreshed in
      wait_then (resume_at_of parked) (pure (ends RunEnd.interrupted))
        (pace (or_else (or_else parked empty).retry_after_seconds 0) index)

  -- What follows an item that is done with.
  unfoldable pub next_item : ℕ → Worker W Turn
  next_item index = do
    stop ← ask env.stopping
    if stop then requeue else (do
      woken ← ask (env.stop_wait settings.throttle)
      if woken then requeue else reread (index + 1))

  unfoldable pub after_item : ItemView → ℕ → RunOutcome → Worker W Turn
  after_item it index RunOutcome.capacity =
      set_status env job_id JobStatus.needs_reconcile (some JobError.capacity_full)
      >> pure (ends RunEnd.capacity_full)
  after_item it index RunOutcome.unknown =
      set_status env job_id JobStatus.needs_reconcile (some JobError.outcome_unknown)
      >> pure (ends RunEnd.outcome_unknown)
  after_item it index RunOutcome.rate_limited = retry_later it index
  after_item it index RunOutcome.retry = retry_later it index
  after_item it index RunOutcome.ok = next_item index
  after_item it index RunOutcome.failed = next_item index
  after_item it index RunOutcome.stopped = next_item index

  -- The clock is read for an item that waits for its time.
  unfoldable pub is_cooling_down : ItemView → Worker W Bool
  is_cooling_down it =
      if is_waiting rate_limited it.result && not (settings.rate_limit_cooldown == 0)
      then (ask env.now >>= λ now. pure (item_is_cooling_down settings now it))
      else pure false

  unfoldable pub is_retrying : ItemView → Worker W Bool
  is_retrying it =
      if is_waiting transient_error it.result
      then (ask env.now >>= λ now. pure (item_is_retrying now it))
      else pure false

  unfoldable pub run_or_retry : JobView → ItemView → ℕ → Worker W Turn
  run_or_retry job it index = do
    retrying ← is_retrying it
    if retrying
        then wait_out (JobError.retrying_at (or_else (resume_at_of it.result) 0)) it
            (clear_transient_wait env settings job_id) index
        else if is_waiting transient_error it.result
        then clear_wait it (clear_transient_wait env settings job_id) index
        else (run_item job it >>= after_item it index)

  -- A queued item.
  unfoldable pub run_queued : JobView × ItemView → ℕ → Worker W Turn
  run_queued (job, it) index = do
    cooling ← is_cooling_down it
    if cooling
        then wait_out
            (JobError.cooling_down (code_of it.result) (or_else (resume_at_of it.result) 0)) it
            (clear_rate_limit_wait env settings job_id) index
        else if is_waiting rate_limited it.result
        then clear_wait it (clear_rate_limit_wait env settings job_id) index
        else run_or_retry job it index

  abbrev pub visit : JobView → ℕ → ItemView → Worker W Turn
  visit job index it = do
    stop ← ask env.stopping
    if stop
        then requeue
        else if is_queued_item it
        then (drop_legacy job it >>= λ fresh. run_queued fresh index)
        else pure (goes_on job (index + 1))

  abbrev pub visit_or_finish : JobView → ℕ → Option ItemView → Worker W Turn
  visit_or_finish job index none = finish_job env job_id >> pure (ends RunEnd.finished)
  visit_or_finish job index (some it) = visit job index it

  -- A turn of the loop.
  unfoldable pub turn : JobView → ℕ → Worker W Turn
  turn job index = visit_or_finish job index (item_at index job.items)

  abbrev pub go_on_with : (JobView → ℕ → Worker W RunEnd) → Turn → Worker W RunEnd
  go_on_with rest (ends e) = pure e
  go_on_with rest (goes_on job index) = rest job index

  unfoldable pub run_loop : ℕ → JobView → ℕ → Worker W RunEnd
  run_loop zero job index = pure RunEnd.out_of_fuel
  run_loop (suc fuel) job index = turn job index >>= go_on_with (λ next i. run_loop fuel next i)

  -- `_run_job`, with fuel for its turns.
  unfoldable pub run_job : ℕ → JobView → Worker W RunEnd
  run_job fuel job = set_status env job_id JobStatus.running none >> run_loop fuel job 0
