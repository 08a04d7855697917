-- ===== src/Worker/RunJob/Left.antt =====
-- What the table holds after a run of an item, and where `_run_job` has returned.
use icloud_code_gateway.Base.{
  true, false, Bool, ℕ, String, ◌≡◌, refl, ◌⊎◌, Option, none, some, ◌==◌, if◌then◌else◌, returned,
  raised,
}
use icloud_code_gateway.Worker.Create.Results.{create_alias-IsStored}
use icloud_code_gateway.Worker.Bulk.Results.{bulk_alias-Settled, is_settled}
use icloud_code_gateway.Worker.RunJob.{unknown_if, run_kind}
use icloud_code_gateway.Errors.{Result}
use icloud_code_gateway.Batch.Rows.{
  create_aliases, bulk_aliases, create_input, bulk_input, bulk_input, create_input, Action,
  ItemInput, JobKind, JobStatus, JobError, Job, ItemView,
}
use icloud_code_gateway.Batch.Tables.{Jobs}
use icloud_code_gateway.Batch.Tables.Stored.{IsStored}
use icloud_code_gateway.Worker.Payloads.{Settings}
use icloud_code_gateway.Worker.Environment.{Environment, State}
use icloud_code_gateway.Worker.Environment.Actions.{Worker, pure}
use icloud_code_gateway.Worker.Frame.{RunOutcome}
use icloud_code_gateway.Worker.Create.Left.{is_left}
use icloud_code_gateway.Worker.Bulk.{Gateway}
use icloud_code_gateway.Worker.RunJob.{create_alias, Values, RunEnd, Turn, ends, goes_on}
use icloud_code_gateway.Worker.RunJob.Marked.{IsMarked}
use icloud_code_gateway.Worker.Triples.{
  Triple-raise, Triple->>=, Upon, Triple, Anything, Triple-pure,
}

abbrev pub Says : JobStatus → Option JobError → Job → Type 0
Says status error j = (j.status ≡ status) × (j.error ≡ error)

-- The status that a job has reached when its loop is over: by its counters.
abbrev pub final_of : (succeeded requested : ℕ) → JobStatus
final_of succeeded requested =
    if succeeded == requested
    then JobStatus.completed
    else if succeeded == 0
    then JobStatus.failed
    else JobStatus.partial

module _ (job_id : String) where
  -- Some item of the job is stored the way that an outcome says.
  abbrev pub HasLeft : RunOutcome → Jobs → Type 0
  HasLeft o jobs = (index : ℕ) × IsStored job_id index (is_left o) jobs

  -- What the table holds where the method has returned.
  abbrev pub Ended : RunEnd → Jobs → Type 0
  Ended RunEnd.finished jobs =
      IsMarked job_id (λ j. Says (final_of j.succeeded j.requested) none j) jobs
  Ended RunEnd.requeued jobs = IsMarked job_id (Says JobStatus.queued none) jobs
  Ended RunEnd.interrupted jobs =
      HasLeft RunOutcome.rate_limited jobs ⊎ HasLeft RunOutcome.retry jobs
  Ended RunEnd.capacity_full jobs =
      IsMarked job_id (Says JobStatus.needs_reconcile (some JobError.capacity_full)) jobs
      × HasLeft RunOutcome.capacity jobs
  Ended RunEnd.outcome_unknown jobs =
      IsMarked job_id (Says JobStatus.needs_reconcile (some JobError.outcome_unknown)) jobs
      × HasLeft RunOutcome.unknown jobs
  Ended RunEnd.out_of_fuel jobs = Unit

  abbrev pub TurnEnded : {W : Type 0} → Turn → State W → Type 0
  TurnEnded (ends e) s = Ended e s.jobs
  TurnEnded (goes_on job index) s = Unit

  -- A part of a turn that ends so, if it returns from the method.
  abbrev pub Ends : {W : Type 0} → Worker W Turn → Type 0
  Ends m = Triple Anything Anything m TurnEnded

  -- What a run of an item has stored, by its outcome.
  abbrev pub ItemLeft : {W : Type 0} → RunOutcome → State W → Type 0
  ItemLeft RunOutcome.ok s = Unit
  ItemLeft RunOutcome.failed s = Unit
  ItemLeft RunOutcome.stopped s = Unit
  ItemLeft RunOutcome.unknown s = HasLeft RunOutcome.unknown s.jobs
  ItemLeft RunOutcome.capacity s = HasLeft RunOutcome.capacity s.jobs
  ItemLeft RunOutcome.rate_limited s = HasLeft RunOutcome.rate_limited s.jobs
  ItemLeft RunOutcome.retry s = HasLeft RunOutcome.retry s.jobs

module _ {W : Type 0} (env : Environment W) (settings : Settings) (gateway : Gateway W)
    (wait_fuel : ℕ) (job_id : String) where
  pub create_alias-ItemLeft :
      (values : Values) (it : ItemView)
      → Triple Anything Anything (create_alias env settings job_id values it) (ItemLeft job_id)
  create_alias-ItemLeft values it = record {
    run = λ s i p.
        let run = create_alias env settings job_id values it s in
        (tt, by_result s run.0 run.1 refl);
  }
    where
      by_result :
          (s : State W) (r : Result RunOutcome) (after : State W)
          → create_alias env settings job_id values it s ≡ (r, after)
          → Upon (ItemLeft job_id) r after
      by_result s (raised e) after h = tt
      by_result s (returned RunOutcome.ok) after h = tt
      by_result s (returned RunOutcome.failed) after h = tt
      by_result s (returned RunOutcome.stopped) after h = tt
      by_result s (returned RunOutcome.unknown) after h = (
        it.index,
        create_alias-IsStored env settings job_id values it s after _ h (λ e. absurd (cc e)),
      )
      by_result s (returned RunOutcome.capacity) after h = (
        it.index,
        create_alias-IsStored env settings job_id values it s after _ h (λ e. absurd (cc e)),
      )
      by_result s (returned RunOutcome.rate_limited) after h = (
        it.index,
        create_alias-IsStored env settings job_id values it s after _ h (λ e. absurd (cc e)),
      )
      by_result s (returned RunOutcome.retry) after h = (
        it.index,
        create_alias-IsStored env settings job_id values it s after _ h (λ e. absurd (cc e)),
      )

  pub lost-ItemLeft :
      (index : ℕ) (is_lost : Bool)
      → Triple {S = State W} Anything
          (λ s. IsStored job_id index (is_settled is_lost) s.jobs)
          (pure (unknown_if env settings gateway wait_fuel job_id is_lost))
          (ItemLeft job_id)
  unfolding is_left
  lost-ItemLeft index true = Triple-pure Anything (λ s p. (index, p))
  lost-ItemLeft index false = Triple-pure Anything (λ s p. tt)

  pub run_kind-ItemLeft :
      (kind : JobKind) (input : ItemInput) (action : Action) (it : ItemView)
      → Triple Anything Anything
          (run_kind env settings gateway wait_fuel job_id kind input action it)
          (ItemLeft job_id)
  run_kind-ItemLeft create_aliases (create_input label note sender_filter) action it =
      create_alias-ItemLeft _ it
  run_kind-ItemLeft bulk_aliases (bulk_input alias_id confirmed) action it =
      Triple->>= Anything (λ is_lost s. IsStored job_id it.index (is_settled is_lost) s.jobs)
        (bulk_alias-Settled env gateway job_id it.index action alias_id confirmed)
        (lost-ItemLeft it.index)
  run_kind-ItemLeft create_aliases (bulk_input _ _) action it = Triple-raise Anything
  run_kind-ItemLeft bulk_aliases (create_input _ _ _) action it = Triple-raise Anything
