-- ===== src/Worker/RunJob/Turns.antt =====
-- A turn of `_run_job` for a bulk job none of whose items waits: it ends the loop, or moves to the next
-- item.
use icloud_code_gateway.Base.{
  ℕ, zero, suc, ◌+◌, ◌<◌, String, ◌≡◌, ◌≢◌, refl, sym, Bool, true, false, not, ◌&&◌, Option, none,
  some, List, [], ◌∷◌, all, length, arith, ◌==◌, if◌then◌else◌, returned, raised, Ensures,
}
use mathlib.Core.Path.{subst}
use icloud_code_gateway.Errors.{Result}
use icloud_code_gateway.Batch.Rows.{
  JobStatus, JobKind, create_aliases, bulk_aliases, create_input, bulk_input, WaitReason,
  rate_limited, transient_error, capacity_reached, JobError, Payload, ItemView, JobView, ItemInput,
  Action,
}
use icloud_code_gateway.Batch.Tables.{get_batch_job}
use icloud_code_gateway.Worker.Payloads.{Settings, is_waiting}
use icloud_code_gateway.Worker.Environment.{Environment, State}
use icloud_code_gateway.Worker.Environment.Actions.{Worker, read_job, ask, set_status}
use icloud_code_gateway.Worker.Frame.{RunOutcome}
use icloud_code_gateway.Worker.Bulk.{Gateway}
use icloud_code_gateway.Worker.Finish.{finish_job}
use icloud_code_gateway.Worker.RunJob.{
  visit, RunEnd, Turn, ends, goes_on, item_at, is_queued_item, unknown_if, run_kind, run_item,
  requeue, reread, drop_legacy, next_item, after_item, is_cooling_down, is_retrying, run_or_retry,
  run_queued, visit_or_finish, turn,
}
use icloud_code_gateway.Worker.RunJob.Shape.{
  split, waits, is_free_view, HasViewShape, Shaped, set_status-Shaped, job_from_row-HasViewShape,
}
use icloud_code_gateway.Worker.RunJob.Bulk.{LeavesJobs, bulk_alias-Keeps}
use icloud_code_gateway.Worker.Triples.{
  Upon, Triple, Anything, AnyResult, Triple->>=, Triple-last, Triple-if, Triple-pure, Triple-any,
  Triple-raise,
}

is_waiting-free :
    (reason : WaitReason) (result : Option Payload)
    → not (waits result) ≡ true
    → is_waiting reason result ≡ false
is_waiting-free reason none h = refl
is_waiting-free rate_limited (some p) h = ground arith
is_waiting-free transient_error (some p) h = ground arith
is_waiting-free capacity_reached (some p) h = ground arith

item_at-lem :
    (index : ℕ) (its : List ItemView) (it : ItemView)
    → item_at index its ≡ some it
    → all is_free_view its ≡ true
    → (index < length its) × (is_free_view it ≡ true)
item_at-lem index [] it e f = absurd (cc e)
item_at-lem zero (x ∷ xs) it e f =
    let same : x ≡ it = cc e in
    (omega arith, subst (λ v. is_free_view v ≡ true) same (split (is_free_view x) f).0)
item_at-lem (suc index) (x ∷ xs) it e f =
    let rest = item_at-lem index xs it e (split (is_free_view x) f).1 in
    let bound = rest.0 in (omega arith, rest.1)

Triple-else :
    {S A : Type 0} {J P : S → Type 0} {Q : A → S → Type 0} (b : Bool) (m : S → Result A × S)
    {k : S → Result A × S}
    → b ≡ false
    → Triple J P k Q
    → Triple J P (if b then m else k) Q
Triple-else true m e h = absurd (cc e)
Triple-else false m e h = h

Triple-given :
    {S A : Type 0} {J : S → Type 0} {Q : A → S → Type 0} (X : Type 0) {m : S → Result A × S}
    → (X → Triple J Anything m Q)
    → Triple J (λ s. X) m Q
Triple-given X h = record { run = λ s i x. (h x).run s i tt }

and_false : (a : Bool) {b : Bool} → b ≡ false → (a && b) ≡ false
and_false true e = e
and_false false e = refl

module _ {W : Type 0} (env : Environment W) (settings : Settings) (gateway : Gateway W)
    (keeps : LeavesJobs gateway) (wait_fuel : ℕ) (job_id : String) (n : ℕ) where
  abbrev I : State W → Type 0
  I s = Shaped job_id n s.jobs

  -- What a turn at an index promises.
  abbrev pub Moves : ℕ → Turn → State W → Type 0
  Moves index (ends e) s = e ≢ RunEnd.out_of_fuel
  Moves index (goes_on next i) s = (i ≡ index + 1) × (index < n) × HasViewShape n next

  abbrev Returns : ℕ → Worker W Turn → Type 0
  Returns index m = Triple I Anything m (Moves index)

  same-any :
      {A : Type 0} {P : State W → Type 0} {m : Worker W A}
      → ((s : State W) → (m s).1.jobs ≡ s.jobs)
      → Triple I P m AnyResult
  same-any h = Triple-any I (λ s i. subst (Shaped job_id n) (sym (h s)) i)

  ask-any : {A : Type 0} (f : W → A × W) → Triple I Anything (ask f) AnyResult
  unfolding ask
  ask-any f = same-any (λ s. refl)

  pub status-any :
      (status : JobStatus) (error : Option JobError)
      → Triple I Anything (set_status env job_id status error) AnyResult
  status-any status error = Triple-any I (λ s i. set_status-Shaped job_id n env status error s i)

  read_view : Triple I Anything (read_job job_id) (λ view s. HasViewShape n view)
  unfolding read_job get_batch_job
  read_view = record { run = λ s i p. (i, by_row s i) }
    where
      by_result :
          (r : Result JobView) (s : State W)
          → Ensures (HasViewShape n) r
          → Upon (λ view s. HasViewShape n view) r s
      by_result (returned view) s h = h
      by_result (raised e) s h = tt

      by_row : (s : State W) → I s → Upon (λ view s. HasViewShape n view) (read_job job_id s).0 s
      by_row s (j, found, shape) =
          by_result (get_batch_job job_id s.jobs) s
            (rw (found, Ensures, get_batch_job) (job_from_row-HasViewShape n j shape))

  requeue-Returns : (index : ℕ) → Returns index (requeue env settings gateway wait_fuel job_id)
  requeue-Returns index = Triple-last I (status-any _ _) λ _. Triple-pure I (λ s p e. absurd (cc e))

  reread-Returns :
      (index : ℕ)
      → index < n
      → Returns index (reread env settings gateway wait_fuel job_id (index + 1))
  reread-Returns index h =
      Triple->>= I (λ view s. HasViewShape n view) read_view
        λ view. Triple-pure I (λ s shape. (refl, h, shape))

  next_item-Returns :
      (index : ℕ)
      → index < n
      → Returns index (next_item env settings gateway wait_fuel job_id index)
  unfolding next_item
  next_item-Returns index h = Triple-last I (ask-any _) λ stop.
      Triple-if I stop (requeue-Returns index) (
        Triple-last I (ask-any _)
          λ woken. Triple-if I woken (requeue-Returns index) (reread-Returns index h))

  after_bulk-Returns :
      (it : ItemView) (index : ℕ) (is_lost : Bool)
      → index < n
      → Returns index (
          after_item env settings gateway wait_fuel job_id it index
            (unknown_if env settings gateway wait_fuel job_id is_lost))
  unfolding after_item
  after_bulk-Returns it index true h =
      Triple-last I (status-any _ _) λ _. Triple-pure I (λ s p e. absurd (cc e))
  after_bulk-Returns it index false h = next_item-Returns index h

  abbrev Lost : RunOutcome → Type 0
  Lost o = (is_lost : Bool) × (unknown_if env settings gateway wait_fuel job_id is_lost ≡ o)

  -- An item of a bulk job is not retried.
  run_kind-Lost :
      (kind : JobKind) (input : ItemInput) (action : Action) (it : ItemView)
      → kind ≡ bulk_aliases
      → Triple I Anything
          (run_kind env settings gateway wait_fuel job_id kind input action it)
          (λ o s. Lost o)
  run_kind-Lost create_aliases input action it e = absurd (cc e)
  run_kind-Lost bulk_aliases (create_input _ _ _) action it e = Triple-raise I
  run_kind-Lost bulk_aliases (bulk_input alias_id confirmed) action it e =
      Triple-last I (bulk_alias-Keeps env gateway keeps job_id n it.index action alias_id confirmed)
        λ is_lost. Triple-pure I (λ s p. (is_lost, refl))

  run_or_retry-Returns :
      (job : JobView) (it : ItemView) (index : ℕ)
      → job.kind ≡ bulk_aliases
      → is_free_view it ≡ true
      → index < n
      → Returns index (run_or_retry env settings gateway wait_fuel job_id job it index)
  unfolding run_or_retry is_retrying run_item
  run_or_retry-Returns job it index kind free h =
      let idle = is_waiting-free transient_error it.result free in
      Triple->>= I (λ retrying s. retrying ≡ false)
        (Triple-else (is_waiting transient_error it.result) _ idle (Triple-pure I (λ s p. refl)))
        λ retrying. Triple-given (retrying ≡ false) λ no. Triple-else retrying _ no (
          Triple-else (is_waiting transient_error it.result) _ idle (
            Triple->>= I (λ o s. Lost o) (run_kind-Lost job.kind it.input job.action it kind)
              λ o. Triple-given (Lost o) λ (is_lost, outcome).
                subst
                  (λ x. Returns index (after_item env settings gateway wait_fuel job_id it index x))
                  outcome (after_bulk-Returns it index is_lost h)))

  run_queued-Returns :
      (job : JobView) (it : ItemView) (index : ℕ)
      → job.kind ≡ bulk_aliases
      → is_free_view it ≡ true
      → index < n
      → Returns index (run_queued env settings gateway wait_fuel job_id (job, it) index)
  unfolding run_queued is_cooling_down
  run_queued-Returns job it index kind free h =
      let idle = is_waiting-free rate_limited it.result free in
      Triple->>= I (λ cooling s. cooling ≡ false)
        (Triple-else (is_waiting rate_limited it.result && not (settings.rate_limit_cooldown == 0))
          _ (rw idle refl) (Triple-pure I (λ s p. refl)))
        λ cooling. Triple-given (cooling ≡ false) λ no. Triple-else cooling _ no (
          Triple-else (is_waiting rate_limited it.result) _ idle
            (run_or_retry-Returns job it index kind free h))

  visit-Returns :
      (job : JobView) (it : ItemView) (index : ℕ)
      → HasViewShape n job
      → is_free_view it ≡ true
      → index < n
      → Returns index (visit env settings gateway wait_fuel job_id job index it)
  unfolding drop_legacy
  visit-Returns job it index shape free h =
      let idle = is_waiting-free rate_limited it.result free in
      Triple-last I (ask-any _) λ stop. Triple-if I stop (requeue-Returns index) (
        Triple-if I (is_queued_item it)
          (Triple->>= I (λ fresh s. (job, it) ≡ fresh)
            (Triple-else _ _ (and_false (settings.rate_limit_cooldown == 0) idle)
              (Triple-pure I (λ s p. refl)))
            λ fresh. Triple-given ((job, it) ≡ fresh) λ same.
              subst (λ x. Returns index (run_queued env settings gateway wait_fuel job_id x index))
                same (run_queued-Returns job it index shape.0 free h))
          (Triple-pure I (λ s p. (refl, h, shape))))

  finish-any : Triple I Anything (finish_job env job_id) AnyResult
  unfolding finish_job
  finish-any = Triple-last I (same-any (λ s. unfold read_job in refl)) λ job. status-any _ _

  pub turn-Moves :
      (job : JobView) (index : ℕ)
      → HasViewShape n job
      → Returns index (turn env settings gateway wait_fuel job_id job index)
  unfolding turn
  turn-Moves job index shape = by_item (item_at index job.items) refl
    where
      by_item :
          (o : Option ItemView)
          → item_at index job.items ≡ o
          → Returns index (visit_or_finish env settings gateway wait_fuel job_id job index o)
      by_item none e = Triple-last I finish-any λ _. Triple-pure I (λ s p e. absurd (cc e))
      by_item (some it) e =
          let (bound, free) = item_at-lem index job.items it e shape.2 in
          visit-Returns job it index shape free (rw shape.1 at bound)
