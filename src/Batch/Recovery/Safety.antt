-- ===== src/Batch/Recovery/Safety.antt =====
-- What `recover_interrupted_batch_jobs` promises after a crash.
use icloud_code_gateway.Base.{
  ℕ, String, ◌≡◌, refl, ◌⊎◌, inl, inr, true, false, not, ◌&&◌, ◌||◌, Option, none, some, List, [],
  ◌∷◌, any, All, arith, Bool-cases, if◌then◌else◌,
}
use icloud_code_gateway.Batch.Rows.{
  Sealed, sealed, damaged, Stage, ItemStatus, JobStatus, JobKind, create_aliases, bulk_aliases,
  Payload, Item, Job,
}
use icloud_code_gateway.Batch.Tables.{Jobs, is_unknown, is_running, refresh_counts}
use icloud_code_gateway.Batch.Recovery.{
  is_generating, is_running_job, must_reconcile, has_candidate, recover_item, recover_items,
  cannot_retry, stop_replay, requeue, recover_job, recover_interrupted_batch_jobs,
}

module _ (casefold : String → String) where
  recover_item-not_running :
      (kind : JobKind) (now : ℕ) (it : Item)
      → is_running (recover_item casefold kind now it) ≡ false
  unfolding recover_item
  recover_item-not_running kind now it = ground arith

  recover_items-not_running :
      (kind : JobKind) (now : ℕ) (its : List Item)
      → any is_running (recover_items casefold kind now its) ≡ false
  unfolding recover_items
  recover_items-not_running kind now [] = refl
  recover_items-not_running kind now (it ∷ its) =
      ground (arith, recover_item-not_running kind now it, recover_items-not_running kind now its)

  -- An interrupted item is put back in the queue only where a replay is safe: its job creates aliases,
  -- and either it was still asking for a suggestion, which reserves nothing, or its saved candidate can
  -- be read, and then the item is marked so that the candidate is looked up before it is reserved again.
  pub recover_item_requeues_safely :
      (kind : JobKind) (now : ℕ) (it : Item)
      → it.status ≡ ItemStatus.running
      → (recover_item casefold kind now it).status ≡ ItemStatus.queued
      → (kind ≡ create_aliases)
        × ((it.stage ≡ Stage.generating)
            ⊎ ((p : Payload) × (it.result ≡ some (sealed p))
                × (has_candidate casefold p ≡ true)
                × ((recover_item casefold kind now it).result ≡ some (sealed (must_reconcile p)))
                × ((recover_item casefold kind now it).stage ≡ Stage.reconciling)))
  unfolding recover_item
  recover_item_requeues_safely create_aliases now it r q = (refl, by_result it.result refl)
    where
      by_result :
          (result : Option (Sealed Payload))
          → it.result ≡ result
          → (it.stage ≡ Stage.generating)
            ⊎ ((p : Payload) × (it.result ≡ some (sealed p))
                × (has_candidate casefold p ≡ true)
                × ((recover_item casefold create_aliases now it).result
                    ≡ some (sealed (must_reconcile p)))
                × ((recover_item casefold create_aliases now it).stage ≡ Stage.reconciling))
      by_result none e = inl (ground arith)
      by_result (some damaged) e = inl (ground arith)
      by_result (some (sealed p)) e = elim (Bool-cases (is_generating it.stage)) [
        | inl g ↦ inl (ground arith)
        | inr g ↦ inr (p, e, ground arith, ground arith, ground arith)
      ]
  recover_item_requeues_safely bulk_aliases now it r q = absurd (ground arith)

  pub recover_items_same :
      (kind : JobKind) (now : ℕ) (its : List Item)
      → any is_running its ≡ false
      → recover_items casefold kind now its ≡ its
  unfolding recover_items recover_item
  recover_items_same kind now [] h = refl
  recover_items_same kind now (it ∷ its) h = ground (arith, recover_items_same kind now its)

  pub cannot_retry-running :
      (kind : JobKind) (its : List Item)
      → any is_running its ≡ false
      → any (cannot_retry casefold kind) its ≡ false
  unfolding cannot_retry
  cannot_retry-running kind [] h = refl
  cannot_retry-running kind (it ∷ its) h = ground (arith, cannot_retry-running kind its)

  -- After recovery no item of any job is running.
  pub recover-no_running :
      (now : ℕ) (jobs : Jobs)
      → All (λ j. any is_running j.items ≡ false) (recover_interrupted_batch_jobs casefold now jobs)
  unfolding recover_interrupted_batch_jobs recover_job stop_replay requeue refresh_counts
  recover-no_running now [] = tt
  recover-no_running now (j ∷ js) =
      (ground (arith, recover_items-not_running j.kind now j.items), recover-no_running now js)

  unknown_after :
      (kind : JobKind) (now : ℕ) (its : List Item)
      → any (cannot_retry casefold kind) its ≡ true
      → any is_unknown (recover_items casefold kind now its) ≡ true
  unfolding recover_items recover_item cannot_retry
  unknown_after kind now [] h = cc
  unknown_after kind now (it ∷ its) h = ground (arith, unknown_after kind now its)

  unknown_kept :
      (kind : JobKind) (now : ℕ) (its : List Item)
      → any is_unknown its ≡ true
      → any is_unknown (recover_items casefold kind now its) ≡ true
  unfolding recover_items recover_item
  unknown_kept kind now [] h = cc
  unknown_kept kind now (it ∷ its) h = ground (arith, unknown_kept kind now its)

  unknown_from :
      (kind : JobKind) (now : ℕ) (its : List Item)
      → any is_unknown (recover_items casefold kind now its) ≡ true
      → any is_unknown its || any (cannot_retry casefold kind) its ≡ true
  unfolding recover_items recover_item cannot_retry
  unknown_from kind now [] h = cc
  unknown_from kind now (it ∷ its) h = ground (arith, unknown_from kind now its)

  -- What recovery makes of a job's status. It stops the job if some interrupted item cannot be
  -- requeued. Otherwise a running job goes back to the queue if it has no unknown item, and every
  -- other job keeps its status, a running job with an unknown item included.
  pub recover_job_status :
      (now : ℕ) (j : Job)
      → (recover_job casefold now j).status ≡ (
          if any (cannot_retry casefold j.kind) j.items
          then JobStatus.needs_reconcile
          else if is_running_job j.status && not (any is_unknown j.items)
          then JobStatus.queued
          else j.status)
  unfolding recover_job stop_replay requeue refresh_counts
  recover_job_status now j = ground (
    arith,
    unknown_after j.kind now j.items,
    unknown_kept j.kind now j.items,
    unknown_from j.kind now j.items,
  )

  -- A job with no running item is left alone, unless it is running and has no unknown item.
  pub recover_job-same :
      (now : ℕ) (j : Job)
      → any is_running j.items ≡ false
      → is_running_job j.status && not (any is_unknown j.items) ≡ false
      → recover_job casefold now j ≡ j
  unfolding recover_job stop_replay requeue
  recover_job-same now j n u =
      ground (arith, recover_items_same j.kind now j.items n, cannot_retry-running j.kind j.items n)

  items-recover_job :
      (now : ℕ) (j : Job)
      → (recover_job casefold now j).items ≡ recover_items casefold j.kind now j.items
  unfolding recover_job stop_replay requeue refresh_counts
  items-recover_job now j = ground arith

  recover_job-settled :
      (now : ℕ) (j : Job)
      → is_running_job (recover_job casefold now j).status
          && not (any is_unknown (recover_job casefold now j).items)
        ≡ false
  recover_job-settled now j =
      rw (items-recover_job now j, recover_job_status now j)
        (ground (arith, unknown_kept j.kind now j.items))

  recover_job_idem :
      (now later : ℕ) (j : Job)
      → recover_job casefold later (recover_job casefold now j) ≡ recover_job casefold now j
  recover_job_idem now later j =
      recover_job-same later (recover_job casefold now j)
        (rw (items-recover_job now j) (recover_items-not_running j.kind now j.items))
        (recover_job-settled now j)

  -- A second recovery, at any later time, changes nothing.
  pub recover_idem :
      (now later : ℕ) (jobs : Jobs)
      → recover_interrupted_batch_jobs casefold later
          (recover_interrupted_batch_jobs casefold now jobs)
        ≡ recover_interrupted_batch_jobs casefold now jobs
  unfolding recover_interrupted_batch_jobs
  recover_idem now later [] = refl
  recover_idem now later (j ∷ js) = cc (recover_job_idem now later j, recover_idem now later js)
