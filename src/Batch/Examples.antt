-- ===== src/Batch/Examples.antt =====
-- Runs of the batch tables of database.py: a job that was interrupted, and one that is sent twice.
use icloud_code_gateway.Base.{
  eq_iff, String, ◌≡◌, ◌≢◌, refl, true, false, ◌⊎◌, none, some, [], ◌∷◌, any, find, map, All,
  returned, raised,
}
use icloud_code_gateway.Errors
use icloud_code_gateway.Errors.{security_error}
use icloud_code_gateway.Batch.Rows.{
  sealed, damaged, Stage, ItemStatus, JobStatus, JobKind, Action, Payload, empty, ItemInput, Item,
  Job, JobView, job_from_row,
}
use icloud_code_gateway.Batch.Tables.{
  oldest_queued, has_id, is_running, update_job, claimed, refresh_counts, Request, hash_of_key,
  create_batch_job, next_batch_job,
}
use icloud_code_gateway.Batch.Tables.Claim.{WasQueued, IsOldest, next_batch_job-IsOldest}
use icloud_code_gateway.Batch.Tables.Idempotency.{create_batch_job-again, create_batch_job-mismatch}
use icloud_code_gateway.Batch.Tables.Counts.{AreCounted}
use icloud_code_gateway.Batch.Recovery.{
  must_reconcile, has_candidate, cannot_retry, recover_item, recover_job,
  recover_interrupted_batch_jobs, resume_job, resume_reconcilable_create_job,
}
use icloud_code_gateway.Batch.Recovery.Safety.{
  recover_item_requeues_safely, recover-no_running, recover_job_status, recover_idem,
}
use icloud_code_gateway.Batch.Recovery.Stranded.{AreStranded, claims, recover_misses_unknown}
use icloud_code_gateway.Batch.Recovery.Resume.{resumed, resume_job-eq}
use icloud_code_gateway.Batch.Reach.{Reach, start, step, created, Reach-AreCounted}

-- Text that is folded already, and the digest that is the key itself.
abbrev same_text : String → String
same_text s = s

abbrev input : ItemInput
input = ItemInput.create_input "shop" "" ""

abbrev saved : Payload
saved = record empty { candidate = some "quiet.fox@icloud.com" }

abbrev item : Stage → ItemStatus → Item
item stage status = record {
  index = 1;
  alias_id = none;
  input = sealed input;
  stage = stage;
  status = status;
  result = some (sealed saved);
  error = none;
  created_at = 10;
  updated_at = 20;
}

abbrev job : JobStatus → Item → Job
job status it = record {
  id = "job-1";
  kind = JobKind.create_aliases;
  action = Action.create;
  status = status;
  idempotency_key_hash = some "key-1";
  request_fingerprint = "fingerprint-1";
  requested = 1;
  succeeded = 0;
  failed = 0;
  current = 1;
  created_at = 10;
  updated_at = 20;
  error = none;
  items = it ∷ [];
}

-- The worker died while it reserved the candidate.
abbrev reserving : Item
reserving = item Stage.reserving ItemStatus.running

recovered_example :
    (recover_job same_text 30 (job JobStatus.running reserving)).status ≡ JobStatus.queued
unfolding recover_job
recovered_example = refl

recover_item_requeues_safely_example :
    (JobKind.create_aliases ≡ JobKind.create_aliases)
    × ((reserving.stage ≡ Stage.generating)
        ⊎ ((p : Payload) × (reserving.result ≡ some (sealed p))
            × (has_candidate same_text p ≡ true)
            × ((recover_item same_text JobKind.create_aliases 30 reserving).result
                ≡ some (sealed (must_reconcile p)))
            × ((recover_item same_text JobKind.create_aliases 30 reserving).stage
                ≡ Stage.reconciling)))
unfolding recover_item
recover_item_requeues_safely_example =
    recover_item_requeues_safely same_text JobKind.create_aliases 30 reserving refl refl

recover-no_running_example :
    All
      (λ j. any is_running j.items ≡ false)
      (recover_interrupted_batch_jobs same_text 30 (job JobStatus.running reserving ∷ []))
recover-no_running_example = recover-no_running same_text 30 (job JobStatus.running reserving ∷ [])

recover_job_status_example :
    (recover_job same_text 30 (job JobStatus.running reserving)).status ≡ JobStatus.queued
unfolding has_candidate cannot_retry
recover_job_status_example = recover_job_status same_text 30 (job JobStatus.running reserving)

recover_idem_example :
    recover_interrupted_batch_jobs same_text 40
      (recover_interrupted_batch_jobs same_text 30 (job JobStatus.running reserving ∷ []))
    ≡ recover_interrupted_batch_jobs same_text 30 (job JobStatus.running reserving ∷ [])
recover_idem_example = recover_idem same_text 30 40 (job JobStatus.running reserving ∷ [])

-- An item whose outcome is unknown, in a job that was not stopped yet.
abbrev lost : Job
lost = job JobStatus.running (item Stage.unknown ItemStatus.unknown)

recover_misses_unknown_example :
    (find (has_id "job-1") (recover_interrupted_batch_jobs same_text 30 (lost ∷ [])) ≡ some lost)
    × AreStranded "job-1" (recover_interrupted_batch_jobs same_text 30 (lost ∷ []))
    × (resume_reconcilable_create_job same_text "job-1" 40
          (recover_interrupted_batch_jobs same_text 30 (lost ∷ []))
        ≡ raised Errors.conflict)
    × (claims "job-1" (next_batch_job 40 (recover_interrupted_batch_jobs same_text 30 (lost ∷ [])))
        ≡ false)
recover_misses_unknown_example =
    recover_misses_unknown same_text "job-1" 30 40 (lost ∷ []) lost (λ same. refl, tt) refl

-- The same, stopped as it should be: it can be resumed.
abbrev stopped : Job
stopped = job JobStatus.needs_reconcile (item Stage.unknown ItemStatus.unknown)

resume_job-eq_example :
    resume_job same_text 30 stopped
    ≡ returned (
        refresh_counts 30 (record stopped {
          items = map (resumed same_text 30) stopped.items;
          status = JobStatus.queued;
          error = none;
        }))
unfolding has_candidate
resume_job-eq_example = resume_job-eq same_text 30 stopped

abbrev request : String → Request
request fingerprint = record {
  kind = JobKind.create_aliases;
  action = Action.create;
  fingerprint = fingerprint;
  items = input ∷ [];
  idempotency_key = some "key-1";
}

abbrev new_row : Job
new_row =
    record (job JobStatus.queued
      (record (item Stage.queued ItemStatus.queued) { result = none; updated_at = 10 })) {
        current = 0;
        updated_at = 10;
      }

abbrev view : JobStatus → JobView
view status = record {
  id = "job-1";
  kind = JobKind.create_aliases;
  action = Action.create;
  status = status;
  requested = 1;
  succeeded = 0;
  failed = 0;
  current = 0;
  created_at = 10;
  updated_at = 10;
  error = none;
  items =
      record {
        index = 1;
        alias_id = none;
        input = input;
        stage = Stage.queued;
        status = ItemStatus.queued;
        result = none;
        error = none;
      }
      ∷ [];
}

created_once :
    create_batch_job same_text "job-1" 10 (request "fingerprint-1") []
    ≡ returned (view JobStatus.queued, true, new_row ∷ [])
unfolding create_batch_job job_from_row
created_once = refl

hashed :
    (fingerprint : String)
    → hash_of_key same_text (request fingerprint).idempotency_key ≡ returned (some "key-1")
unfolding hash_of_key
hashed fingerprint = refl

create_batch_job-again_example :
    create_batch_job same_text "job-2" 50 (request "fingerprint-1") (new_row ∷ [])
    ≡ returned (view JobStatus.queued, false, new_row ∷ [])
create_batch_job-again_example =
    create_batch_job-again same_text "key-1" (request "fingerprint-1") (hashed "fingerprint-1")
      "job-1" "job-2" 10 50 [] (new_row ∷ []) (view JobStatus.queued) true created_once

other_fingerprint : (request "fingerprint-2").fingerprint ≢ (request "fingerprint-1").fingerprint
other_fingerprint e = cc ((eq_iff "fingerprint-2" "fingerprint-1").1 e)

create_batch_job-mismatch_example :
    create_batch_job same_text "job-2" 50 (request "fingerprint-2") (new_row ∷ [])
    ≡ raised Errors.conflict
create_batch_job-mismatch_example =
    create_batch_job-mismatch same_text "key-1" (request "fingerprint-1") (hashed "fingerprint-1")
      "job-1" "job-2" 10 50 [] (new_row ∷ []) (view JobStatus.queued) true (request "fingerprint-2")
      created_once refl (hashed "fingerprint-2") refl other_fingerprint

abbrev claimed_view : JobView
claimed_view = record (view JobStatus.running) { updated_at = 60 }

claimed_once :
    next_batch_job 60 (new_row ∷ [])
    ≡ returned (some claimed_view, update_job "job-1" (claimed 60) (new_row ∷ []))
unfolding next_batch_job job_from_row
claimed_once = refl

next_batch_job-IsOldest_example :
    (claimed_view.status ≡ JobStatus.running)
    × (claimed_view.error ≡ none)
    × IsOldest claimed_view.created_at (new_row ∷ [])
    × (update_job "job-1" (claimed 60) (new_row ∷ [])
        ≡ update_job claimed_view.id (claimed 60) (new_row ∷ []))
    × WasQueued 60 claimed_view (new_row ∷ [])
next_batch_job-IsOldest_example =
    next_batch_job-IsOldest 60 (new_row ∷ []) (update_job "job-1" (claimed 60) (new_row ∷ []))
      claimed_view claimed_once

nothing_claimed : next_batch_job 60 (stopped ∷ []) ≡ returned (none, stopped ∷ [])
unfolding next_batch_job job_from_row
nothing_claimed = refl

abbrev unreadable : Job
unreadable = job JobStatus.queued (record (item Stage.queued ItemStatus.queued) { input = damaged })

-- A queued job whose item cannot be opened: the claim raises, although a readable job waits behind it.
claim_raises : next_batch_job 60 (unreadable ∷ new_row ∷ []) ≡ raised security_error
unfolding next_batch_job oldest_queued job_from_row
claim_raises = refl

reached : Reach same_text same_text (new_row ∷ [])
reached =
    step start
      (created "job-1" 10 (request "fingerprint-1") (view JobStatus.queued) true created_once)

Reach-AreCounted_example : AreCounted (new_row ∷ [])
Reach-AreCounted_example = Reach-AreCounted same_text same_text reached
