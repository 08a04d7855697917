-- ===== src/Batch/Tables/Counts.antt =====
-- The counters of a job agree with its items, whatever operation ran last.
use icloud_code_gateway.Base.{
  ℕ, suc, ◌+◌, ◌≤◌, String, ◌≡◌, refl, Bool, true, false, Option, List, [], ◌∷◌, ◌++◌, length,
  count_if, any, All, raise_if, Ensures, Ensures-if, Ensures->>=, Ensures-elim_option, not, str_eq,
  sym, ◌∙◌, arith, if◌then◌else◌,
}
use icloud_code_gateway.Errors.{integrity_error, value_error, conflict}
use icloud_code_gateway.Batch.Rows.{ItemInput, JobStatus, JobError, Item, Job, job_from_row}
use icloud_code_gateway.Batch.Tables.{
  Jobs, is_success, is_failed, is_current, has_id, refresh_counts, update_job, set_batch_job_status,
  ItemChange, change_item, update_item, has_item, update_batch_item, claimed, oldest_queued,
  next_batch_job, new_items, no_items, Request, new_job, insert_job, existing_job, hash_of_key,
  create_batch_job,
}

pub record IsCounted (j : Job) : Type 0 where
  pub requested_items : j.requested ≡ length j.items
  pub succeeded_items : j.succeeded ≡ count_if is_success j.items
  pub failed_items : j.failed ≡ count_if is_failed j.items
  pub current_items : j.current ≡ count_if is_current j.items

abbrev pub AreCounted : Jobs → Type 0
AreCounted = All IsCounted

pub finished-le-current :
    (its : List Item) → count_if is_success its + count_if is_failed its ≤ count_if is_current its
finished-le-current [] = omega arith
finished-le-current (it ∷ its) = ground (arith, finished-le-current its)

pub current-le-length : (its : List Item) → count_if is_current its ≤ length its
current-le-length [] = omega arith
current-le-length (it ∷ its) = ground (arith, current-le-length its)

pub refresh_counts-IsCounted :
    (now : ℕ) (j : Job) → j.requested ≡ length j.items → IsCounted (refresh_counts now j)
unfolding refresh_counts
refresh_counts-IsCounted now j h = record {
  requested_items = h;
  succeeded_items = refl;
  failed_items = refl;
  current_items = refl;
}

pub All-update_job :
    (P : Job → Type 0) (job_id : String) (f : Job → Job) (jobs : Jobs)
    → ((j : Job) → P j → P (f j))
    → All P jobs
    → All P (update_job job_id f jobs)
unfolding update_job
All-update_job P job_id f [] keep h = tt
All-update_job P job_id f (j ∷ js) keep h =
    (here (has_id job_id j), All-update_job P job_id f js keep h.1)
  where
    here : (b : Bool) → P (if b then f j else j)
    here true = keep j h.0
    here false = h.0

pub All-append-one :
    (P : Job → Type 0) (jobs : Jobs) (j : Job) → All P jobs → P j → All P (jobs ++ j ∷ [])
All-append-one P [] j h p = (p, tt)
All-append-one P (k ∷ ks) j h p = (h.0, All-append-one P ks j h.1 p)

length-update_item :
    (index : ℕ) (f : Item → Item) (its : List Item) → length (update_item index f its) ≡ length its
unfolding update_item
length-update_item index f [] = refl
length-update_item index f (it ∷ its) = omega (arith, length-update_item index f its)

pub set_batch_job_status-AreCounted :
    (job_id : String) (status : JobStatus) (error : Option JobError) (now : ℕ) (jobs : Jobs)
    → AreCounted jobs
    → Ensures AreCounted (set_batch_job_status job_id status error now jobs)
unfolding set_batch_job_status
set_batch_job_status-AreCounted job_id status error now jobs h =
    Ensures-if AreCounted (any (has_id job_id) jobs) _ _
      (All-update_job IsCounted job_id
        (λ j. record j { status = status; error = error; updated_at = now }) jobs
        (λ j c. ground arith) h)
      tt

pub update_batch_item-AreCounted :
    (job_id : String) (index : ℕ) (c : ItemChange) (now : ℕ) (jobs : Jobs)
    → AreCounted jobs
    → Ensures AreCounted (update_batch_item job_id index c now jobs)
unfolding update_batch_item
update_batch_item-AreCounted job_id index c now jobs h =
    Ensures-if AreCounted (any (has_item job_id index) jobs) _ _
      (All-update_job IsCounted job_id _ jobs keep h) tt
  where
    keep :
        (j : Job)
        → IsCounted j
        → IsCounted (
            refresh_counts now (record j { items = update_item index (change_item c now) j.items }))
    keep j k =
        refresh_counts-IsCounted now
          (record j { items = update_item index (change_item c now) j.items })
          (k.requested_items ∙ sym (length-update_item index (change_item c now) j.items))

new_items-counts :
    (now index : ℕ) (inputs : List ItemInput)
    → (length inputs ≡ length (new_items now index inputs))
      × (0 ≡ count_if is_success (new_items now index inputs))
      × (0 ≡ count_if is_failed (new_items now index inputs))
      × (0 ≡ count_if is_current (new_items now index inputs))
unfolding new_items
new_items-counts now index [] = omega arith
new_items-counts now index (i ∷ is) = ground (arith, new_items-counts now (suc index) is)

new_job-IsCounted :
    (job_id : String) (now : ℕ) (key_hash : Option String) (r : Request)
    → IsCounted (new_job job_id now key_hash r)
unfolding new_job
new_job-IsCounted job_id now key_hash r = ground (arith, new_items-counts now 1 r.items)

pub next_batch_job-AreCounted :
    (now : ℕ) (jobs : Jobs)
    → AreCounted jobs
    → Ensures (λ r. AreCounted r.1) (next_batch_job now jobs)
unfolding next_batch_job
next_batch_job-AreCounted now jobs h =
    Ensures-elim_option (λ r. AreCounted r.1) (oldest_queued jobs) _ _ (λ _. h)
      λ j _.
        Ensures->>= (λ r. AreCounted r.1) (job_from_row (claimed now j)) _
          λ view _. All-update_job IsCounted j.id (claimed now) jobs (λ k c. ground arith) h

insert_job-AreCounted :
    (job_id : String) (now : ℕ) (key_hash : Option String) (r : Request) (jobs : Jobs)
    → AreCounted jobs
    → Ensures (λ v. AreCounted v.2) (insert_job job_id now key_hash r jobs)
unfolding insert_job
insert_job-AreCounted job_id now key_hash r jobs h =
    Ensures->>= (λ v. AreCounted v.2) (raise_if (any (has_id job_id) jobs) integrity_error) _
      λ _ _.
        Ensures->>= (λ v. AreCounted v.2) (job_from_row (new_job job_id now key_hash r)) _
          λ view _.
            All-append-one IsCounted jobs (new_job job_id now key_hash r) h
              (new_job-IsCounted job_id now key_hash r)

pub create_batch_job-AreCounted :
    (digest : String → String) (job_id : String) (now : ℕ) (r : Request) (jobs : Jobs)
    → AreCounted jobs
    → Ensures (λ v. AreCounted v.2) (create_batch_job digest job_id now r jobs)
unfolding create_batch_job
create_batch_job-AreCounted digest job_id now r jobs h =
    Ensures->>= (λ v. AreCounted v.2) (raise_if (no_items r.items) value_error) _
      λ _ _.
        Ensures->>= (λ v. AreCounted v.2) (hash_of_key digest r.idempotency_key) _
          λ key_hash _.
            Ensures-elim_option (λ v. AreCounted v.2) (existing_job r.kind key_hash jobs) _ _
              (λ _. insert_job-AreCounted job_id now key_hash r jobs h)
              λ j _.
                Ensures->>= (λ v. AreCounted v.2)
                  (raise_if (not (str_eq j.request_fingerprint r.fingerprint)) conflict) _
                  λ _ _. Ensures->>= (λ v. AreCounted v.2) (job_from_row j) _ (λ view _. h)
