-- ===== src/Batch/Tables/Stored.antt =====
-- What the tables hold for an item after `update_batch_item`, until the next one.
use icloud_code_gateway.Base.{
  ℕ, String, ◌≡◌, refl, Bool, true, not, ◌||◌, Option, List, [], ◌∷◌, any, all, ◌==◌, arith,
  returned, inl, inr, Bool-cases,
}
use icloud_code_gateway.Batch.Rows.{JobStatus, JobError, Item, Job}
use icloud_code_gateway.Batch.Tables.{
  Jobs, has_id, has_item, refresh_counts, update_job, update_item, ItemChange, change_item,
  update_batch_item, set_batch_job_status,
}

-- Every item of the job with this index satisfies the test.
abbrev pub all_items : String → ℕ → (Item → Bool) → Jobs → Bool
all_items job_id index p jobs =
    all (λ j. not (has_id job_id j) || all (λ it. not (it.index == index) || p it) j.items) jobs

-- The item is there, and satisfies the test.
pub record IsStored (job_id : String) (index : ℕ) (p : Item → Bool) (jobs : Jobs) : Type 0 where
  pub there : any (has_item job_id index) jobs ≡ true
  pub tested : all_items job_id index p jobs ≡ true

module _ (job_id : String) (index : ℕ) (p : Item → Bool) where
  any-update_item :
      (c : ItemChange) (now : ℕ) (its : List Item)
      → any (λ it. it.index == index) (update_item index (change_item c now) its)
        ≡ any (λ it. it.index == index) its
  unfolding update_item change_item
  any-update_item c now [] = refl
  any-update_item c now (it ∷ its) = ground (arith, any-update_item c now its)

  all-update_item :
      (c : ItemChange) (now : ℕ) (its : List Item)
      → ((it : Item) → p (change_item c now it) ≡ true)
      → all (λ it. not (it.index == index) || p it) (update_item index (change_item c now) its)
        ≡ true
  unfolding update_item
  all-update_item c now [] h = refl
  all-update_item c now (it ∷ its) h = ground (arith, h it, all-update_item c now its h)

  abbrev changed : ItemChange → ℕ → Job → Job
  changed c now j =
      refresh_counts now (record j { items = update_item index (change_item c now) j.items })

  any-changed :
      (c : ItemChange) (now : ℕ) (jobs : Jobs)
      → any (has_item job_id index) (update_job job_id (changed c now) jobs)
        ≡ any (has_item job_id index) jobs
  unfolding update_job refresh_counts has_item
  any-changed c now [] = refl
  any-changed c now (j ∷ js) = ground (arith, any-update_item c now j.items, any-changed c now js)

  all-changed :
      (c : ItemChange) (now : ℕ) (jobs : Jobs)
      → ((it : Item) → p (change_item c now it) ≡ true)
      → all_items job_id index p (update_job job_id (changed c now) jobs) ≡ true
  unfolding update_job refresh_counts
  all-changed c now [] h = refl
  all-changed c now (j ∷ js) h =
      ground (arith, all-update_item c now j.items h, all-changed c now js h)

  -- After a change of an item, the item is there, and what the job stores under its index is what the
  -- change made of it, for every test that the changed item passes whatever it was before.
  pub update_batch_item-IsStored :
      (c : ItemChange) (now : ℕ) (jobs after : Jobs)
      → ((it : Item) → p (change_item c now it) ≡ true)
      → update_batch_item job_id index c now jobs ≡ returned after
      → IsStored job_id index p after
  unfolding update_batch_item
  update_batch_item-IsStored c now jobs after h e =
      elim (Bool-cases (any (has_item job_id index) jobs)) [
        | inl hit ↦
            let table : after ≡ update_job job_id (changed c now) jobs = ground arith in
            record {
              there = rw (table, any-changed c now jobs) hit;
              tested = rw table (all-changed c now jobs h);
            }
        | inr miss ↦ absurd (ground arith)
      ]

  -- A change of a job's status leaves its items as they are.
  any-status :
      (other : String) (f : Job → Job) (jobs : Jobs)
      → ((j : Job) → has_item job_id index (f j) ≡ has_item job_id index j)
      → any (has_item job_id index) (update_job other f jobs) ≡ any (has_item job_id index) jobs
  unfolding update_job
  any-status other f [] keep = refl
  any-status other f (j ∷ js) keep = ground (arith, keep j, any-status other f js keep)

  all-status :
      (other : String) (f : Job → Job) (jobs : Jobs)
      → ((j : Job) → (f j).items ≡ j.items)
      → ((j : Job) → (f j).id ≡ j.id)
      → all_items job_id index p (update_job other f jobs) ≡ all_items job_id index p jobs
  unfolding update_job
  all-status other f [] items ids = refl
  all-status other f (j ∷ js) items ids =
      ground (arith, items j, ids j, all-status other f js items ids)

  pub set_batch_job_status-IsStored :
      (other : String) (status : JobStatus) (error : Option JobError) (now : ℕ) (jobs after : Jobs)
      → set_batch_job_status other status error now jobs ≡ returned after
      → IsStored job_id index p jobs
      → IsStored job_id index p after
  unfolding set_batch_job_status
  set_batch_job_status-IsStored other status error now jobs after e h =
      elim (Bool-cases (any (has_id other) jobs)) [
        | inl hit ↦
            let f : Job → Job =
              λ j. record j { status = status; error = error; updated_at = now } in
            let table : after ≡ update_job other f jobs = ground arith in
            record {
              there = rw (table, any-status other f jobs (λ j. unfold has_item in refl)) h.there;
              tested = rw (table, all-status other f jobs (λ j. refl) (λ j. refl)) h.tested;
            }
        | inr miss ↦ absurd (ground arith)
      ]
