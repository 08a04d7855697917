-- ===== src/Worker/RunJob/Shape.antt =====
-- What a run of a bulk job leaves as it is: the number of its items, and that none of them waits.
use icloud_code_gateway.Base.{
  ℕ, suc, String, ◌≡◌, refl, ap, ◌∙◌, Bool, true, false, not, ◌&&◌, Option, none, some, List, [],
  ◌∷◌, all, any, find, length, ◌/◌, ◌==◌, arith, is_some, returned, raised, Ensures, Ensures-if,
  Ensures-returned, Ensures->>=, inl, inr, Bool-cases,
}
use mathlib.Core.Path.{subst}
use icloud_code_gateway.Errors.{Result}
use icloud_code_gateway.Batch.Rows.{
  Sealed, unseal, unseal_result, sealed, damaged, JobStatus, bulk_aliases, JobError, Payload, Item,
  Job, ItemView, JobView, job_from_row, items_from_rows, item_from_row,
}
use icloud_code_gateway.Batch.Tables.{
  Jobs, ItemChange, has_id, has_item, update_job, change_item, update_item, refresh_counts,
  update_batch_item, set_batch_job_status,
}
use icloud_code_gateway.Worker.Environment.{Environment, State}
use icloud_code_gateway.Worker.Environment.Actions.{on_jobs, put_jobs, set_status}
use icloud_code_gateway.Worker.Environment.Actions
use icloud_code_gateway.Worker.RunJob.Marked.{IsMarked, with_status, update_job-IsMarked}

abbrev pub waits : Option Payload → Bool
waits none = false
waits (some p) = is_some p.wait_reason

-- A result that names no reason to wait; a damaged one cannot be read.
abbrev is_free_result : Option (Sealed Payload) → Bool
is_free_result none = true
is_free_result (some (sealed p)) = not (is_some p.wait_reason)
is_free_result (some damaged) = true

abbrev pub is_free : Item → Bool
is_free it = is_free_result it.result

abbrev pub is_free_view : ItemView → Bool
is_free_view it = not (waits it.result)

-- A bulk job with so many items, none of which waits.
abbrev pub HasShape : ℕ → Job → Type 0
HasShape n j = (j.kind ≡ bulk_aliases) × (length j.items ≡ n) × (all is_free j.items ≡ true)

abbrev pub HasViewShape : ℕ → JobView → Type 0
HasViewShape n job =
    (job.kind ≡ bulk_aliases) × (length job.items ≡ n) × (all is_free_view job.items ≡ true)

pub split : (a : Bool) {b : Bool} → (a && b) ≡ true → (a ≡ true) × (b ≡ true)
split true e = (refl, e)
split false e = absurd (cc e)

abbrev IsFreeResult : Option Payload → Type 0
IsFreeResult result = not (waits result) ≡ true

unseal_result-free :
    (r : Option (Sealed Payload)) → is_free_result r ≡ true → Ensures IsFreeResult (unseal_result r)
unfolding unseal_result
unseal_result-free none f = refl
unseal_result-free (some (sealed p)) f = f
unseal_result-free (some damaged) f = tt

item_from_row-free :
    (it : Item) → is_free it ≡ true → Ensures (λ view. IsFreeResult view.result) (item_from_row it)
unfolding item_from_row
item_from_row-free it f =
    Ensures->>= (λ view. IsFreeResult view.result) (unseal it.input) _
      λ input _.
        Ensures->>= (λ view. IsFreeResult view.result) (unseal_result it.result) _
          λ result opened.
            Ensures-returned IsFreeResult (unseal_result it.result) result
              (unseal_result-free it.result f) opened

abbrev AreViews : List Item → List ItemView → Type 0
AreViews its views = (length views ≡ length its) × (all is_free_view views ≡ true)

items_from_rows-AreViews :
    (its : List Item) → all is_free its ≡ true → Ensures (AreViews its) (items_from_rows its)
unfolding items_from_rows
items_from_rows-AreViews [] f = (refl, refl)
items_from_rows-AreViews (it ∷ its) f =
    let (first, rest) : (is_free it ≡ true) × (all is_free its ≡ true) = split (is_free it) f in
    Ensures->>= (AreViews (it ∷ its)) (item_from_row it) _ λ view e.
      Ensures->>= (AreViews (it ∷ its)) (items_from_rows its) _ λ views es.
        let known =
          Ensures-returned (AreViews its) (items_from_rows its) views
            (items_from_rows-AreViews its rest) es in
        let free =
          Ensures-returned (λ view. IsFreeResult view.result) (item_from_row it) view
            (item_from_row-free it first) e in
        (ap (λ n. suc n) known.0, rw (free, known.1) refl)

-- What is read from such a row is such a view.
pub job_from_row-HasViewShape :
    (n : ℕ) (j : Job) → HasShape n j → Ensures (HasViewShape n) (job_from_row j)
unfolding job_from_row
job_from_row-HasViewShape n j (kind, len, free) =
    Ensures->>= (HasViewShape n) (items_from_rows j.items) _ λ views e.
      let known =
        Ensures-returned (AreViews j.items) (items_from_rows j.items) views
          (items_from_rows-AreViews j.items free) e in
      (kind, known.0 ∙ len, known.1)

update_item-length :
    (index : ℕ) (f : Item → Item) (its : List Item) → length (update_item index f its) ≡ length its
unfolding update_item
update_item-length index f [] = refl
update_item-length index f (it ∷ its) = ground (arith, update_item-length index f its)

change_item-free :
    (c : ItemChange) (now : ℕ) (it : Item)
    → waits c.result ≡ false
    → is_free it ≡ true
    → is_free (change_item c now it) ≡ true
unfolding change_item
change_item-free c now it h f = by_result c.result h
  where
    by_result :
        (r : Option Payload)
        → waits r ≡ false
        → is_free_result (elim r [ none ↦ it.result | some p ↦ some (sealed p) ]) ≡ true
    by_result none h = f
    by_result (some p) h = rw h refl

update_item-free :
    (index : ℕ) (c : ItemChange) (now : ℕ) (its : List Item)
    → waits c.result ≡ false
    → all is_free its ≡ true
    → all is_free (update_item index (change_item c now) its) ≡ true
unfolding update_item change_item
update_item-free index c now [] h f = refl
update_item-free index c now (it ∷ its) h f =
    let (first, rest) : (is_free it ≡ true) × (all is_free its ≡ true) = split (is_free it) f in
    let known = update_item-free index c now its h rest in
    let changed = change_item-free c now it h first in
    elim (Bool-cases (it.index == index)) [
      | inl hit ↦ rw hit (rw (changed, known) refl)
      | inr miss ↦ rw miss (rw (first, known) refl)
    ]

module _ (job_id : String) (n : ℕ) where
  -- The table has such a job.
  abbrev pub Shaped : Jobs → Type 0
  Shaped jobs = IsMarked job_id (HasShape n) jobs

  is_there :
      (jobs : Jobs) (j : Job) → find (has_id job_id) jobs ≡ some j → any (has_id job_id) jobs ≡ true
  is_there [] j e = absurd (cc e)
  is_there (k ∷ ks) j e = elim (Bool-cases (has_id job_id k)) [
    | inl this ↦ rw this refl
    | inr other ↦
        let rest : find (has_id job_id) ks ≡ some j = rw other at e in rw other (is_there ks j rest)
  ]

  -- A change of the row of the job that keeps its shape.
  update_job-Shaped :
      (f : Job → Job) (jobs : Jobs)
      → ((j : Job) → has_id job_id (f j) ≡ has_id job_id j)
      → ((j : Job) → HasShape n j → HasShape n (f j))
      → Shaped jobs
      → Shaped (update_job job_id f jobs)
  update_job-Shaped f jobs ids keep (j, found, shape) =
      update_job-IsMarked job_id (HasShape n) f jobs (is_there jobs j found) ids
        (λ k e. keep k (subst (HasShape n) (same k e) shape))
    where
      same : (k : Job) → find (has_id job_id) jobs ≡ some k → j ≡ k
      same k e = cc (found, e)

  put_jobs-Shaped :
      {W : Type 0} (s : State W) (r : Result Jobs)
      → Shaped s.jobs
      → Ensures Shaped r
      → Shaped (put_jobs s r).1.jobs
  put_jobs-Shaped s (returned jobs) old new = new
  put_jobs-Shaped s (raised e) old new = old

  pub set_status-Shaped :
      {W : Type 0} (env : Environment W) (status : JobStatus) (error : Option JobError)
      (s : State W)
      → Shaped s.jobs
      → Shaped (set_status env job_id status error s).1.jobs
  unfolding set_status on_jobs set_batch_job_status
  set_status-Shaped env status error s shaped = put_jobs-Shaped _ _ shaped (
      Ensures-if Shaped (any (has_id job_id) s.jobs) _ _
        (update_job-Shaped (with_status status error ((env.now s.world).0 / 1000)) s.jobs
          (λ j. refl) (λ j h. h) shaped)
        tt)

  pub update_item-Shaped :
      {W : Type 0} (env : Environment W) (index : ℕ) (c : ItemChange) (s : State W)
      → waits c.result ≡ false
      → Shaped s.jobs
      → Shaped (Actions.update_item env job_id index c s).1.jobs
  unfolding Actions.update_item on_jobs update_batch_item refresh_counts
  update_item-Shaped env index c s h shaped =
      let now = (env.now s.world).0 / 1000 in
      put_jobs-Shaped _ _ shaped (
        Ensures-if Shaped (any (has_item job_id index) s.jobs) _ _
          (update_job-Shaped
            (λ j.
              refresh_counts now
                (record j { items = update_item index (change_item c now) j.items }))
            s.jobs (λ j. refl)
            (λ j (kind, len, free). (
              kind,
              update_item-length index (change_item c now) j.items ∙ len,
              update_item-free index c now j.items h free,
            ))
            shaped)
          tt)
