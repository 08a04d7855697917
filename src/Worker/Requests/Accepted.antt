-- ===== src/Worker/Requests/Accepted.antt =====
-- What `create_alias_job` accepts.
use icloud_code_gateway.Base.{
  ℕ, zero, suc, ◌≤◌, min, String, ◌≡◌, refl, true, false, ◌||◌, none, List, [], ◌∷◌, ◌++◌, length,
  any, ltb, strip, arith, All, returned, ◌>>=◌,
}
use icloud_code_gateway.Batch.Rows.{
  sealed, ItemInput, Item, Job, JobView, item_from_row, items_from_rows, job_from_row,
}
use icloud_code_gateway.Batch.Tables.{
  Jobs, has_id, Request, new_items, new_job, hash_of_key, existing_job, insert_job,
  create_batch_job,
}
use icloud_code_gateway.Worker.Requests.{
  Result, Payload, is_prefix, label_of, create_items, create_request, create_alias_job,
}

-- A step that returns, and a chain of such steps.
abbrev Returns : {A : Type 0} → Result A → Type 0
Returns {A = A} m = (a : A) × (m ≡ returned a)

>>=-Returns :
    {A B : Type 0} (m : Result A) (k : A → Result B)
    → Returns m
    → ((a : A) → Returns (k a))
    → Returns (m >>= k)
>>=-Returns m k (a, e) h = ((h a).0, rw e (h a).1)

items_from_rows-new_items :
    (now index : ℕ) (inputs : List ItemInput)
    → Returns (items_from_rows (new_items now index inputs))
unfolding items_from_rows new_items item_from_row
items_from_rows-new_items now index [] = ([], refl)
items_from_rows-new_items now index (input ∷ inputs) =
    >>=-Returns (items_from_rows (new_items now (suc index) inputs)) _
      (items_from_rows-new_items now (suc index) inputs) (λ views. (_, refl))

job_from_row-Returns : (j : Job) → Returns (items_from_rows j.items) → Returns (job_from_row j)
unfolding job_from_row
job_from_row-Returns j read = >>=-Returns (items_from_rows j.items) _ read (λ views. (_, refl))

-- The item was created from a request with this note and this sender filter.
abbrev pub Carries : String → String → Item → Type 0
Carries note sender it =
    (label : String) × (it.input ≡ sealed (ItemInput.create_input label note sender))

new_items-Carries :
    (prefix note sender : String) (now index requested from left : ℕ)
    → All
        (Carries note sender)
        (new_items now index (create_items prefix note sender requested from left))
unfolding new_items create_items
new_items-Carries prefix note sender now index requested from zero = tt
new_items-Carries prefix note sender now index requested from (suc left) = (
  (label_of prefix requested from, refl),
  new_items-Carries prefix note sender now (suc index) requested (suc from) left,
)

length-new_items :
    (prefix note sender : String) (now index requested from left : ℕ)
    → length (new_items now index (create_items prefix note sender requested from left)) ≡ left
unfolding new_items create_items
length-new_items prefix note sender now index requested from zero = refl
length-new_items prefix note sender now index requested from (suc left) =
    omega (arith, length-new_items prefix note sender now (suc index) requested (suc from) left)

-- A request for aliases is stored as a job whose items carry its note and its sender filter.
abbrev pub Accepted : ℕ → String → String → Jobs → Jobs → Type 0
Accepted count note sender jobs after =
    (row : Job) × (after ≡ jobs ++ row ∷ [])
    × (length row.items ≡ count)
    × All (Carries note sender) row.items

module _ (digest : String → String) (fingerprint : Payload → String) where
  insert_job-accepts :
      (job_id : String) (now : ℕ) (r : Request) (jobs : Jobs)
      → any (has_id job_id) jobs ≡ false
      → (view : JobView) × (insert_job job_id now none r jobs
          ≡ returned (view, true, jobs ++ new_job job_id now none r ∷ []))
  unfolding insert_job new_job
  insert_job-accepts job_id now r jobs fresh =
      let (view, e) =
        job_from_row-Returns (new_job job_id now none r)
          (items_from_rows-new_items now 1 r.items) in
      (view, rw fresh (rw e refl))

  pub create_alias_job-accepts :
      (batch_limit : ℕ) (job_id : String) (now count : ℕ) (label_prefix note sender : String)
      (jobs : Jobs)
      → 1 ≤ count
      → count ≤ min batch_limit 100
      → is_prefix (strip label_prefix) ≡ true
      → any (has_id job_id) jobs ≡ false
      → (view : JobView) × (after : Jobs) × (create_alias_job digest fingerprint batch_limit job_id
            now count label_prefix note sender none jobs
          ≡ returned (view, true, after))
        × Accepted count note sender jobs after
  unfolding create_alias_job create_request create_items new_job create_batch_job hash_of_key
      existing_job
  create_alias_job-accepts batch_limit job_id now zero label_prefix note sender jobs one limit
        prefixed fresh =
      absurd (omega arith)
  create_alias_job-accepts batch_limit job_id now (suc n) label_prefix note sender jobs one limit
        prefixed fresh =
      let prefix = strip label_prefix in
      let request = create_request digest fingerprint (suc n) prefix note sender none in
      let (view, e) = insert_job-accepts job_id now request jobs fresh in
      let in_limit : ltb (suc n) 1 || ltb (min batch_limit 100) (suc n) ≡ false = ground arith in
      (
        view,
        jobs ++ new_job job_id now none request ∷ [],
        rw in_limit (rw prefixed e),
        (
          new_job job_id now none request,
          refl,
          length-new_items prefix note sender now 1 (suc n) 1 (suc n),
          new_items-Carries prefix note sender now 1 (suc n) 1 (suc n),
        ),
      )
