-- ===== src/Worker/Requests/Checked.antt =====
-- What `create_alias_job` and `create_bulk_job` have checked when they store a job.
use icloud_code_gateway.Base.{
  none, some, ap, ℕ, zero, suc, ◌≤◌, min, String, ◌≡◌, refl, inl, inr, Bool, true, false, not, ◌&&◌,
  ◌||◌, Option, List, [], ◌∷◌, map, length, all, ltb, strip, arith, Bool-cases, Ensures,
  Ensures->>=, Ensures-returned, returned, raised, raise_if, ◌>>=◌, ◌>>◌,
}
use icloud_code_gateway.Errors.{Exception, Result}
use icloud_code_gateway.Batch.Rows.{ItemInput, Action, JobView}
use icloud_code_gateway.Batch.Tables.{Jobs, create_batch_job}
use icloud_code_gateway.Aliases.Table.{Aliases, get_alias}
use icloud_code_gateway.Worker.Bulk.{is_remote_write, is_allowed}
use icloud_code_gateway.Worker.Requests.{
  Payload, is_prefix, are_ids, is_distinct, is_bulk_action, unknown_id, get_all, check_states,
  create_items, create_request, create_alias_job, bulk_request, create_bulk_job,
}

-- The alias is there, can be read, and is in the state that the action requires.
abbrev pub is_ready : Action → Aliases → String → Bool
is_ready action rows id = elim (get_alias id rows) [
  | returned a ↦ is_allowed action a
  | raised _ ↦ false
]

raise_if-passes : (b : Bool) (e : Exception) → raise_if b e ≡ returned tt → b ≡ false
raise_if-passes true e h = absurd (cc h)
raise_if-passes false e h = refl

get_all-ready :
    (action : Action) (ids : List String) (rows : Aliases)
    → Ensures
        (λ views. all (is_allowed action) views ≡ all (is_ready action rows) ids)
        (get_all ids rows)
unfolding get_all
get_all-ready action [] rows = refl
get_all-ready action (id ∷ ids) rows =
    Ensures->>= (λ views. all (is_allowed action) views ≡ all (is_ready action rows) (id ∷ ids))
      (get_alias id rows) _
      λ a e.
        Ensures->>= (λ views. all (is_allowed action) views ≡ all (is_ready action rows) (id ∷ ids))
          (get_all ids rows) _
          λ rest r.
            let ih =
              Ensures-returned
                (λ views. all (is_allowed action) views ≡ all (is_ready action rows) ids)
                (get_all ids rows) rest (get_all-ready action ids rows) r in
            ground (arith, e, ih)

unknown_id-returned :
    {A : Type 0} (r : Result A) (a : A) → unknown_id r ≡ returned a → r ≡ returned a
unknown_id-returned (returned b) a e = e
unknown_id-returned (raised x) a e = absurd (ground arith)

-- A step of a chain that returned has returned itself.
passes :
    {A B : Type 0} (m : Result A) (k : A → Result B) (r : B)
    → m >>= k ≡ returned r
    → (a : A) × (m ≡ returned a) × (k a ≡ returned r)
passes (returned a) k r e = (a, refl, e)
passes (raised x) k r e = absurd (cc e)

passes_guard :
    {B : Type 0} (b : Bool) (x : Exception) (k : Result B) (r : B)
    → raise_if b x >> k ≡ returned r
    → (b ≡ false) × (k ≡ returned r)
passes_guard true x k r e = absurd (cc e)
passes_guard false x k r e = (refl, e)

check_states-ready :
    (action : Action) (ids : List String) (rows : Aliases)
    → check_states action ids rows ≡ returned tt
    → not (is_remote_write action) || all (is_ready action rows) ids ≡ true
unfolding check_states
check_states-ready action ids rows e = elim (Bool-cases (is_remote_write action)) [
  | inr local ↦ rw local refl
  | inl remote ↦
      let (views, known, last) = passes (unknown_id (get_all ids rows)) _ tt (rw remote at e) in
      let allowed =
        raise_if-passes (not (all (is_allowed action) views)) Exception.value_error last in
      let same =
        Ensures-returned (λ views. all (is_allowed action) views ≡ all (is_ready action rows) ids)
          (get_all ids rows) views (get_all-ready action ids rows)
          (unknown_id-returned (get_all ids rows) views known) in
      ground (arith, remote, allowed, same)
]

length-create_items :
    (prefix note sender : String) (requested index left : ℕ)
    → length (create_items prefix note sender requested index left) ≡ left
unfolding create_items
length-create_items prefix note sender requested index zero = refl
length-create_items prefix note sender requested index (suc left) =
    omega (arith, length-create_items prefix note sender requested (suc index) left)

-- The alias of an item of a bulk job, and whether the request was confirmed.
abbrev pub target_of : ItemInput → Option (String × Bool)
target_of (ItemInput.create_input _ _ _) = none
target_of (ItemInput.bulk_input alias_id confirmed) = some (alias_id, confirmed)

map-target_of :
    (ids : List String) (confirmed : Bool)
    → map target_of (map (λ id. ItemInput.bulk_input id confirmed) (map strip ids))
      ≡ map (λ id. some (strip id, confirmed)) ids
map-target_of [] confirmed = refl
map-target_of (id ∷ ids) confirmed =
    ap (λ t. some (strip id, confirmed) ∷ t) (map-target_of ids confirmed)

module _ (digest : String → String) (fingerprint : Payload → String) where
  -- A request for new aliases that is accepted asks for at least one and at most 100 of them, and for no
  -- more than the configured limit; its prefix is not blank and has at most 140 characters; and it has
  -- become a job with exactly that many items.
  pub create_alias_job-checked :
      (batch_limit : ℕ) (job_id : String) (now count : ℕ) (label_prefix note sender : String)
      (key : Option String) (jobs : Jobs) (r : JobView × Bool × Jobs)
      → create_alias_job digest fingerprint batch_limit job_id now count label_prefix note sender
          key jobs
        ≡ returned r
      → (1 ≤ count)
        × (count ≤ min batch_limit 100)
        × (is_prefix (strip label_prefix) ≡ true)
        × (length
              (create_request digest fingerprint count (strip label_prefix) note sender key).items
            ≡ count)
        × (create_batch_job digest job_id now
              (create_request digest fingerprint count (strip label_prefix) note sender key)
              jobs
            ≡ returned r)
  unfolding create_alias_job create_request
  create_alias_job-checked batch_limit job_id now count label_prefix note sender key jobs r e =
      let (in_limit, e1) = passes_guard (ltb count 1 || ltb (min batch_limit 100) count) _ _ r e in
      let (prefixed, e2) = passes_guard (not (is_prefix (strip label_prefix))) _ _ r e1 in
      (
        ground arith,
        ground arith,
        ground arith,
        length-create_items (strip label_prefix) note sender count 1 count,
        e2,
      )

  -- A bulk request that is accepted names between 1 and 100 different aliases, none of them blank, and a
  -- bulk action; a deactivation or deletion is confirmed, and every alias that it names can be read and is
  -- in the state that it requires; and it has become a job whose items are for these aliases, one for
  -- each in their order, every one with the confirmation of the request.
  pub create_bulk_job-checked :
      (job_id : String) (now : ℕ) (action : Action) (alias_ids : List String) (confirmed : Bool)
      (key : Option String) (aliases : Aliases) (jobs : Jobs) (r : JobView × Bool × Jobs)
      → create_bulk_job digest fingerprint job_id now action alias_ids confirmed key aliases jobs
        ≡ returned r
      → (are_ids (map strip alias_ids) ≡ true)
        × (is_distinct (map strip alias_ids) ≡ true)
        × (is_bulk_action action ≡ true)
        × (not (is_remote_write action) || confirmed ≡ true)
        × (not (is_remote_write action) || all (is_ready action aliases) (map strip alias_ids)
            ≡ true)
        × (map target_of
              (bulk_request digest fingerprint action (map strip alias_ids) confirmed key).items
            ≡ map (λ id. some (strip id, confirmed)) alias_ids)
        × (create_batch_job digest job_id now
              (bulk_request digest fingerprint action (map strip alias_ids) confirmed key)
              jobs
            ≡ returned r)
  unfolding create_bulk_job bulk_request
  create_bulk_job-checked job_id now action alias_ids confirmed key aliases jobs r e =
      let ids = map strip alias_ids in
      let (named, e1) = passes_guard (not (are_ids ids)) _ _ r e in
      let (different, e2) = passes_guard (not (is_distinct ids)) _ _ r e1 in
      let (bulk, e3) = passes_guard (not (is_bulk_action action)) _ _ r e2 in
      let (agreed, e4) = passes_guard (is_remote_write action && not confirmed) _ _ r e3 in
      let (_, states, e5) = passes (check_states action ids aliases) _ r e4 in
      (
        ground arith,
        ground arith,
        ground arith,
        ground arith,
        check_states-ready action ids aliases states,
        map-target_of alias_ids confirmed,
        e5,
      )
