-- ===== src/Worker/Create/Refused.antt =====
-- A note that the database does not accept, and when `_create_alias` finds that out.
use icloud_code_gateway.Base.{
  ℕ, String, ◌≡◌, refl, true, ◌≤◌, min, false, none, any, strip, returned, raised, ap, arith,
}
use icloud_code_gateway.Errors.{Exception, Result}
use icloud_code_gateway.Columns.{clean_text, normalize_email, clean_candidate}
use icloud_code_gateway.Aliases.Rows.{Remote}
use icloud_code_gateway.Aliases.Table.{AliasInput, or_email, clean_input, upsert_alias}
use icloud_code_gateway.Batch.Rows.{JobView}
use icloud_code_gateway.Batch.Tables.{Jobs, has_id}
use icloud_code_gateway.Worker.Requests.{Payload, is_prefix, create_alias_job}
use icloud_code_gateway.Worker.Requests.Accepted.{Accepted, create_alias_job-accepts}
use icloud_code_gateway.Worker.Environment.{Environment, State}
use icloud_code_gateway.Worker.Environment.Actions
use icloud_code_gateway.Worker.Environment.Actions.{ask, on_aliases}
use icloud_code_gateway.Worker.Create.{
  Values, created_input, is_complete, upsert_and_read, complete_created_alias,
}
use icloud_code_gateway.Worker.Snapshot.{remote_email}

-- A call that raises only `ValueError`.
record RaisesValue {A : Type 0} (m : Result A) : Type 0 where
  raises : (e : Exception) → m ≡ raised e → e ≡ Exception.value_error

clean_text-RaisesValue : (value : String) (limit : ℕ) → RaisesValue (clean_text value limit)
unfolding clean_text
clean_text-RaisesValue value limit = record { raises = λ e r. ground arith }

normalize_email-RaisesValue :
    (casefold : String → String) (value : String) → RaisesValue (normalize_email casefold value)
unfolding normalize_email
normalize_email-RaisesValue casefold value = record { raises = λ e r. ground arith }

clean_input-raised :
    (casefold digest : String → String) (i : AliasInput)
    → clean_text i.note 500 ≡ raised Exception.value_error
    → clean_input casefold digest i ≡ raised Exception.value_error
unfolding clean_input
clean_input-raised casefold digest i bad = by_email (normalize_email casefold i.email) refl
  where
    by_label :
        (email : String) (m : Result String)
        → clean_text (or_email i.label email) 160 ≡ m
        → normalize_email casefold i.email ≡ returned email
        → clean_input casefold digest i ≡ raised Exception.value_error
    by_label email (returned label) e n = rw n (rw e (rw bad refl))
    by_label email (raised x) e n =
        rw n (rw e (ap raised ((clean_text-RaisesValue (or_email i.label email) 160).raises x e)))

    by_email :
        (m : Result String)
        → normalize_email casefold i.email ≡ m
        → clean_input casefold digest i ≡ raised Exception.value_error
    by_email (returned email) n = by_label email (clean_text (or_email i.label email) 160) refl n
    by_email (raised x) n =
        rw n (ap raised ((normalize_email-RaisesValue casefold i.email).raises x n))

refused_at_completion :
    {W : Type 0} (env : Environment W) (job_id : String) (index : ℕ) (values : Values)
    (remote : Remote) (s : State W)
    → is_complete (clean_candidate env.casefold (remote_email remote)) remote ≡ true
    → clean_text values.note 500 ≡ raised Exception.value_error
    → let run = complete_created_alias env job_id index values remote s in
      (run.0 ≡ raised Exception.value_error) × (run.1.jobs ≡ s.jobs) × (run.1.aliases ≡ s.aliases)
unfolding complete_created_alias upsert_and_read upsert_alias created_input ask on_aliases
    Actions.◌>>=◌
refused_at_completion env job_id index values remote s whole bad = rw whole (
    rw
      (clean_input-raised env.casefold env.digest
        (created_input (clean_candidate env.casefold (remote_email remote)) values remote) bad)
      (refl, refl, refl))

-- A note that `_clean_text` refuses as the database would, such as one with a line break, does not stop
-- a request without an idempotency key, if its count and its prefix are allowed and the job's id is
-- fresh: the request is accepted and stored as a job with that many items, each with that note. But
-- when Apple has made the address for an item with the note, `_complete_created_alias` raises
-- `ValueError`, from every state of the worker, and leaves the jobs and the aliases as they were, so
-- neither the alias nor the item is stored as created.
pub complete_created_alias-refuses_note :
    {W : Type 0} (env : Environment W) (digest : String → String) (fingerprint : Payload → String)
    (batch_limit : ℕ) (job_id : String) (now count : ℕ) (label_prefix : String) (values : Values)
    (jobs : Jobs) (index : ℕ) (remote : Remote) (s : State W)
    → 1 ≤ count
    → count ≤ min batch_limit 100
    → is_prefix (strip label_prefix) ≡ true
    → any (has_id job_id) jobs ≡ false
    → clean_text values.note 500 ≡ raised Exception.value_error
    → is_complete (clean_candidate env.casefold (remote_email remote)) remote ≡ true
    → ((view : JobView) × (after : Jobs) × (create_alias_job digest fingerprint batch_limit job_id
            now count label_prefix values.note values.sender_filter none jobs
          ≡ returned (view, true, after))
        × Accepted count values.note values.sender_filter jobs after)
      × (let run = complete_created_alias env job_id index values remote s in
          (run.0 ≡ raised Exception.value_error)
          × (run.1.jobs ≡ s.jobs)
          × (run.1.aliases ≡ s.aliases))
complete_created_alias-refuses_note env digest fingerprint batch_limit job_id now count label_prefix
      values jobs index remote s one limit prefixed fresh bad whole =
    (
      create_alias_job-accepts digest fingerprint batch_limit job_id now count label_prefix
          values.note values.sender_filter jobs one limit prefixed fresh,
      refused_at_completion env job_id index values remote s whole bad,
    )
