-- ===== src/Worker/Create/Reserve.antt =====
-- The second half of `_create_alias`: the candidate is looked up if it must be, and reserved.
use icloud_code_gateway.Base.{
  or_else, String, Bool, true, false, not, Option, none, some, if◌then◌else◌,
}
use icloud_code_gateway.Errors.{Exception}
use icloud_code_gateway.Batch.Rows.{empty, Stage, ItemStatus, RetryKind}
use icloud_code_gateway.Aliases.Rows.{Remote}
use icloud_code_gateway.Worker.Payloads.{Settings, candidate_item}
use icloud_code_gateway.Worker.Waits.{pause_for_transient_retry}
use icloud_code_gateway.Worker.Environment.{Environment}
use icloud_code_gateway.Worker.Environment.Actions.{
  ◌>>=◌, ◌>>◌, pure, raise, attempt, call, raise_if_stopping,
}
use icloud_code_gateway.Worker.Frame.{
  with_frame, RunOutcome, Flow, leave, go, Run, lift, read, assign, and_then,
}
use icloud_code_gateway.Worker.Snapshot.{
  Resolution, found, absent, unavailable, validated_candidate_snapshot,
}
use icloud_code_gateway.Worker.Create.{Values, in_stage, complete_created_alias}
use icloud_code_gateway.Worker.Create.Steps.{
  has_mark, generated_change, must_regenerate, retry_kind, update, close_client, open_session,
  pause_or, generate, on_result,
}

-- The new alias and its key.
abbrev pub Created : Type 0
Created = String × String

-- `except (HmeNetworkError, HmeSessionError, HmeError)`; any other exception goes on.
unfoldable pub is_hme : Exception → Bool
is_hme Exception.hme_network = true
is_hme Exception.hme_session = true
is_hme Exception.hme_error = true
is_hme _ = false

module _ {W : Type 0} (env : Environment W) (settings : Settings) (job_id : String) where
  -- `_pause_for_transient_retry` with what `_candidate_item` makes of the item.
  unfoldable pub pause_retry : String → RetryKind → Bool → Run W (Unit {0})
  pause_retry candidate kind reconcile = with_frame λ f. lift (
      pause_for_transient_retry env settings job_id (candidate_item f.item candidate reconcile) kind
        reconcile)

  unfoldable pub snapshot : Run W Resolution
  snapshot = with_frame λ f. lift (validated_candidate_snapshot env f.candidate)

  -- The item goes on without the mark, and a client is opened again.
  unfoldable pub reserve_again : Run W (Flow (Option Created))
  reserve_again = do
    assign (λ f. record f { item = candidate_item f.item f.candidate false })
    with_frame λ f. update env settings job_id (generated_change (or_else f.item.result empty))
    open_session env settings job_id
    pure (go none)

  unfoldable pub begin_write : Run W (Unit {0})
  begin_write = do
    update env settings job_id (in_stage Stage.reserving ItemStatus.running none)
    assign (λ f. record f { write_attempted = true })

module _ {W : Type 0} (env : Environment W) (settings : Settings) (job_id : String)
    (values : Values) where
  unfoldable pub complete : Remote → Run W (Flow Created)
  complete remote = with_frame λ f.
      lift (complete_created_alias env job_id f.item.index values remote) >>= λ created.
      pure (go created)

  unfoldable pub after_lookup : Resolution → Run W (Flow (Option Created))
  after_lookup (found remote) = and_then (complete remote) (λ created. pure (go (some created)))
  after_lookup unavailable = do
    candidate ← read (λ f. f.candidate)
    pause_retry env settings job_id candidate RetryKind.reconcile true
    pure (leave RunOutcome.retry)
  after_lookup absent = reserve_again env settings job_id

  -- The lookup of a candidate that may have been reserved before.
  unfoldable pub reconcile : Run W (Flow (Option Created))
  reconcile = do
    marked ← read (λ f. has_mark f.item)
    if marked
        then (close_client env settings job_id >> snapshot env settings job_id >>= after_lookup)
        else pure (go none)

  -- What follows a reserve that raised, other than a refusal by capacity or quota.
  unfoldable pub after_unconfirmed : Exception → Resolution → Run W (Flow Created)
  after_unconfirmed e (found remote) = complete remote
  after_unconfirmed e resolution = do
    candidate ← read (λ f. f.candidate)
    let regenerate = must_regenerate e resolution
    pause_retry env settings job_id (if regenerate then "" else candidate) (retry_kind e resolution)
        (not regenerate)
    pure (leave RunOutcome.retry)

  unfoldable pub unconfirmed : Exception → Run W (Flow Created)
  unconfirmed e =
      if is_hme e
      then (close_client env settings job_id
          >> snapshot env settings job_id
          >>= after_unconfirmed e)
      else raise e

  unfoldable pub reserve : Run W (Flow Created)
  reserve = do
    lift (raise_if_stopping env)
    begin_write env settings job_id
    remote ←
        attempt
          (with_frame λ f. lift (call (env.reserve_alias f.candidate values.label values.note)))
    on_result complete (pause_or env settings job_id (λ it. candidate_item it "" false) unconfirmed)
        remote

  -- A client that has only `create_alias`.
  unfoldable pub create_in_one_step : Run W (Flow Created)
  create_in_one_step = do
    begin_write env settings job_id
    remote ← attempt (lift (call (env.create_alias values.label values.note)))
    on_result complete (pause_or env settings job_id (λ it. it) raise) remote

  abbrev pub unless_created : Option Created → Run W (Flow Created)
  unless_created (some created) = pure (go created)
  unless_created none = reserve

  unfoldable pub create_in_two_steps : Run W (Flow Created)
  create_in_two_steps =
      and_then (generate env settings job_id) (λ _. and_then reconcile unless_created)
