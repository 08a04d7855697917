-- ===== src/Worker/Create/Run.antt =====
-- `_create_alias` as a whole: the body, its exception handlers, and what it does at the end of every
-- path.
use icloud_code_gateway.Base.{
  String, Bool, true, false, not, ◌&&◌, ◌||◌, none, some, str_eq, if◌then◌else◌,
}
use icloud_code_gateway.Errors.{Exception, type_name}
use icloud_code_gateway.Batch.Rows.{Stage, ItemStatus, RetryKind, ItemError, ItemView}
use icloud_code_gateway.Batch.Tables.{ItemChange}
use icloud_code_gateway.Worker.Payloads.{Settings, candidate_item}
use icloud_code_gateway.Worker.Waits.{pause_for_capacity}
use icloud_code_gateway.Worker.Environment.{Environment, AuditOutcome}
use icloud_code_gateway.Worker.Environment.Actions.{
  try_except, Worker, ◌>>=◌, ◌>>◌, pure, attempt, ask, call, tell, record_audit, raise_if_stopping,
}
use icloud_code_gateway.Worker.Frame.{
  with_frame, RunOutcome, Flow, leave, go, Frame, Run, start_frame, lift, read, assign,
}
use icloud_code_gateway.Worker.Create.{Values, in_stage}
use icloud_code_gateway.Worker.Create.Steps.{has_mark, update, close_client, open_session}
use icloud_code_gateway.Worker.Create.Reserve.{
  Created, pause_retry, create_in_one_step, create_in_two_steps,
}

-- `bool(candidate and (remote_write_attempted or prior_reconcile))`
abbrev pub needs_reconcile : {W : Type 0} → Frame W → Bool
needs_reconcile f = not (str_eq f.candidate "") && (f.write_attempted || has_mark f.item)

abbrev pub is_session : Exception → Bool
is_session Exception.hme_session = true
is_session _ = false

-- What the handler of `GatewayStoppingError` stores.
unfoldable pub stopped_change : {W : Type 0} → Frame W → ItemChange
unfolding candidate_item
stopped_change f =
    let it = candidate_item f.item f.candidate (needs_reconcile f) in
    record {
      stage = it.stage;
      status = ItemStatus.queued;
      alias_id = none;
      result = it.result;
      error = none;
    }

module _ {W : Type 0} (env : Environment W) (settings : Settings) (job_id : String) where
  unfoldable pub close_if_open : Run W (Unit {0})
  close_if_open = read (λ f. f.client_open) >>= λ is_open.
      if is_open then close_client env settings job_id else pure tt

  -- The end of the body; a failed push is recorded elsewhere and ignored here.
  unfoldable pub finish_body : Flow Created → Run W RunOutcome
  finish_body (leave o) = pure o
  finish_body (go (alias_id, key)) = do
    close_if_open
    lift (tell (env.push_alias_to_edge alias_id key))
    pure RunOutcome.ok

  unfoldable pub on_stopping : Run W RunOutcome
  on_stopping =
      (with_frame λ f. update env settings job_id (stopped_change f)) >> pure RunOutcome.stopped

  -- `refresh(during_write=remote_write_started)`, whose exceptions are suppressed.
  unfoldable pub refresh_if_session : Exception → Run W (Unit {0})
  refresh_if_session e =
      if is_session e
      then (attempt (with_frame λ f. lift (call (env.refresh_hme_session f.write_started)))
          >> pure tt)
      else pure tt

  unfoldable pub on_connection : Exception → Run W RunOutcome
  on_connection e = do
    refresh_if_session e
    with_frame λ f.
        pause_retry env settings job_id f.candidate
          (if is_session e then RetryKind.session else RetryKind.network) (needs_reconcile f)
    pure RunOutcome.retry

  unfoldable pub give_up : Exception → Run W RunOutcome
  give_up e = do
    update env settings job_id
        (in_stage Stage.failed ItemStatus.failed (some (ItemError.type_named (type_name e))))
    lift (record_audit AuditOutcome.error none)
    pure RunOutcome.failed

  unfoldable pub give_up_unknown : Run W RunOutcome
  give_up_unknown = do
    update env settings job_id
        (in_stage Stage.unknown ItemStatus.unknown (some ItemError.outcome_unknown))
    lift (record_audit AuditOutcome.unknown none)
    pure RunOutcome.unknown

  -- `except Exception`: whether the worker stops is asked only before a write.
  unfoldable pub on_other : Exception → Run W RunOutcome
  on_other e = do
    attempted ← read (λ f. f.write_attempted)
    if attempted
        then give_up_unknown
        else (lift (ask env.stopping) >>= λ stop.
            if stop then pure RunOutcome.failed else give_up e)

  unfoldable pub on_exception : Exception → Run W RunOutcome
  on_exception (Exception.hme_capacity code) =
      with_frame
        λ f. lift (pause_for_capacity env settings job_id f.item code) >> pure RunOutcome.capacity
  on_exception Exception.gateway_stopping = on_stopping
  on_exception Exception.hme_network = on_connection Exception.hme_network
  on_exception Exception.hme_session = on_connection Exception.hme_session
  on_exception e = on_other e

  -- `finally`, for the variables that the rest has left.
  unfoldable pub clean_up : Run W (Unit {0})
  clean_up = do
    close_if_open
    started ← read (λ f. f.write_started)
    if started then lift (tell env.finish_remote_write) else pure tt

module _ {W : Type 0} (env : Environment W) (settings : Settings) (job_id : String)
    (values : Values) where
  unfoldable pub create_body : Run W RunOutcome
  create_body = do
    lift (raise_if_stopping env)
    lift (call env.ensure_hme_fresh)
    lift (raise_if_stopping env)
    lift (call env.begin_remote_write)
    assign (λ f. record f { write_started = true })
    open_session env settings job_id
    created ←
        (if env.has_two_steps
          then create_in_two_steps env settings job_id values
          else create_in_one_step env settings job_id values)
    finish_body env settings job_id created

  unfoldable pub guarded : Run W RunOutcome
  guarded = try_except create_body (on_exception env settings job_id)

  -- `_create_alias`
  unfoldable pub create_alias : ItemView → Worker W RunOutcome
  create_alias it s =
      let run = guarded (start_frame it s) in (run.0, (clean_up env settings job_id run.1).1.state)
