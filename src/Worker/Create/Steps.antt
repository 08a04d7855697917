-- ===== src/Worker/Create/Steps.antt =====
-- The steps of `_create_alias` between which it may return.
use icloud_code_gateway.Base.{
  String, Bool, true, false, none, some, str_eq, or_else, if◌then◌else◌, returned, raised,
}
use icloud_code_gateway.Errors.{Exception, Result}
use icloud_code_gateway.Columns.{clean_candidate, has_one_at}
use icloud_code_gateway.Batch.Rows.{Stage, ItemStatus, RetryKind, Payload, empty, ItemView}
use icloud_code_gateway.Batch.Tables.{ItemChange}
use icloud_code_gateway.Worker.Payloads.{Settings}
use icloud_code_gateway.Worker.Waits.{pause_for_capacity, pause_for_rate_limit}
use icloud_code_gateway.Worker.Environment.{Environment}
use icloud_code_gateway.Worker.Environment.Actions.{
  ◌>>=◌, ◌>>◌, pure, raise, attempt, call, tell, update_item,
}
use icloud_code_gateway.Worker.Frame.{
  with_frame, RunOutcome, Flow, leave, go, Run, lift, read, assign,
}
use icloud_code_gateway.Worker.Snapshot.{Resolution, found, absent, unavailable}
use icloud_code_gateway.Worker.Create.{in_stage}

-- An item has this result: `item.get("result")`, and its keys.
abbrev pub has_mark : ItemView → Bool
has_mark it = elim it.result [ none ↦ false | some p ↦ p.reconcile_before_reserve ]

abbrev pub saved_candidate : ItemView → String
saved_candidate it = elim it.result [ none ↦ "" | some p ↦ or_else p.candidate "" ]

-- `{**item, "result": {"candidate": candidate}, "stage": "generated", "status": "queued"}`
abbrev pub generated_result : String → Payload
generated_result candidate = record empty { candidate = some candidate }

abbrev pub generated_item : ItemView → String → ItemView
generated_item it candidate = record it {
  result = some (generated_result candidate);
  stage = Stage.generated;
  status = ItemStatus.queued;
}

abbrev pub generated_change : Payload → ItemChange
generated_change p = record (in_stage Stage.generated ItemStatus.queued none) { result = some p }

-- The retry that follows a reserve without an answer: whether a fresh candidate is generated, and the
-- kind that is shown.
unfoldable pub must_regenerate : Exception → Resolution → Bool
must_regenerate Exception.hme_network resolution = false
must_regenerate Exception.hme_session resolution = false
must_regenerate e absent = true
must_regenerate e (found _) = false
must_regenerate e unavailable = false

abbrev kind_of : Exception → RetryKind
kind_of Exception.hme_session = RetryKind.session
kind_of Exception.hme_network = RetryKind.network
kind_of _ = RetryKind.remote_rejected

unfoldable pub retry_kind : Exception → Resolution → RetryKind
unfolding must_regenerate
retry_kind e absent = if must_regenerate e absent then kind_of e else RetryKind.reserve_unconfirmed
retry_kind e _ = kind_of e

-- `try: … except …: … else: …` around one call.
abbrev pub on_result : {W A B : Type 0} → (A → Run W B) → (Exception → Run W B) → Result A → Run W B
on_result next handler (returned a) = next a
on_result next handler (raised e) = handler e

module _ {W : Type 0} (env : Environment W) (settings : Settings) (job_id : String) where
  abbrev pub update : ItemChange → Run W (Unit {0})
  update c = with_frame λ f. lift (update_item env job_id f.item.index c)

  unfoldable pub close_client : Run W (Unit {0})
  close_client = lift (tell env.close_client) >> assign (λ f. record f { client_open = false })

  -- `session = get_hme_session()` … `client = hme_client_factory(session)`
  unfoldable pub open_session : Run W (Unit {0})
  open_session = do
    configured ← lift (call env.get_hme_session)
    if configured then pure tt else raise Exception.hme_session
    lift (call env.open_client)
    assign (λ f. record f { client_open = true })

  -- What each `except` of the two writes does, for the item that it parks on a rate limit.
  unfoldable pub pause_or :
      {A : Type 0}
      → (ItemView → ItemView)
      → (Exception → Run W (Flow A))
      → Exception
      → Run W (Flow A)
  pause_or parked otherwise (Exception.hme_capacity code) = with_frame λ f.
      lift (pause_for_capacity env settings job_id f.item code) >> pure (leave RunOutcome.capacity)
  pause_or parked otherwise (Exception.hme_rate_limited code seconds) = with_frame λ f.
      lift (pause_for_rate_limit env settings job_id (parked f.item) code seconds)
      >> pure (leave RunOutcome.rate_limited)
  pause_or parked otherwise e = otherwise e

  -- The candidate that Apple suggested.
  unfoldable pub use_suggestion : String → Run W (Flow (Unit {0}))
  use_suggestion suggestion = do
    let candidate = clean_candidate env.casefold suggestion
    assign (λ f. record f { candidate = candidate })
    if has_one_at candidate then pure tt else raise Exception.hme_error
    update (generated_change (generated_result candidate))
    assign (λ f. record f { item = generated_item f.item candidate })
    pure (go tt)

  -- A candidate: the saved one, or a new suggestion.
  unfoldable pub generate : Run W (Flow (Unit {0}))
  generate = do
    saved ← read (λ f. clean_candidate env.casefold (saved_candidate f.item))
    assign (λ f. record f { candidate = saved })
    if str_eq saved ""
        then (do
          update (in_stage Stage.generating ItemStatus.running none)
          suggestion ← attempt (lift (call env.generate_alias))
          on_result use_suggestion (pause_or (λ it. it) raise) suggestion)
        else pure (go tt)
