-- ===== src/Worker/Create/Results.antt =====
-- What `_create_alias` promises for each outcome that it returns.
use icloud_code_gateway.Base.{ℕ, String, ◌≡◌, ◌≢◌, refl, sym, ◌∙◌, ap, true, returned, arith}
use mathlib.Core.Path.{subst}
use icloud_code_gateway.Errors.{Exception}
use icloud_code_gateway.Batch.Rows.{Item, ItemView}
use icloud_code_gateway.Batch.Tables.{Jobs, ItemChange, change_item}
use icloud_code_gateway.Batch.Tables.Stored.{IsStored}
use icloud_code_gateway.Worker.Payloads.{Settings}
use icloud_code_gateway.Worker.Environment.{Environment, State}
use icloud_code_gateway.Worker.Environment.Actions.{◌>>=◌, tell}
use icloud_code_gateway.Worker.Frame.{
  RunOutcome, Flow, leave, go, Frame, start_frame, lift, read, assign,
}
use icloud_code_gateway.Worker.Create.{Values}
use icloud_code_gateway.Worker.Create.Steps.{update, close_client}
use icloud_code_gateway.Worker.Create.Reserve.{Created}
use icloud_code_gateway.Worker.Create.Run.{
  is_session, stopped_change, close_if_open, finish_body, create_body, on_stopping,
  refresh_if_session, on_connection, give_up, give_up_unknown, on_other, on_exception, clean_up,
  guarded, create_alias,
}
use icloud_code_gateway.Worker.Create.Left.{is_left, pause_for_capacity-Leaves}
use icloud_code_gateway.Worker.Create.Calls.{update_item-Triple, record_audit-Triple, tell-Triple}
use icloud_code_gateway.Worker.Create.Rules.{
  Kept, Left, Flows, lift-Triple, lift-any, read-any, read-Triple, close_client-keeps, assign-any,
  with_frame-Triple, attempt-any, update-any, open_session-any,
}
use icloud_code_gateway.Worker.Create.Outcome.{At, change_index, pause_retry-Left}
use icloud_code_gateway.Worker.Create.ReserveOutcome.{
  Completed, create_in_one_step-Flows, create_in_two_steps-Flows,
}
use icloud_code_gateway.Worker.Triples.{
  Upon, Triple, Anything, AnyResult, Triple->>=, Triple-last, Triple-first, Triple-if, Triple-pure,
  Triple-try_except,
}

module _ {W : Type 0} (env : Environment W) (settings : Settings) (job_id : String) where
  clean_up-jobs : (f : Frame W) → (clean_up env settings job_id f).1.state.jobs ≡ f.state.jobs
  unfolding clean_up close_if_open close_client read assign lift tell ◌>>=◌
  clean_up-jobs f = ground arith

  module _ (index : ℕ) where
    update-Left :
        (o : RunOutcome) (c : ItemChange)
        → ((now : ℕ) (it : Item) → is_left o (change_item c now it) ≡ true)
        → Triple
            (Kept index)
            Anything
            (update env settings job_id c)
            (λ _ f. At env settings job_id index o f.state)
    update-Left o c h = with_frame-Triple index λ t i. lift-Triple index (
        change_index env settings job_id index o t.item.index i
          (update_item-Triple env job_id t.item.index (is_left o) c h))

    close_if_open-keeps :
        (Q : Jobs → Type 0)
        → Triple
            (Kept index)
            (λ f. Q f.state.jobs)
            (close_if_open env settings job_id)
            (λ _ f. Q f.state.jobs)
    unfolding close_if_open
    close_if_open-keeps Q =
        Triple-first (Kept index) (λ f. Q f.state.jobs) (read-Triple index _)
          λ is_open.
            Triple-if (Kept index) is_open (close_client-keeps env settings job_id index Q)
              (Triple-pure (Kept index) (λ s p. p))

    finish_body-Left :
        (x : Flow Created)
        → Triple
            (Kept index)
            (Flows env settings job_id index (Completed env settings job_id index) x)
            (finish_body env settings job_id x)
            (Left env settings job_id index)
    unfolding finish_body
    finish_body-Left (leave o) = Triple-pure (Kept index) (λ s p. p)
    finish_body-Left (go (alias_id, key)) =
        Triple-first (Kept index) (λ f. IsStored job_id index (is_left RunOutcome.ok) f.state.jobs)
          (close_if_open-keeps (IsStored job_id index (is_left RunOutcome.ok)))
          λ _.
            Triple-first (Kept index)
              (λ f. IsStored job_id index (is_left RunOutcome.ok) f.state.jobs)
              (lift-Triple index (tell-Triple (IsStored job_id index (is_left RunOutcome.ok)) _))
              λ _. Triple-pure (Kept index) (λ s p. p)

    create_body-Left :
        (values : Values)
        → Triple
            (Kept index)
            Anything
            (create_body env settings job_id values)
            (Left env settings job_id index)
    unfolding create_body
    create_body-Left values = Triple-last (Kept index) (lift-any index _) λ _.
        Triple-last (Kept index) (lift-any index _) λ _.
          Triple-last (Kept index) (lift-any index _) λ _.
            Triple-last (Kept index) (lift-any index _) λ _.
              Triple-last (Kept index) (assign-any index _ (λ f i. i)) λ _.
                Triple-last (Kept index) (open_session-any env settings job_id index) λ _.
                  Triple->>= (Kept index)
                    (Flows env settings job_id index (Completed env settings job_id index))
                    (Triple-if (Kept index) env.has_two_steps
                      (create_in_two_steps-Flows env settings job_id index values)
                      (create_in_one_step-Flows env settings job_id index values))
                    finish_body-Left

    on_stopping-Left :
        Triple
          (Kept index)
          Anything
          (on_stopping env settings job_id)
          (Left env settings job_id index)
    unfolding on_stopping stopped_change is_left change_item
    on_stopping-Left =
        Triple-first (Kept index) (λ f. At env settings job_id index RunOutcome.stopped f.state)
          (with_frame-Triple index λ t i. update-Left RunOutcome.stopped _ (λ _ _. refl))
          λ _. Triple-pure (Kept index) (λ s p. p)

    refresh-any :
        (e : Exception)
        → Triple (Kept index) Anything (refresh_if_session env settings job_id e) AnyResult
    unfolding refresh_if_session
    refresh-any e =
        Triple-if (Kept index) (is_session e)
          (Triple-last (Kept index)
            (attempt-any index (with_frame-Triple index λ t i. lift-any index _))
            λ _. Triple-pure (Kept index) (λ s p. tt))
          (Triple-pure (Kept index) (λ s p. tt))

    on_connection-Left :
        (e : Exception)
        → Triple
            (Kept index)
            Anything
            (on_connection env settings job_id e)
            (Left env settings job_id index)
    unfolding on_connection
    on_connection-Left e = Triple-last (Kept index) (refresh-any e) λ _.
        Triple-first (Kept index) (λ f. At env settings job_id index RunOutcome.retry f.state)
          (with_frame-Triple index λ t i. pause_retry-Left env settings job_id index _ _ _)
          λ _. Triple-pure (Kept index) (λ s p. p)

    give_up_unknown-Left :
        Triple
          (Kept index)
          Anything
          (give_up_unknown env settings job_id)
          (Left env settings job_id index)
    unfolding give_up_unknown is_left change_item
    give_up_unknown-Left =
        Triple-first (Kept index)
          (λ f. IsStored job_id index (is_left RunOutcome.unknown) f.state.jobs)
          (update-Left RunOutcome.unknown _ (λ _ _. refl))
          λ _.
            Triple-first (Kept index)
              (λ f. IsStored job_id index (is_left RunOutcome.unknown) f.state.jobs)
              (lift-Triple index
                (record_audit-Triple (IsStored job_id index (is_left RunOutcome.unknown)) _ _))
              λ _. Triple-pure (Kept index) (λ s p. p)

    on_other-Left :
        (e : Exception)
        → Triple
            (Kept index)
            Anything
            (on_other env settings job_id e)
            (Left env settings job_id index)
    unfolding on_other give_up
    on_other-Left e = Triple-last (Kept index) (read-any index _) λ attempted.
        Triple-if (Kept index) attempted give_up_unknown-Left (
          Triple-last (Kept index) (lift-any index _) λ stop.
            Triple-if (Kept index) stop (Triple-pure (Kept index) (λ s p. tt)) (
              Triple-last (Kept index) (update-any env settings job_id index _) λ _.
                Triple-last (Kept index) (lift-any index _)
                  λ _. Triple-pure (Kept index) (λ s p. tt)))

    on_exception-Left :
        (e : Exception)
        → Triple
            (Kept index)
            Anything
            (on_exception env settings job_id e)
            (Left env settings job_id index)
    unfolding on_exception
    on_exception-Left (Exception.hme_capacity code) = with_frame-Triple index λ t i.
        Triple-first (Kept index) (λ f. At env settings job_id index RunOutcome.capacity f.state)
          (lift-Triple index (
            change_index env settings job_id index RunOutcome.capacity t.item.index i
              (pause_for_capacity-Leaves env settings job_id t.item code)))
          λ _. Triple-pure (Kept index) (λ s p. p)
    on_exception-Left Exception.gateway_stopping = on_stopping-Left
    on_exception-Left Exception.hme_network = on_connection-Left Exception.hme_network
    on_exception-Left Exception.hme_session = on_connection-Left Exception.hme_session
    on_exception-Left e = on_other-Left e

  guarded-Left :
      (index : ℕ) (values : Values)
      → Triple
          (Kept index)
          Anything
          (guarded env settings job_id values)
          (Left env settings job_id index)
  unfolding guarded
  guarded-Left index values =
      Triple-try_except (Kept index) (create_body-Left index values) (on_exception-Left index)

  by_outcome :
      (index : ℕ) (o : RunOutcome) (f : Frame W)
      → o ≢ RunOutcome.failed
      → Left env settings job_id index o f
      → IsStored job_id index (is_left o) f.state.jobs
  by_outcome index RunOutcome.failed f ne l = absurd (ne refl)
  by_outcome index RunOutcome.ok f ne l = l
  by_outcome index RunOutcome.capacity f ne l = l
  by_outcome index RunOutcome.rate_limited f ne l = l
  by_outcome index RunOutcome.retry f ne l = l
  by_outcome index RunOutcome.stopped f ne l = l
  by_outcome index RunOutcome.unknown f ne l = l

  -- When `_create_alias` returns an outcome other than `failed`, the item is stored the way that the
  -- outcome says, whatever Apple, the clock and the gateway answered on the way: finished, in the queue
  -- with the wait that the outcome names, in the queue, or unknown. So it is never left running.
  pub create_alias-IsStored :
      (values : Values) (it : ItemView) (s after : State W) (o : RunOutcome)
      → create_alias env settings job_id values it s ≡ (returned o, after)
      → o ≢ RunOutcome.failed
      → IsStored job_id it.index (is_left o) after.jobs
  unfolding create_alias
  create_alias-IsStored values it s after o e ne =
      let run = guarded env settings job_id values (start_frame it s) in
      let known = (guarded-Left it.index values).run (start_frame it s) refl tt in
      let outcome : run.0 ≡ returned o = ap (λ x. x.0) e in
      let state : (clean_up env settings job_id run.1).1.state ≡ after = ap (λ x. x.1) e in
      let left : Left env settings job_id it.index o run.1 =
        subst (λ r. Upon (Left env settings job_id it.index) r run.1) outcome known.1 in
      let jobs : run.1.state.jobs ≡ after.jobs =
        sym (clean_up-jobs run.1) ∙ ap (λ t. t.jobs) state in
      subst (IsStored job_id it.index (is_left o)) jobs (by_outcome it.index o run.1 ne left)
