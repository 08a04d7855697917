-- ===== src/Worker/Create/ReserveOutcome.antt =====
-- How the reserve of `_create_alias`, and the lookup before and after it, leave the item.
use icloud_code_gateway.Base.{ℕ, String, refl, Option, none, some}
use icloud_code_gateway.Errors.{Exception}
use icloud_code_gateway.Aliases.Rows.{Remote}
use icloud_code_gateway.Worker.Payloads.{Settings, candidate_item}
use icloud_code_gateway.Worker.Environment.{Environment}
use icloud_code_gateway.Worker.Frame.{RunOutcome, Frame}
use icloud_code_gateway.Worker.Snapshot.{Resolution, found, absent, unavailable}
use icloud_code_gateway.Worker.Create.{Values}
use icloud_code_gateway.Worker.Create.Reserve.{
  Created, is_hme, snapshot, reserve_again, begin_write, complete, after_lookup, reconcile,
  after_unconfirmed, unconfirmed, reserve, create_in_one_step, unless_created, create_in_two_steps,
}
use icloud_code_gateway.Worker.Create.Left.{complete_created_alias-Leaves}
use icloud_code_gateway.Worker.Create.Rules.{
  Kept, Flows, lift-Triple, lift-any, read-any, assign-any, with_frame-Triple, attempt-any,
  and_then-Triple, update-any, close_client-any, open_session-any,
}
use icloud_code_gateway.Worker.Triples.{
  Triple, Anything, AnyResult, Triple->>=, Triple-last, Triple-first, Triple-if, Triple-pure,
  Triple-raise,
}
use icloud_code_gateway.Worker.Create.Outcome.{
  At, change_index, pause_retry-Left, pause_or-Flows, on_result-Flows, generate-Flows,
}

module _ {W : Type 0} (env : Environment W) (settings : Settings) (job_id : String)
    (index : ℕ) where
  -- A new alias is complete when its item is.
  abbrev pub Completed : {A : Type 0} → A → Frame W → Type 0
  Completed created f = At env settings job_id index RunOutcome.ok f.state

  abbrev pub IfCompleted : Option Created → Frame W → Type 0
  IfCompleted none f = Unit
  IfCompleted (some created) f = At env settings job_id index RunOutcome.ok f.state

  snapshot-any :
      {P : Frame W → Type 0} → Triple (Kept index) P (snapshot env settings job_id) AnyResult
  unfolding snapshot
  snapshot-any = with_frame-Triple index λ t i. lift-any index _

  begin_write-any :
      {P : Frame W → Type 0} → Triple (Kept index) P (begin_write env settings job_id) AnyResult
  unfolding begin_write
  begin_write-any =
      Triple->>= (Kept index) AnyResult (update-any env settings job_id index _)
        λ _. assign-any index _ (λ f i. i)

  reserve_again-Flows :
      Triple
        (Kept index)
        Anything
        (reserve_again env settings job_id)
        (Flows env settings job_id index IfCompleted)
  unfolding reserve_again candidate_item
  reserve_again-Flows = Triple-last (Kept index) (assign-any index _ (λ f i. i)) λ _.
      Triple-last (Kept index)
        (with_frame-Triple index λ t i. update-any env settings job_id index _)
        λ _.
          Triple-last (Kept index) (open_session-any env settings job_id index)
            λ _. Triple-pure (Kept index) (λ s p. tt)

  module _ (values : Values) where
    complete-Flows :
        (remote : Remote)
        → Triple
            (Kept index)
            Anything
            (complete env settings job_id values remote)
            (Flows env settings job_id index Completed)
    unfolding complete
    complete-Flows remote = with_frame-Triple index λ t i.
        Triple-first (Kept index) (λ f. At env settings job_id index RunOutcome.ok f.state)
          (lift-Triple index (
            change_index env settings job_id index RunOutcome.ok t.item.index i
              (complete_created_alias-Leaves env settings job_id t.item.index values remote)))
          λ created. Triple-pure (Kept index) (λ s p. p)

    after_lookup-Flows :
        (r : Resolution)
        → Triple
            (Kept index)
            Anything
            (after_lookup env settings job_id values r)
            (Flows env settings job_id index IfCompleted)
    unfolding after_lookup
    after_lookup-Flows (found remote) =
        and_then-Triple env settings job_id index Completed (complete-Flows remote)
          λ created. Triple-pure (Kept index) (λ s p. p)
    after_lookup-Flows unavailable = Triple-last (Kept index) (read-any index _) λ candidate.
        Triple-first (Kept index) (λ f. At env settings job_id index RunOutcome.retry f.state)
          (pause_retry-Left env settings job_id index candidate _ _)
          λ _. Triple-pure (Kept index) (λ s p. p)
    after_lookup-Flows absent = reserve_again-Flows

    reconcile-Flows :
        Triple
          (Kept index)
          Anything
          (reconcile env settings job_id values)
          (Flows env settings job_id index IfCompleted)
    unfolding reconcile
    reconcile-Flows = Triple-last (Kept index) (read-any index _) λ marked.
        Triple-if (Kept index) marked
          (Triple-last (Kept index)
            (Triple-last (Kept index) (close_client-any env settings job_id index)
              λ _. snapshot-any)
            after_lookup-Flows)
          (Triple-pure (Kept index) (λ s p. tt))

    after_unconfirmed-Flows :
        (e : Exception) (r : Resolution)
        → Triple
            (Kept index)
            Anything
            (after_unconfirmed env settings job_id values e r)
            (Flows env settings job_id index Completed)
    unfolding after_unconfirmed
    after_unconfirmed-Flows e (found remote) = complete-Flows remote
    after_unconfirmed-Flows e absent = Triple-last (Kept index) (read-any index _) λ candidate.
        Triple-first (Kept index) (λ f. At env settings job_id index RunOutcome.retry f.state)
          (pause_retry-Left env settings job_id index _ _ _)
          λ _. Triple-pure (Kept index) (λ s p. p)
    after_unconfirmed-Flows e unavailable = Triple-last (Kept index) (read-any index _) λ candidate.
        Triple-first (Kept index) (λ f. At env settings job_id index RunOutcome.retry f.state)
          (pause_retry-Left env settings job_id index _ _ _)
          λ _. Triple-pure (Kept index) (λ s p. p)

    unconfirmed-Flows :
        (e : Exception)
        → Triple
            (Kept index)
            Anything
            (unconfirmed env settings job_id values e)
            (Flows env settings job_id index Completed)
    unfolding unconfirmed
    unconfirmed-Flows e =
        Triple-if (Kept index) (is_hme e)
          (Triple-last (Kept index)
            (Triple-last (Kept index) (close_client-any env settings job_id index)
              λ _. snapshot-any)
            (after_unconfirmed-Flows e))
          (Triple-raise (Kept index))

    reserve-Flows :
        Triple
          (Kept index)
          Anything
          (reserve env settings job_id values)
          (Flows env settings job_id index Completed)
    unfolding reserve candidate_item
    reserve-Flows = Triple-last (Kept index) (lift-any index _) λ _.
        Triple-last (Kept index) begin_write-any λ _.
          Triple-last (Kept index)
            (attempt-any index (with_frame-Triple index λ t i. lift-any index _))
            λ r.
              on_result-Flows env settings job_id index Completed _ _ complete-Flows
                (pause_or-Flows env settings job_id index Completed _ _ (λ it. refl)
                  unconfirmed-Flows)
                r

    pub create_in_one_step-Flows :
        Triple
          (Kept index)
          Anything
          (create_in_one_step env settings job_id values)
          (Flows env settings job_id index Completed)
    unfolding create_in_one_step
    create_in_one_step-Flows = Triple-last (Kept index) begin_write-any λ _.
        Triple-last (Kept index) (attempt-any index (lift-any index _)) λ r.
          on_result-Flows env settings job_id index Completed _ _ complete-Flows
            (pause_or-Flows env settings job_id index Completed _ _ (λ it. refl)
              (λ e. Triple-raise (Kept index)))
            r

    unless_created-Flows :
        (created : Option Created)
        → Triple
            (Kept index)
            (IfCompleted created)
            (unless_created env settings job_id values created)
            (Flows env settings job_id index Completed)
    unless_created-Flows none = reserve-Flows
    unless_created-Flows (some created) = Triple-pure (Kept index) (λ s p. p)

    pub create_in_two_steps-Flows :
        Triple
          (Kept index)
          Anything
          (create_in_two_steps env settings job_id values)
          (Flows env settings job_id index Completed)
    unfolding create_in_two_steps
    create_in_two_steps-Flows =
        and_then-Triple env settings job_id index (λ _ _. Unit {0})
          (generate-Flows env settings job_id index)
          λ _.
            and_then-Triple env settings job_id index IfCompleted reconcile-Flows
              unless_created-Flows
