-- ===== src/Worker/Bulk/Results.antt =====
-- What `_bulk_alias` promises for the item.
use icloud_code_gateway.Base.{
  ℕ, String, ◌≡◌, refl, ◌||◌, ◌&&◌, ◌/◌, ◌⊎◌, inl, inr, any, some, Outcome, Bool, true, false, not,
  returned,
}
use mathlib.Core.Path.{subst}
use icloud_code_gateway.Aliases.Rows.{AliasState, active, inactive, AliasView}
use icloud_code_gateway.Aliases.Table.{get_alias}
use icloud_code_gateway.Worker.Environment.Actions.{
  ◌>>=◌, ask, update_item, on_jobs, try_except, raise_if_stopping,
}
use icloud_code_gateway.Errors.{Exception}
use icloud_code_gateway.Batch.Rows.{ItemError, ItemStatus, Action, Item}
use icloud_code_gateway.Batch.Tables.{
  is_success, is_unknown, is_current, change_item, has_item, update_batch_item,
}
use icloud_code_gateway.Batch.Tables.Stored.{IsStored, update_batch_item-IsStored}
use icloud_code_gateway.Worker.Environment.{State, Environment}
use icloud_code_gateway.Worker.Bulk.{
  raise_if_stopping, require_state, Gateway, require_state, is_allowed, read_alias, is_remote_write,
  handler_change, handler_result, bulk_body, bulk_handler, bulk_alias,
}
use icloud_code_gateway.Worker.Create.Calls.{update_item-Triple}
use icloud_code_gateway.Worker.Triples.{
  Upon, Triple, Anything, Triple-last, Triple-first, Triple-pure, Triple-any, Triple-try_except,
}

abbrev is_failed_only : Item → Bool
is_failed_only it = elim it.status [ ItemStatus.failed ↦ true | _ ↦ false ]

-- The item has failed with a conflict.
abbrev pub is_refused : Item → Bool
is_refused it = is_failed_only it && elim it.error [ some ItemError.conflict ↦ true | _ ↦ false ]

-- The item after a call that returned `is_lost`: lost, or else finished, failed, or in the queue again.
abbrev pub is_settled : Bool → Item → Bool
is_settled true it = is_unknown it
is_settled false it = is_success it || is_failed_only it || not (is_current it)

module _ {W : Type 0} (env : Environment W) (gateway : Gateway W) (job_id : String) (index : ℕ)
    (action : Action) (alias_id : String) where
  abbrev Settled : Bool → State W → Type 0
  Settled is_lost s = IsStored job_id index (is_settled is_lost) s.jobs

  handler-settled :
      (remote_write : Bool) (e : Exception) (now : ℕ) (it : Item)
      → is_settled
          (handler_result remote_write e)
          (change_item (handler_change alias_id remote_write e) now it)
        ≡ true
  unfolding handler_result handler_change change_item
  handler-settled true (Exception.hme_capacity code) now it = refl
  handler-settled false (Exception.hme_capacity code) now it = refl
  handler-settled true (Exception.hme_rate_limited code seconds) now it = refl
  handler-settled false (Exception.hme_rate_limited code seconds) now it = refl
  handler-settled true Exception.hme_network now it = refl
  handler-settled false Exception.hme_network now it = refl
  handler-settled true Exception.hme_session now it = refl
  handler-settled false Exception.hme_session now it = refl
  handler-settled true Exception.hme_error now it = refl
  handler-settled false Exception.hme_error now it = refl
  handler-settled true Exception.gateway_error now it = refl
  handler-settled false Exception.gateway_error now it = refl
  handler-settled remote_write e now it = refl

  bulk_handler-Settled :
      (e : Exception)
      → Triple Anything Anything (bulk_handler env gateway job_id index action alias_id e) Settled
  unfolding bulk_handler
  bulk_handler-Settled e =
      Triple-first Anything (Settled (handler_result (is_remote_write action) e))
        (update_item-Triple env job_id index
          (is_settled (handler_result (is_remote_write action) e)) _
          (λ now it. handler-settled (is_remote_write action) e now it))
        λ _. Triple-pure Anything (λ s p. p)

  bulk_body-Settled :
      (confirmed : Bool)
      → Triple Anything Anything
          (bulk_body env gateway job_id index action alias_id confirmed)
          Settled
  unfolding bulk_body change_item
  bulk_body-Settled confirmed = Triple-last Anything (Triple-any Anything (λ s i. tt)) λ _.
      Triple-last Anything (Triple-any Anything (λ s i. tt)) λ _.
        Triple-last Anything (Triple-any Anything (λ s i. tt)) λ _.
          Triple-last Anything (Triple-any Anything (λ s i. tt)) λ a.
            Triple-first Anything (Settled false)
              (update_item-Triple env job_id index (is_settled false) _ (λ now it. refl))
              λ _. Triple-pure Anything (λ s p. p)

  pub bulk_alias-Settled :
      (confirmed : Bool)
      → Triple Anything Anything
          (bulk_alias env gateway job_id index action alias_id confirmed)
          Settled
  unfolding bulk_alias
  bulk_alias-Settled confirmed =
      Triple-try_except Anything (bulk_body-Settled confirmed) bulk_handler-Settled

  -- When `_bulk_alias` returns, the item is not left running, whatever the gateway did: it is unknown if
  -- the call returns true, and otherwise it has succeeded, has failed, or is in the queue again.
  pub bulk_alias-IsStored :
      (confirmed is_lost : Bool) (s after : State W)
      → bulk_alias env gateway job_id index action alias_id confirmed s ≡ (returned is_lost, after)
      → IsStored job_id index (is_settled is_lost) after.jobs
  bulk_alias-IsStored confirmed is_lost s after e =
      subst (λ x. Upon Settled x.0 x.1) e ((bulk_alias-Settled confirmed).run s tt tt).1

module _ {W : Type 0} (env : Environment W) (gateway : Gateway W) (job_id : String) (index : ℕ)
    (action : Action) (alias_id : String) where
  -- The state of the alias is not the one that the action requires.
  abbrev pub IsMisplaced : AliasState → Type 0
  IsMisplaced state =
      ((action ≡ Action.deactivate) × (state ≡ inactive))
      ⊎ ((action ≡ Action.delete) × (state ≡ active))

  raises_conflict :
      (confirmed : Bool) (s : State W) (a : AliasView)
      → is_remote_write action ≡ true
      → (env.stopping s.world).0 ≡ false
      → get_alias alias_id s.aliases ≡ returned a
      → is_allowed action a ≡ false
      → bulk_alias env gateway job_id index action alias_id confirmed s
        ≡ bulk_handler env gateway job_id index action alias_id Exception.conflict
            (record s { world = (env.stopping s.world).1 })
  unfolding bulk_alias bulk_body require_state read_alias raise_if_stopping ask try_except ◌>>=◌
  raises_conflict confirmed s a w n f x = rw n (rw w (rw f (rw x refl)))

  misplaced :
      (a : AliasView)
      → IsMisplaced a.state
      → (is_remote_write action ≡ true) × (is_allowed action a ≡ false)
  misplaced a (inl (act, st)) = rw act (rw st (refl, refl))
  misplaced a (inr (act, st)) = rw act (rw st (refl, refl))

  -- What a refusal leaves: the item failed with a conflict, the aliases and the audit as they were, and
  -- a world that was only asked the time.
  abbrev pub Refused : State W → W → Outcome Exception Bool × State W → Type 0
  Refused s w run =
      (run.0 ≡ returned false)
      × IsStored job_id index is_refused run.1.jobs
      × (run.1.aliases ≡ s.aliases)
      × (run.1.audit ≡ s.audit)
      × (run.1.world ≡ (env.now w).1)

  handler_refuses :
      (s : State W)
      → any (has_item job_id index) s.jobs ≡ true
      → Refused s s.world
          (bulk_handler env gateway job_id index action alias_id Exception.conflict s)
  unfolding bulk_handler handler_change handler_result update_item on_jobs update_batch_item ◌>>=◌
      change_item
  handler_refuses s hit = rw hit (
    refl,
    update_batch_item-IsStored job_id index is_refused
        (handler_change alias_id (is_remote_write action) Exception.conflict)
        ((env.now s.world).0 / 1000) s.jobs _ (λ it. refl) (rw (hit, update_batch_item) refl),
    refl,
    refl,
    refl,
  )

  -- A deactivation of an inactive alias, or a deletion of an active one, is refused while the worker is
  -- not stopping and the item's row is there: the call returns false, the item is stored as failed with
  -- a conflict, the aliases and the audit stay as they were, and outside the tables the call has only
  -- asked whether the worker stops and what time it is, so neither the gateway nor Apple is called.
  pub bulk_alias-refuses :
      (confirmed : Bool) (s : State W) (a : AliasView)
      → IsMisplaced a.state
      → (env.stopping s.world).0 ≡ false
      → get_alias alias_id s.aliases ≡ returned a
      → any (has_item job_id index) s.jobs ≡ true
      → Refused s
          (env.stopping s.world).1
          (bulk_alias env gateway job_id index action alias_id confirmed s)
  bulk_alias-refuses confirmed s a wrong n f hit =
      rw (raises_conflict confirmed s a (misplaced a wrong).0 n f (misplaced a wrong).1)
        (handler_refuses (record s { world = (env.stopping s.world).1 }) hit)
