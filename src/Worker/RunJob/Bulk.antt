-- ===== src/Worker/RunJob/Bulk.antt =====
-- A run of a bulk item leaves the shape of its job as it is.
use icloud_code_gateway.Base.{ℕ, String, ◌≡◌, refl, Bool, true, false, sym, some}
use mathlib.Core.Path.{subst}
use icloud_code_gateway.Errors.{Exception}
use icloud_code_gateway.Batch.Rows.{Action}
use icloud_code_gateway.Batch.Tables.{ItemChange}
use icloud_code_gateway.Aliases.Rows.{AliasView}
use icloud_code_gateway.Worker.Environment.{Environment, State}
use icloud_code_gateway.Worker.Environment.Actions.{
  Worker, ◌>>=◌, pure, ask, update_item, raise_if_stopping,
}
use icloud_code_gateway.Worker.Bulk.{
  Gateway, bulk_result, handler_change, read_alias, require_state, perform, bulk_body, bulk_handler,
  bulk_alias, is_remote_write, is_allowed,
}
use icloud_code_gateway.Worker.RunJob.Shape.{waits, Shaped, update_item-Shaped}
use icloud_code_gateway.Worker.Triples.{
  Triple, Anything, AnyResult, Triple-last, Triple-if, Triple-any, Triple-raise, Triple-try_except,
}

-- The operations of the gateway do not write to the batch tables.
pub record LeavesJobs {W : Type 0} (gateway : Gateway W) : Type 0 where
  pub issued :
      (alias_id : String) (confirmed : Bool) (s : State W)
      → (gateway.issue_access_key alias_id confirmed s).1.jobs ≡ s.jobs
  pub revealed :
      (alias_id : String) (s : State W) → (gateway.reveal_access_key alias_id s).1.jobs ≡ s.jobs
  pub deactivated :
      (alias_id : String) (s : State W) → (gateway.deactivate_alias alias_id s).1.jobs ≡ s.jobs
  pub deleted :
      (alias_id confirmation : String) (s : State W)
      → (gateway.delete_alias alias_id confirmation s).1.jobs ≡ s.jobs

bulk_result-free :
    (action : Action) (alias_id : String) (a : AliasView)
    → waits (some (bulk_result action alias_id a)) ≡ false
unfolding bulk_result
bulk_result-free Action.create alias_id a = refl
bulk_result-free Action.issue_keys alias_id a = refl
bulk_result-free Action.reveal_keys alias_id a = refl
bulk_result-free Action.deactivate alias_id a = refl
bulk_result-free Action.delete alias_id a = refl

handler_change-free :
    (alias_id : String) (remote_write : Bool) (e : Exception)
    → waits (handler_change alias_id remote_write e).result ≡ false
unfolding handler_change
handler_change-free alias_id true (Exception.hme_capacity code) = refl
handler_change-free alias_id false (Exception.hme_capacity code) = refl
handler_change-free alias_id true (Exception.hme_rate_limited code seconds) = refl
handler_change-free alias_id false (Exception.hme_rate_limited code seconds) = refl
handler_change-free alias_id true Exception.hme_network = refl
handler_change-free alias_id false Exception.hme_network = refl
handler_change-free alias_id true Exception.hme_session = refl
handler_change-free alias_id false Exception.hme_session = refl
handler_change-free alias_id true Exception.hme_error = refl
handler_change-free alias_id false Exception.hme_error = refl
handler_change-free alias_id true Exception.gateway_error = refl
handler_change-free alias_id false Exception.gateway_error = refl
handler_change-free alias_id remote_write e = refl

module _ {W : Type 0} (env : Environment W) (gateway : Gateway W) (keeps : LeavesJobs gateway)
    (job_id : String) (n : ℕ) where
  abbrev I : State W → Type 0
  I s = Shaped job_id n s.jobs

  abbrev Keeps : {A : Type 0} → Worker W A → Type 0
  Keeps m = Triple I Anything m AnyResult

  same-Keeps : {A : Type 0} {m : Worker W A} → ((s : State W) → (m s).1.jobs ≡ s.jobs) → Keeps m
  same-Keeps h = Triple-any I (λ s i. subst (Shaped job_id n) (sym (h s)) i)

  pure-Keeps : {A : Type 0} {a : A} → Keeps (pure a)
  pure-Keeps = same-Keeps (λ s. refl)

  update-Keeps :
      (index : ℕ) (c : ItemChange) → waits c.result ≡ false → Keeps (update_item env job_id index c)
  update-Keeps index c h = Triple-any I (λ s i. update_item-Shaped job_id n env index c s h i)

  read_alias-Keeps : (alias_id : String) → Keeps (read_alias env gateway job_id alias_id)
  unfolding read_alias
  read_alias-Keeps alias_id = same-Keeps (λ s. refl)

  raise_if_stopping-Keeps : Keeps (raise_if_stopping env)
  unfolding raise_if_stopping ask
  raise_if_stopping-Keeps =
      Triple-last I (same-Keeps (λ s. refl)) λ stop. Triple-if I stop (Triple-raise I) pure-Keeps

  require_state-Keeps :
      (action : Action) (alias_id : String)
      → Keeps (require_state env gateway job_id action alias_id)
  unfolding require_state
  require_state-Keeps action alias_id =
      Triple-if I (is_remote_write action)
        (Triple-last I (read_alias-Keeps alias_id)
          λ a. Triple-if I (is_allowed action a) pure-Keeps (Triple-raise I))
        pure-Keeps

  deleting-Keeps :
      (alias_id : String)
      → Keeps (
          read_alias env gateway job_id alias_id >>= λ a.
          gateway.delete_alias alias_id a.email >>= λ _. pure a)
  deleting-Keeps alias_id =
      Triple-last I (read_alias-Keeps alias_id)
        λ a. Triple-last I (same-Keeps (λ s. keeps.deleted alias_id a.email s)) λ _. pure-Keeps

  perform-Keeps :
      (action : Action) (alias_id : String) (confirmed : Bool)
      → Keeps (perform env gateway job_id action alias_id confirmed)
  unfolding perform
  perform-Keeps Action.issue_keys alias_id confirmed =
      Triple-last I (same-Keeps (λ s. keeps.issued alias_id confirmed s))
        λ _. read_alias-Keeps alias_id
  perform-Keeps Action.reveal_keys alias_id confirmed =
      Triple-last I (same-Keeps (λ s. keeps.revealed alias_id s)) λ _. read_alias-Keeps alias_id
  perform-Keeps Action.deactivate alias_id confirmed =
      same-Keeps (λ s. keeps.deactivated alias_id s)
  perform-Keeps Action.create alias_id confirmed = deleting-Keeps alias_id
  perform-Keeps Action.delete alias_id confirmed = deleting-Keeps alias_id

  pub bulk_alias-Keeps :
      (index : ℕ) (action : Action) (alias_id : String) (confirmed : Bool)
      → Keeps (bulk_alias env gateway job_id index action alias_id confirmed)
  unfolding bulk_alias bulk_body bulk_handler
  bulk_alias-Keeps index action alias_id confirmed =
      Triple-try_except I
        (Triple-last I raise_if_stopping-Keeps λ _.
          Triple-last I (require_state-Keeps action alias_id) λ _.
            Triple-last I (update-Keeps index _ refl) λ _.
              Triple-last I (perform-Keeps action alias_id confirmed) λ a.
                Triple-last I (update-Keeps index _ (bulk_result-free action alias_id a))
                  λ _. pure-Keeps)
        (λ e.
          Triple-last I
            (update-Keeps index _ (handler_change-free alias_id (is_remote_write action) e))
            λ _. pure-Keeps)
