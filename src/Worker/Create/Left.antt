-- ===== src/Worker/Create/Left.antt =====
-- How each outcome of a run leaves the item, and that the pauses and the completion leave it so.
use icloud_code_gateway.Base.{
  ℕ, String, ◌≡◌, refl, Bool, true, false, not, ◌&&◌, Option, none, some,
}
use icloud_code_gateway.Batch.Rows.{
  sealed, damaged, WaitReason, rate_limited, transient_error, capacity_reached, JobStatus, JobError,
  Item, ItemView, RetryKind,
}
use icloud_code_gateway.Batch.Tables.{ItemChange, is_success, is_unknown, is_current, change_item}
use icloud_code_gateway.Batch.Tables.Stored.{IsStored}
use icloud_code_gateway.Aliases.Rows.{Remote}
use icloud_code_gateway.Worker.Payloads.{
  Settings, waits_for, with_transient_retry, with_capacity, with_rate_limit,
}
use icloud_code_gateway.Worker.Waits.{
  transient_change, capacity_change, rate_limit_change, pause_for_transient_retry,
  pause_for_capacity, pause_for_rate_limit,
}
use icloud_code_gateway.Worker.Environment.{Environment, State, AuditOutcome}
use icloud_code_gateway.Worker.Environment.Actions.{◌>>=◌, set_status, update_item, record_audit}
use icloud_code_gateway.Worker.Frame.{RunOutcome}
use icloud_code_gateway.Worker.Create.{Values, completed_change, complete_created_alias}
use icloud_code_gateway.Worker.Triples.{
  Triple, Anything, Triple-last, Triple-first, Triple-pure, Triple-any,
}
use icloud_code_gateway.Worker.Create.Calls.{
  Stores, on_aliases-Triple, record_audit-Triple, update_item-Triple, set_status-Triple,
}

-- The item is in the queue, and its result says what it waits for.
abbrev pub is_parked : WaitReason → Item → Bool
is_parked reason it =
    not (is_current it)
    && elim it.result [ some (sealed p) ↦ waits_for reason p | some damaged ↦ false | none ↦ false ]

-- How a run leaves the item; a run that failed may have left it as it was, if the worker stops.
unfoldable pub is_left : RunOutcome → Item → Bool
is_left RunOutcome.ok it = is_success it
is_left RunOutcome.capacity it = is_parked capacity_reached it
is_left RunOutcome.rate_limited it = is_parked rate_limited it
is_left RunOutcome.retry it = is_parked transient_error it
is_left RunOutcome.stopped it = not (is_current it)
is_left RunOutcome.unknown it = is_unknown it
is_left RunOutcome.failed it = true

module _ {W : Type 0} (env : Environment W) (settings : Settings) (job_id : String) where
  -- The item of the run is stored the way that the outcome says.
  abbrev pub Leaves : ℕ → RunOutcome → State W → Type 0
  Leaves index o = Stores env job_id index (is_left o)

  -- The change, the status and the audit event of a pause.
  pub parked-Triple :
      (o : RunOutcome) (index : ℕ) (c : ItemChange) (status : JobStatus) (error : Option JobError)
      (outcome : AuditOutcome)
      → ((now : ℕ) (it : Item) → is_left o (change_item c now it) ≡ true)
      → Triple Anything Anything
          (update_item env job_id index c >>= λ _.
            set_status env job_id status error >>= λ _. record_audit outcome none)
          (λ _. Leaves index o)
  parked-Triple o index c status error outcome h =
      Triple-first Anything (Leaves index o) (update_item-Triple env job_id index (is_left o) c h)
        λ _.
          Triple-first Anything (Leaves index o)
            (set_status-Triple env job_id index (is_left o) status error)
            λ _. record_audit-Triple (IsStored job_id index (is_left o)) outcome none

  pub pause_for_transient_retry-Leaves :
      (it : ItemView) (kind : RetryKind) (reconcile : Bool)
      → Triple Anything Anything
          (pause_for_transient_retry env settings job_id it kind reconcile)
          (λ _. Leaves it.index RunOutcome.retry)
  unfolding pause_for_transient_retry is_left change_item transient_change with_transient_retry
  pause_for_transient_retry-Leaves it kind reconcile =
      Triple-last Anything (Triple-any Anything (λ s i. tt))
        λ now. parked-Triple RunOutcome.retry it.index _ _ _ _ (λ _ _. refl)

  pub pause_for_capacity-Leaves :
      (it : ItemView) (code : String)
      → Triple Anything Anything
          (pause_for_capacity env settings job_id it code)
          (λ _. Leaves it.index RunOutcome.capacity)
  unfolding pause_for_capacity is_left change_item capacity_change with_capacity
  pause_for_capacity-Leaves it code =
      Triple-first Anything (Leaves it.index RunOutcome.capacity)
        (update_item-Triple env job_id it.index (is_left RunOutcome.capacity) _ (λ _ _. refl))
        λ _. record_audit-Triple (IsStored job_id it.index (is_left RunOutcome.capacity)) _ _

  pub pause_for_rate_limit-Leaves :
      (it : ItemView) (code : String) (seconds : ℕ)
      → Triple Anything Anything
          (pause_for_rate_limit env settings job_id it code seconds)
          (λ _. Leaves it.index RunOutcome.rate_limited)
  unfolding pause_for_rate_limit is_left change_item rate_limit_change with_rate_limit
  pause_for_rate_limit-Leaves it code seconds =
      Triple-last Anything (Triple-any Anything (λ s i. tt))
        λ now. parked-Triple RunOutcome.rate_limited it.index _ _ _ _ (λ _ _. refl)

  pub complete_created_alias-Leaves :
      (index : ℕ) (values : Values) (remote : Remote)
      → Triple Anything Anything
          (complete_created_alias env job_id index values remote)
          (λ _. Leaves index RunOutcome.ok)
  unfolding complete_created_alias is_left change_item completed_change
  complete_created_alias-Leaves index values remote =
      Triple-last Anything (Triple-any Anything (λ s i. tt)) λ _.
        Triple-last Anything (Triple-any Anything (λ s i. tt)) λ alias.
          Triple-last Anything (Triple-any Anything (λ s i. tt)) λ issued.
            Triple-first Anything (Leaves index RunOutcome.ok)
              (update_item-Triple env job_id index (is_left RunOutcome.ok) _ (λ _ _. refl))
              λ _.
                Triple-first Anything (Leaves index RunOutcome.ok)
                  (record_audit-Triple (IsStored job_id index (is_left RunOutcome.ok)) _ _)
                  λ _.
                    Triple-first Anything (Leaves index RunOutcome.ok)
                      (on_aliases-Triple (IsStored job_id index (is_left RunOutcome.ok)) env _)
                      λ view. Triple-pure Anything (λ s p. p)
