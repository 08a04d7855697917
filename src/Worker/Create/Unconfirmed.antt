-- ===== src/Worker/Create/Unconfirmed.antt =====
-- What `_create_alias` stores when Apple did not confirm a reserve.
use icloud_code_gateway.Base.{
  ◌⊎◌, inl, inr, ℕ, String, ◌≡◌, ◌≢◌, refl, ap, Bool, true, false, ◌&&◌, none, some, str_eq,
  eq_refl, eq_iff, returned, raised, arith,
}
use mathlib.Core.Path.{subst}
use icloud_code_gateway.Aliases.Rows.{Remote}
use icloud_code_gateway.Errors.{Exception, Result}
use icloud_code_gateway.Batch.Rows.{
  Stage, sealed, damaged, Item, ItemView, RetryKind, transient_error,
}
use icloud_code_gateway.Batch.Tables.{change_item}
use icloud_code_gateway.Batch.Tables.Stored.{IsStored}
use icloud_code_gateway.Worker.Payloads.{Settings, candidate_item, with_transient_retry}
use icloud_code_gateway.Worker.Waits.{transient_change, pause_for_transient_retry}
use icloud_code_gateway.Worker.Environment.{Environment}
use icloud_code_gateway.Worker.Environment.Actions.{continue, Worker, pure, ◌>>=◌}
use icloud_code_gateway.Worker.Frame.{RunOutcome, Flow, leave, Frame, lift, read, with_frame}
use icloud_code_gateway.Worker.Snapshot.{Resolution, found, absent, unavailable}
use icloud_code_gateway.Worker.Create.{Values}
use icloud_code_gateway.Worker.Create.Steps.{must_regenerate, retry_kind}
use icloud_code_gateway.Worker.Create.Reserve.{Created, pause_retry, after_unconfirmed}
use icloud_code_gateway.Worker.Create.Calls.{
  Stores, update_item-Triple, set_status-Triple, record_audit-Triple,
}
use icloud_code_gateway.Worker.Create.Left.{is_parked}
use icloud_code_gateway.Worker.Triples.{
  Upon, Triple, Anything, Triple-last, Triple-first, Triple-any,
}

-- The result keeps the candidate, and the mark that it must be looked up before it is reserved again.
abbrev pub keeps_candidate : String → Item → Bool
keeps_candidate candidate it = elim it.result [
  | none ↦ false
  | some damaged ↦ false
  | some (sealed p) ↦
      p.reconcile_before_reserve && elim p.candidate [ none ↦ false | some c ↦ str_eq c candidate ]
]

-- The item waits for a retry that first looks the candidate up.
unfoldable pub awaits_lookup : String → Item → Bool
awaits_lookup candidate it =
    is_parked transient_error it
    && elim it.stage [ Stage.waiting_reconcile ↦ true | _ ↦ false ]
    && keeps_candidate candidate it

module _ {W : Type 0} (env : Environment W) (settings : Settings) (job_id : String) where
  awaits-change :
      (it : ItemView) (candidate : String) (kind : RetryKind) (at now : ℕ) (row : Item)
      → str_eq candidate "" ≡ false
      → awaits_lookup candidate (
          change_item
            (transient_change kind (
              with_transient_retry settings at kind true (candidate_item it candidate true).result))
            now
            row)
        ≡ true
  unfolding awaits_lookup change_item transient_change with_transient_retry candidate_item
  awaits-change it candidate kind at now row ne = ground (arith, eq_refl candidate)

  pause-awaits :
      (it : ItemView) (candidate : String) (kind : RetryKind)
      → str_eq candidate "" ≡ false
      → Triple Anything Anything
          (pause_for_transient_retry env settings job_id
            (candidate_item it candidate true)
            kind
            true)
          (λ _ s. IsStored job_id it.index (awaits_lookup candidate) s.jobs)
  unfolding pause_for_transient_retry candidate_item
  pause-awaits it candidate kind ne = Triple-last Anything (Triple-any Anything (λ s i. tt)) λ now.
      Triple-first Anything (Stores env job_id it.index (awaits_lookup candidate))
        (update_item-Triple env job_id it.index (awaits_lookup candidate) _
          (λ at row. awaits-change it candidate kind now at row ne))
        λ _.
          Triple-first Anything (Stores env job_id it.index (awaits_lookup candidate))
            (set_status-Triple env job_id it.index (awaits_lookup candidate) _ _)
            λ _. record_audit-Triple (IsStored job_id it.index (awaits_lookup candidate)) _ _

  pause_retry-awaits :
      (f : Frame W) (kind : RetryKind)
      → str_eq f.candidate "" ≡ false
      → Upon
          (λ _ g. IsStored job_id f.item.index (awaits_lookup f.candidate) g.state.jobs)
          (pause_retry env settings job_id f.candidate kind true f).0
          (pause_retry env settings job_id f.candidate kind true f).1
  unfolding pause_retry with_frame lift
  pause_retry-awaits f kind ne =
      lifted (record f { state = (pause f.state).1 }) (pause f.state).0
        ((pause-awaits f.item f.candidate kind ne).run f.state tt tt).1
    where
      pause : Worker W (Unit {0})
      pause =
          pause_for_transient_retry env settings job_id (candidate_item f.item f.candidate true)
            kind true

      lifted :
          (g : Frame W) (r : Result (Unit {0}))
          → Upon (λ _ s. IsStored job_id f.item.index (awaits_lookup f.candidate) s.jobs) r g.state
          → Upon (λ _ h. IsStored job_id f.item.index (awaits_lookup f.candidate) h.state.jobs) r g
      lifted g (returned a) q = q
      lifted g (raised e) q = tt

  -- The return after a pause that went through.
  settle :
      (Q : Frame W → Type 0) (x : Flow Created) (g h : Frame W) (r : Result (Unit {0}))
      → Upon (λ _. Q) r h
      → continue r (λ _. pure (leave RunOutcome.retry)) h ≡ (returned x, g)
      → (x ≡ leave RunOutcome.retry) × Q g
  settle Q x g h (returned a) q e = (cc (ap (λ y. y.0) e), subst Q (ap (λ y. y.1) e) q)
  settle Q x g h (raised z) q e = absurd (cc (ap (λ y. y.0) e))

  -- Whether Apple may hold the address after all: the answer to the reserve was lost, or the list of
  -- addresses could not be read.
  abbrev pub IsOpen : Exception → Resolution → Type 0
  IsOpen e r = (e ≡ Exception.hme_network) ⊎ (e ≡ Exception.hme_session) ⊎ (r ≡ unavailable)

  open-keeps : (e : Exception) (r : Resolution) → IsOpen e r → must_regenerate e r ≡ false
  unfolding must_regenerate
  open-keeps e r (inl network) = rw network refl
  open-keeps e r (inr (inl session)) = rw session refl
  open-keeps Exception.hme_network r (inr (inr unread)) = refl
  open-keeps Exception.hme_session r (inr (inr unread)) = refl
  open-keeps e r (inr (inr unread)) = rw unread refl

  -- When a reserve of a candidate fails because the connection or the session was lost, or for another
  -- reason while the list of addresses cannot be read, and the lookup did not find the candidate, then a
  -- run that gets through its pause returns "retry", and the item waits for a retry with that candidate
  -- and the mark that it must be looked up before it is reserved again.
  pub after_unconfirmed-awaits :
      (values : Values) (f g : Frame W) (e : Exception) (r : Resolution) (x : Flow Created)
      → f.candidate ≢ ""
      → ((remote : Remote) → r ≢ found remote)
      → IsOpen e r
      → after_unconfirmed env settings job_id values e r f ≡ (returned x, g)
      → (x ≡ leave RunOutcome.retry)
        × IsStored job_id f.item.index (awaits_lookup f.candidate) g.state.jobs
  unfolding after_unconfirmed read ◌>>=◌
  after_unconfirmed-awaits values f g e (found remote) x ne nf m run = absurd (nf remote refl)
  after_unconfirmed-awaits values f g e absent x ne nf m run =
      settle (λ h. IsStored job_id f.item.index (awaits_lookup f.candidate) h.state.jobs) x g _ _
        (pause_retry-awaits f (retry_kind e absent) (ground (arith, eq_iff f.candidate "")))
        (rw (open-keeps e absent m) at run)
  after_unconfirmed-awaits values f g e unavailable x ne nf m run =
      settle (λ h. IsStored job_id f.item.index (awaits_lookup f.candidate) h.state.jobs) x g _ _
        (pause_retry-awaits f (retry_kind e unavailable) (ground (arith, eq_iff f.candidate "")))
        (rw (open-keeps e unavailable m) at run)
