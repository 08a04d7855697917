-- ===== src/Service/Gate.antt =====
-- The order of remote writes and of Apple's lists in service.py: `_begin_remote_write`,
-- `_finish_remote_write`, `_begin_alias_snapshot` and `_commit_alias_snapshot`. What is done under
-- `_hme_lock` is one step.
pub mod Overlaps
mod Examples
use icloud_code_gateway.Base.{
  ℕ, suc, ◌+◌, String, Bool, true, false, not, ◌&&◌, ◌||◌, Option, none, some, List, [], ◌∷◌, ◌++◌,
  ◌==◌, if◌then◌else◌, coalesce, returned, raised,
}
use icloud_code_gateway.Errors
use icloud_code_gateway.Errors.{Exception, Result}
use icloud_code_gateway.Service.Snapshot.{Tables, Turn, reconcile_remote_aliases}

pub record Gate : Type 0 where
  -- `_stop_event`
  pub stop : Bool
  -- `_remote_write_lock` is held
  pub write_lock : Bool
  pub remote_write_active : Bool
  pub alias_generation : ℕ

abbrev pub busy : Exception
busy = Exception.other "GatewayBusyError"

-- `_begin_remote_write`, up to the lock of remote writes, which does not wait.
unfoldable pub acquire_write : Gate → Result (Unit {0}) × Gate
acquire_write g =
    if g.stop
    then (raised Exception.gateway_stopping, g)
    else if g.write_lock
    then (raised busy, g)
    else (returned tt, record g { write_lock = true })

-- The rest of it, under `_hme_lock`; a stop gives the lock of remote writes back.
unfoldable pub activate_write : Gate → Result (Unit {0}) × Gate
activate_write g =
    if g.stop then (raised Exception.gateway_stopping, record g { write_lock = false }) else (
      returned tt,
      record g { remote_write_active = true; alias_generation = g.alias_generation + 1 },
    )

abbrev then_activate : Result (Unit {0}) × Gate → Result (Unit {0}) × Gate
then_activate (raised e, g) = (raised e, g)
then_activate (returned _, g) = activate_write g

-- `_begin_remote_write`, if no other thread comes between its two steps.
unfoldable pub begin_remote_write : Gate → Result (Unit {0}) × Gate
unfolding acquire_write activate_write
begin_remote_write g = then_activate (acquire_write g)

-- `_finish_remote_write`, in its two steps.
unfoldable pub deactivate_write : Gate → Gate
deactivate_write g = record g { remote_write_active = false }

unfoldable pub release_write : Gate → Gate
release_write g = record g { write_lock = false }

unfoldable pub finish_remote_write : Gate → Gate
unfolding deactivate_write release_write
finish_remote_write g = release_write (deactivate_write g)

-- `self._alias_generation += 1`, after a change of the table that is not a list's.
unfoldable pub bump : Gate → Gate
bump g = record g { alias_generation = g.alias_generation + 1 }

unfoldable pub begin_alias_snapshot : (allow_during_write : Bool) → Gate → Result ℕ
begin_alias_snapshot allow g =
    if g.remote_write_active && not allow then raised busy else returned g.alias_generation

-- The test of `_commit_alias_snapshot`: the list is not stale.
unfoldable pub may_commit : (allow_during_write : Bool) (generation : ℕ) → Gate → Bool
may_commit allow generation g =
    not ((g.remote_write_active && not allow) || not (generation == g.alias_generation))

-- The service: its gate, the tables and the session that is stored.
pub record Service (S : Type 0) : Type 0 where
  pub gate : Gate
  pub tables : Tables
  pub session : Option S

module _ {S : Type 0} (casefold digest : String → String) where
  abbrev with_event : String → String → Service S → Service S
  with_event type outcome s = record s {
    tables = record s.tables { audit = s.tables.audit ++ (type, outcome) ∷ [] };
  }

  abbrev after_reconcile :
      String → String → Service S → Result (Unit {0}) × Tables → Result Bool × Service S
  after_reconcile type outcome s (raised e, t) = (raised e, record s { tables = t })
  after_reconcile type outcome s (returned _, t) =
      (returned true, with_event type outcome (record s { tables = t; gate = bump s.gate }))

  -- `_commit_alias_snapshot`, for the entries at their turns and the times of the reconciliation.
  unfoldable pub commit_alias_snapshot :
      (xs : List Turn) (synced_at now generation : ℕ) (event_type event_outcome : String)
      (session : Option S) (allow_during_write : Bool)
      → Service S
      → Result Bool × Service S
  unfolding may_commit bump reconcile_remote_aliases
  commit_alias_snapshot xs synced_at now generation type outcome session allow s =
      if not (may_commit allow generation s.gate)
      then (returned false, with_event type "discarded_stale" s)
      else (let saved = record s { session = coalesce session s.session } in
          after_reconcile type outcome saved (
            if allow
            then (returned tt, s.tables)
            else reconcile_remote_aliases casefold digest synced_at xs now s.tables))
