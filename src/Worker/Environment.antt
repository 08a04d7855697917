-- ===== src/Worker/Environment.antt =====
-- What the worker of jobs.py works with: the tables of the database, and an environment of which only
-- the calls are known (the gateway, Apple's client, clocks, events and random ids), as operations on
-- its state. A method that writes and may raise is an action: what was written before the exception
-- stays written.
pub mod Actions
use icloud_code_gateway.Base.{
  ℕ, String, Bool, true, false, Option, none, some, List, Outcome, returned, raised, ◌/◌,
}
use icloud_code_gateway.Errors.{Exception, Result}
use icloud_code_gateway.Batch.Tables.{Jobs}
use icloud_code_gateway.Aliases.Rows.{Remote}
use icloud_code_gateway.Aliases.Table.{Aliases}

pub data AuditOutcome : Type 0 where
  retrying capacity_reached rate_limited succeeded unknown error : AuditOutcome

-- A row of `audit_events` that the worker writes for the event "alias_create".
pub record AuditEvent : Type 0 where
  pub outcome : AuditOutcome
  pub alias_id : Option String

pub record State (W : Type 0) : Type 0 where
  pub jobs : Jobs
  pub aliases : Aliases
  pub audit : List AuditEvent
  pub world : W

-- A method on a state.
abbrev pub Method : Type 0 → Type 0 → Type 0
Method S A = S → Result A × S

-- The calls of the worker that leave jobs.py. Each may change the state of the environment.
pub record Environment (W : Type 0) : Type 0 where
  -- microseconds since the epoch
  pub now : W → ℕ × W
  -- `_stopping()`, and `_stop.wait(seconds)`
  pub stopping : W → Bool × W
  pub stop_wait : ℕ → W → Bool × W
  -- `uuid.uuid4()` and `generate_access_key()`
  pub fresh_id : W → String × W
  pub fresh_key : W → String × W
  pub ensure_hme_fresh : W → Result (Unit {0}) × W
  pub begin_remote_write : W → Result (Unit {0}) × W
  pub finish_remote_write : W → W
  -- whether a session is configured
  pub get_hme_session : W → Result Bool × W
  pub open_client : W → Result (Unit {0}) × W
  pub close_client : W → W
  -- whether the client has `generate_alias` and `reserve_alias`
  pub has_two_steps : Bool
  pub generate_alias : W → Result String × W
  pub reserve_alias : (candidate label note : String) → W → Result Remote × W
  pub create_alias : (label note : String) → W → Result Remote × W
  -- `client.list_aliases()` and its validation
  pub list_aliases : W → Result (List Remote) × W
  pub refresh_hme_session : Bool → W → Result (Unit {0}) × W
  -- `_push_alias_to_edge`, for the id of an alias and its key
  pub push_alias_to_edge : (alias_id key : String) → W → W
  -- `str.casefold`, SHA-256 and the keyed digest of an email
  pub casefold : String → String
  pub sha256 : String → String
  pub digest : String → String
