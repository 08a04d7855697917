-- ===== src/Worker/Frame.antt =====
-- The local variables of `_create_alias` of jobs.py, which its exception handlers read, and its early
-- returns.
use icloud_code_gateway.Base.{String, Bool, false}
use icloud_code_gateway.Batch.Rows.{ItemView}
use icloud_code_gateway.Worker.Environment.{Method, State}
use icloud_code_gateway.Worker.Environment.Actions.{Worker, ◌>>=◌, pure}

-- What a run of an item returns.
pub data RunOutcome : Type 0 where
  ok capacity rate_limited retry stopped unknown failed : RunOutcome

-- A part of a method has returned from the method, or goes on with a value.
pub data Flow (A : Type 0) : Type 0 where
  leave : RunOutcome → Flow A
  go : A → Flow A

pub record Frame (W : Type 0) : Type 0 where
  pub state : State W
  pub item : ItemView
  pub candidate : String
  pub write_started : Bool
  pub write_attempted : Bool
  -- `client is not None`
  pub client_open : Bool

abbrev pub Run : Type 0 → Type 0 → Type 0
Run W A = Method (Frame W) A

-- The variables at the start of the method.
abbrev pub start_frame : {W : Type 0} → ItemView → State W → Frame W
start_frame it s = record {
  state = s;
  item = it;
  candidate = "";
  write_started = false;
  write_attempted = false;
  client_open = false;
}

module _ {W A : Type 0} where
  unfoldable pub lift : Worker W A → Run W A
  lift m f = ((m f.state).0, record f { state = (m f.state).1 })

  -- A part of the method that reads the variables as they are.
  unfoldable pub with_frame : (Frame W → Run W A) → Run W A
  with_frame g f = g f f

  unfoldable pub read : (Frame W → A) → Run W A
  read g = λ f. pure (g f) f

module _ {W : Type 0} where
  unfoldable pub assign : (Frame W → Frame W) → Run W (Unit {0})
  assign g = λ f. pure tt (g f)

module _ {W A B : Type 0} where
  abbrev pub continue_flow : (A → Run W (Flow B)) → Flow A → Run W (Flow B)
  continue_flow k (leave o) = pure (leave o)
  continue_flow k (go a) = k a

  -- The rest of the method, unless it has returned.
  unfoldable pub and_then : Run W (Flow A) → (A → Run W (Flow B)) → Run W (Flow B)
  and_then m k = m >>= continue_flow k
