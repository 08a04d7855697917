-- ===== src/Worker/Resume/Examples.antt =====
-- A wait of two seconds, with a clock that only sleep moves.
use icloud_code_gateway.Base.{ℕ, ◌+◌, ◌-◌, ◌≢◌, true, false, none, some, [], returned, arith}
use icloud_code_gateway.Aliases.Rows.{Remote}
use icloud_code_gateway.Worker.Environment.{State, Environment}
use icloud_code_gateway.Worker.Resume.{Waited, wait_for_resume}
use icloud_code_gateway.Worker.Resume.Ends.{seconds_left, Elapsed, Clock, wait_for_resume-ends}

abbrev remote : Remote
remote = record {
  hme = some "quiet.fox@icloud.com";
  email = none;
  anonymous_id = some "anonymous-1";
  is_active = some true;
  create_timestamp = none;
}

abbrev env : Environment ℕ
env = record {
  now = λ w. (w, w);
  stopping = λ w. (false, w);
  stop_wait = λ d w. (false, w + d);
  fresh_id = λ w. ("alias-1", w);
  fresh_key = λ w. ("key-1", w);
  ensure_hme_fresh = λ w. (returned tt, w);
  begin_remote_write = λ w. (returned tt, w);
  finish_remote_write = λ w. w;
  get_hme_session = λ w. (returned false, w);
  open_client = λ w. (returned tt, w);
  close_client = λ w. w;
  has_two_steps = false;
  generate_alias = λ w. (returned "quiet.fox@icloud.com", w);
  reserve_alias = λ _ _ _ w. (returned remote, w);
  create_alias = λ _ _ w. (returned remote, w);
  list_aliases = λ w. (returned [], w);
  refresh_hme_session = λ _ w. (returned tt, w);
  push_alias_to_edge = λ _ _ w. w;
  casefold = λ s. s;
  sha256 = λ s. s;
  digest = λ s. s;
}

abbrev clock : Clock env
clock = record {
  time = λ w. w;
  reading = λ w. (omega arith, omega arith);
  asked = λ w. omega arith;
  slept = λ d w h. omega arith;
}

abbrev state : State ℕ
state = record { jobs = []; aliases = []; audit = []; world = 1_000_000 }

-- The clock shows half a second less than the time that has passed.
abbrev slow : Environment ℕ
slow = record env { now = λ w. (w - 500_000, w) }

abbrev elapsed : Elapsed slow 500_000
elapsed = record {
  time = λ w. w;
  read = λ w. (omega arith, omega arith);
  asked = λ w. omega arith;
  slept = λ d w h. omega arith;
}

wait_for_resume-ends_example :
    (wait_for_resume slow 3 (some 3_000) state).0 ≢ returned Waited.out_of_fuel
unfolding seconds_left
wait_for_resume-ends_example =
    wait_for_resume-ends slow 500_000 elapsed 3_000 3 state (ground arith)
