-- ===== src/Worker/Create/Examples.antt =====
-- Runs of `_create_alias` of jobs.py: one that succeeds, and one whose reserve is lost.
use icloud_code_gateway.Base.{
  arith, inl, strip, chars, any_char, raised, ◌≡◌, ◌≢◌, refl, true, false, none, some, [], ◌∷◌,
  eq_iff, returned,
}
use icloud_code_gateway.Errors.{Exception}
use icloud_code_gateway.Worker.Requests.{create_alias_job}
use icloud_code_gateway.Worker.Requests.Accepted.{Accepted}
use icloud_code_gateway.Worker.Create.Refused.{complete_created_alias-refuses_note}
use icloud_code_gateway.Columns.{clean_text, clean_candidate, has_one_at}
use icloud_code_gateway.Batch.Tables.{Jobs, update_batch_item, set_batch_job_status}
use icloud_code_gateway.Aliases.Rows.{alias_from_row}
use icloud_code_gateway.Aliases.Table.{upsert_alias, get_alias, issue_access_key}
use icloud_code_gateway.Worker.Payloads.{candidate_item}
use icloud_code_gateway.Worker.Waits.{pause_for_transient_retry}
use icloud_code_gateway.Worker.Environment.Actions.{
  ◌>>=◌, try_except, ask, call, tell, attempt, update_item, on_jobs, on_aliases, set_status,
  record_audit, raise_if_stopping,
}
use icloud_code_gateway.Worker.Frame.{lift, read, assign, with_frame, and_then}
use icloud_code_gateway.Worker.Snapshot.{remote_email}
use icloud_code_gateway.Worker.Create.{
  created_input, completed_change, is_complete, upsert_and_read, issue_key, complete_created_alias,
}
use icloud_code_gateway.Worker.Create.Steps.{close_client, open_session, use_suggestion, generate}
use icloud_code_gateway.Worker.Create.Reserve.{
  Created, pause_retry, begin_write, complete, reconcile, reserve, create_in_two_steps,
}
use icloud_code_gateway.Worker.Create.Run.{
  close_if_open, finish_body, create_body, clean_up, guarded,
}
use icloud_code_gateway.Batch.Rows.{
  JobView, sealed, Stage, ItemStatus, JobStatus, JobKind, Action, ItemInput, Item, Job, ItemView,
}
use icloud_code_gateway.Batch.Tables.Stored.{IsStored}
use icloud_code_gateway.Aliases.Rows.{Remote}
use icloud_code_gateway.Worker.Payloads.{Settings}
use icloud_code_gateway.Worker.Environment.{State, Environment}
use icloud_code_gateway.Worker.Frame.{RunOutcome, Flow, leave, Frame, start_frame}
use icloud_code_gateway.Worker.Snapshot.{Resolution, unavailable}
use icloud_code_gateway.Worker.Create.{Values}
use icloud_code_gateway.Worker.Create.Reserve.{after_unconfirmed}
use icloud_code_gateway.Worker.Create.Run.{create_alias}
use icloud_code_gateway.Worker.Create.Left.{is_left}
use icloud_code_gateway.Worker.Create.Results.{create_alias-IsStored}
use icloud_code_gateway.Worker.Create.Unconfirmed.{awaits_lookup, after_unconfirmed-awaits}

abbrev remote : Remote
remote = record {
  hme = some "quiet.fox@icloud.com";
  email = none;
  anonymous_id = some "anonymous-1";
  is_active = some true;
  create_timestamp = none;
}

-- Apple answers every call, and the worker never stops.
abbrev env : Environment (Unit {0})
env = record {
  now = λ w. (1_000_000, w);
  stopping = λ w. (false, w);
  stop_wait = λ _ w. (false, w);
  fresh_id = λ w. ("alias-1", w);
  fresh_key = λ w. ("icg_abcdefghijklmnopqrstuvwxyz0123456789ABCDEFG", w);
  ensure_hme_fresh = λ w. (returned tt, w);
  begin_remote_write = λ w. (returned tt, w);
  finish_remote_write = λ w. w;
  get_hme_session = λ w. (returned true, w);
  open_client = λ w. (returned tt, w);
  close_client = λ w. w;
  has_two_steps = true;
  generate_alias = λ w. (returned "quiet.fox@icloud.com", w);
  reserve_alias = λ _ _ _ w. (returned remote, w);
  create_alias = λ _ _ w. (returned remote, w);
  list_aliases = λ w. (returned [], w);
  refresh_hme_session = λ _ w. (returned tt, w);
  push_alias_to_edge = λ _ _ w. w;
  casefold = λ s. s;
  sha256 = λ s. s;
  digest = λ s. s;
}

abbrev settings : Settings
settings = record {
  throttle = 1_000_000;
  rate_limit_cooldown = 0;
  transient_retry_base = 5_000_000;
  transient_retry_max = 300_000_000;
}

abbrev item : Item
item = record {
  index = 1;
  alias_id = none;
  input = sealed (ItemInput.create_input "shop" "" "");
  stage = Stage.queued;
  status = ItemStatus.queued;
  result = none;
  error = none;
  created_at = 10;
  updated_at = 10;
}

abbrev view : ItemView
view = record {
  index = 1;
  alias_id = none;
  input = ItemInput.create_input "shop" "" "";
  stage = Stage.queued;
  status = ItemStatus.queued;
  result = none;
  error = none;
}

abbrev job : Job
job = record {
  id = "job-1";
  kind = JobKind.create_aliases;
  action = Action.create;
  status = JobStatus.running;
  idempotency_key_hash = none;
  request_fingerprint = "fingerprint-1";
  requested = 1;
  succeeded = 0;
  failed = 0;
  current = 0;
  created_at = 10;
  updated_at = 10;
  error = none;
  items = item ∷ [];
}

abbrev state : State (Unit {0})
state = record { jobs = job ∷ []; aliases = []; audit = []; world = tt }

abbrev values : Values
values = record { label = "shop"; note = ""; sender_filter = "" }

abbrev created : State (Unit {0})
created = (create_alias env settings "job-1" values view state).1

created_once :
    create_alias env settings "job-1" values view state ≡ (returned RunOutcome.ok, created)
unfolding create_alias guarded try_except create_body ◌>>=◌ lift raise_if_stopping ask call assign
    open_session create_in_two_steps and_then generate read clean_up clean_candidate with_frame
    update_item on_jobs update_batch_item attempt use_suggestion reconcile reserve begin_write
    complete complete_created_alias upsert_and_read on_aliases upsert_alias get_alias issue_key
    issue_access_key record_audit finish_body close_if_open close_client tell has_one_at is_complete
    remote_email created_input completed_change alias_from_row
created_once = refl

is_not_failed : RunOutcome.ok ≢ RunOutcome.failed
is_not_failed e = cc e

create_alias-IsStored_example : IsStored "job-1" 1 (is_left RunOutcome.ok) created.jobs
create_alias-IsStored_example =
    create_alias-IsStored env settings "job-1" values view state created RunOutcome.ok created_once
      is_not_failed

-- The candidate was sent to Apple, and the answer was lost.
abbrev sent : Frame (Unit {0})
sent = record (start_frame view state) {
  candidate = "quiet.fox@icloud.com";
  write_started = true;
  write_attempted = true;
}

abbrev parked : Frame (Unit {0})
parked = (after_unconfirmed env settings "job-1" values Exception.hme_network unavailable sent).1

abbrev lost : Flow Created
lost = leave RunOutcome.retry

parked_once :
    after_unconfirmed env settings "job-1" values Exception.hme_network unavailable sent
    ≡ (returned (leave RunOutcome.retry), parked)
unfolding after_unconfirmed ◌>>=◌ read pause_retry with_frame lift pause_for_transient_retry ask
    update_item on_jobs update_batch_item candidate_item set_status set_batch_job_status
    record_audit
parked_once = refl

is_not_empty : sent.candidate ≢ ""
is_not_empty e = cc ((eq_iff "quiet.fox@icloud.com" "").1 e)

is_not_found : (r : Remote) → unavailable ≢ Resolution.found r
is_not_found r e = cc e

after_unconfirmed-awaits_example :
    (lost ≡ leave RunOutcome.retry)
    × IsStored "job-1" 1 (awaits_lookup "quiet.fox@icloud.com") parked.state.jobs
after_unconfirmed-awaits_example =
    after_unconfirmed-awaits env settings "job-1" values sent parked Exception.hme_network
      unavailable lost is_not_empty is_not_found (inl refl) parked_once

-- A note of two lines.
abbrev two_lines : Values
two_lines = record { label = "shop"; note = "first\nsecond"; sender_filter = "" }

complete_created_alias-refuses_note_example :
    ((view : JobView) × (after : Jobs) × (create_alias_job env.digest
          (λ _. "fingerprint")
          20
          "job-2"
          10
          3
          "shop"
          two_lines.note
          ""
          none
          state.jobs
        ≡ returned (view, true, after))
      × Accepted 3 two_lines.note "" state.jobs after)
    × (let run = complete_created_alias env "job-2" 1 two_lines remote state in
        (run.0 ≡ raised Exception.value_error)
        × (run.1.jobs ≡ state.jobs)
        × (run.1.aliases ≡ state.aliases))
unfolding is_complete clean_candidate remote_email clean_text strip chars any_char has_one_at
complete_created_alias-refuses_note_example =
    complete_created_alias-refuses_note env env.digest (λ _. "fingerprint") 20 "job-2" 10 3 "shop"
      two_lines state.jobs 1 remote state (omega arith) (omega arith) refl refl refl refl
