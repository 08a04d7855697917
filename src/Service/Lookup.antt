-- ===== src/Service/Lookup.antt =====
-- The lookup of a one-time code in service.py: `read_indexed_code`,
-- `read_scanned_code`, and `lookup_code`.
pub mod Calls
pub mod Prepare
pub mod Kept
pub mod Answers
pub mod Found
pub mod ByEmail
mod Examples
use icloud_code_gateway.Service.Lookup.Prepare.{
  bind_to, find_alias_by_email, find_by_email, invalid_key_for, ip_key_of, is_active_view,
  is_mailbox_password, prepare_active, prepare_alias, prepare_configured, prepare_digest,
  prepare_found, prepare_hashed, prepare_lookup, prepare_lookup_for_email, prepare_malformed,
  prepare_with_password, prepared,
}
use icloud_code_gateway.Service.Lookup.Calls.{
  LookupFault, not_allowed, not_configured, busy, gateway_error, rate_limited, failed, ScanFault,
  imap_credentials_error, imap_error, other, PreparedLookup, Status, CodeLookupResult, OtpResult,
  State, Environment, Lookup, pure, raise, ◌>>=◌, ◌>>◌, lifted, ask, audit_lookup, charge,
  imap_config, find_by_key, require_public_otp,
}
use icloud_code_gateway.Base.{
  ℕ, ◌+◌, ◌*◌, String, Bool, true, false, not, ◌&&◌, Option, none, some, List, [], ◌∷◌, ◌++◌, find,
  str_eq, strip, if◌then◌else◌, Outcome, returned, raised,
}
use icloud_code_gateway.Errors.{Exception, Result}
use icloud_code_gateway.Columns.{normalize_email, clean_candidate}
use icloud_code_gateway.Security.{hash_access_key}
use icloud_code_gateway.Aliases.Rows.{active, inactive, AliasView, alias_from_row}
use icloud_code_gateway.Aliases.Table.{Aliases, find_alias_by_access_key_hash}
use icloud_code_gateway.RateLimit.{Events, check}
use icloud_code_gateway.Mailbox.Senders.{Headers, public_otp_sender_policy}
use icloud_code_gateway.Mailbox.Index.{IndexedCode, Query, second, latest}
use icloud_code_gateway.Mailbox.Config.{ImapConfig}
use icloud_code_gateway.Mailbox.Loop
use icloud_code_gateway.Mailbox.Loop.{Thread, ready}

module _ {W : Type 0} (env : Environment W) where
  -- `_found_result`
  unfoldable pub found_result : String → ℕ → CodeLookupResult
  found_result code received_at = record {
    status = Status.found;
    code = code;
    received_at = some received_at;
    expires_at = some (received_at + env.otp_max_age_seconds * second);
    retry_after = none;
  }

  abbrev pub without_code : Status → Option ℕ → CodeLookupResult
  without_code status retry_after = record {
    status = status;
    code = "";
    received_at = none;
    expires_at = none;
    retry_after = retry_after;
  }

  -- `mailbox_watcher.ready`
  unfoldable pub watcher_ready : Lookup W Bool
  unfolding ask
  watcher_ready = do
    alive ← ask env env.is_alive
    now ← ask env env.monotonic
    (λ s. (returned (ready env.watcher_settings alive now s.thread), s))

  abbrev pub query_of : ℕ → PreparedLookup → Query
  query_of now p = record {
    now_ts = now;
    max_age_seconds = env.otp_max_age_seconds;
    future_skew_seconds = env.otp_future_skew_seconds;
    sender_filter = p.sender_filter;
    sender_policy = public_otp_sender_policy;
  }

  -- `watcher.latest(…)` at the time of the clock.
  unfoldable pub latest_indexed : PreparedLookup → Lookup W (Option IndexedCode)
  latest_indexed p s =
      let now = env.clock s.world in
      (
        lifted (latest env.headers p.email (query_of now.0 p) s.thread.watcher.index),
        record s { world = now.1 },
      )

  abbrev pub found_indexed :
      PreparedLookup → Option IndexedCode → Lookup W (Option CodeLookupResult)
  found_indexed p none = pure none
  found_indexed p (some e) =
      audit_lookup env "found" p.client_ip (some p.alias_id)
      >> pure (some (found_result e.code e.received_at))

  abbrev pub read_if_ready : PreparedLookup → Bool → Lookup W (Option CodeLookupResult)
  read_if_ready p false = pure none
  read_if_ready p true = latest_indexed p >>= found_indexed p

  unfoldable pub read_indexed_code : PreparedLookup → Lookup W (Option CodeLookupResult)
  unfolding watcher_ready latest_indexed audit_lookup found_result
  read_indexed_code p = watcher_ready >>= read_if_ready p

  -- `note_lookup_exhausted`
  unfoldable pub note_lookup_exhausted : PreparedLookup → Lookup W CodeLookupResult
  unfolding audit_lookup
  note_lookup_exhausted p =
      audit_lookup env "no_code" p.client_ip (some p.alias_id)
      >> pure (without_code Status.waiting (some 5))

  abbrev pub after_scan :
      PreparedLookup → Outcome ScanFault (Option OtpResult) → Lookup W CodeLookupResult
  after_scan p (raised imap_credentials_error) =
      audit_lookup env "imap_invalid" p.client_ip (some p.alias_id) >> raise not_configured
  after_scan p (raised imap_error) =
      audit_lookup env "imap_error" p.client_ip (some p.alias_id) >> raise gateway_error
  after_scan p (raised (other e)) = raise (failed e)
  after_scan p (returned none) = note_lookup_exhausted p
  after_scan p (returned (some r)) =
      audit_lookup env "found" p.client_ip (some p.alias_id)
      >> pure (found_result r.code r.received_at)

  -- The scan in its slot; the slot is given back whatever happens.
  unfoldable pub scan : ImapConfig → PreparedLookup → Lookup W CodeLookupResult
  unfolding audit_lookup note_lookup_exhausted found_result
  scan config p s =
      let now = env.clock s.world in
      let got = env.find_latest_code config p.email p.sender_filter now.0 now.1 in
      after_scan p got.0 (record s { world = env.release_slot got.1 })

  abbrev pub scan_in_slot : PreparedLookup → ImapConfig → Bool → Lookup W CodeLookupResult
  scan_in_slot p config false = raise busy
  scan_in_slot p config true = scan config p

  abbrev pub scan_with : PreparedLookup → Option ImapConfig → Lookup W CodeLookupResult
  scan_with p none =
      audit_lookup env "not_configured" p.client_ip (some p.alias_id) >> raise not_configured
  scan_with p (some config) = ask env env.acquire_slot >>= scan_in_slot p config

  unfoldable pub read_scanned_code : PreparedLookup → Lookup W CodeLookupResult
  unfolding imap_config audit_lookup ask scan
  read_scanned_code p = imap_config env >>= scan_with p

  abbrev pub give_up_or_scan : PreparedLookup → Bool → Lookup W CodeLookupResult
  give_up_or_scan p false = read_scanned_code p
  give_up_or_scan p true = note_lookup_exhausted p

  abbrev pub after_index : PreparedLookup → Option CodeLookupResult → Lookup W CodeLookupResult
  after_index p (some r) = pure r
  after_index p none = watcher_ready >>= give_up_or_scan p

  -- The index answers for a mailbox that is read all the time; otherwise the mailbox is scanned.
  unfoldable pub lookup_prepared : PreparedLookup → Lookup W CodeLookupResult
  unfolding read_indexed_code watcher_ready note_lookup_exhausted read_scanned_code
  lookup_prepared p = read_indexed_code p >>= after_index p

  abbrev pub lookup_or_refuse : Option PreparedLookup → Lookup W CodeLookupResult
  lookup_or_refuse none = pure (without_code Status.invalid_key none)
  lookup_or_refuse (some p) = lookup_prepared p

  unfoldable pub lookup_code : (access_key client_ip : String) → Lookup W CodeLookupResult
  unfolding prepare_lookup lookup_prepared
  lookup_code access_key client_ip = prepare_lookup env access_key client_ip >>= lookup_or_refuse
