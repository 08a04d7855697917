-- ===== src/Service/Lookup/Examples.antt =====
-- A lookup for one alias, whose code the watcher has indexed.
use icloud_code_gateway.Base.{
  ℕ, ◌*◌, ◌≡◌, refl, String, true, false, none, some, [], ◌∷◌, str_eq, ◌⊎◌, strip, returned,
}
use icloud_code_gateway.Security.{hash_access_key}
use icloud_code_gateway.Aliases.Rows.{active, EdgeKeyStatus, Blob, key_blob, Alias, alias_from_row}
use icloud_code_gateway.Aliases.Table.{find_alias_by_access_key_hash}
use icloud_code_gateway.Mailbox.Senders.{sender_matches_filter, sender_matches_policy}
use icloud_code_gateway.Columns.{clean_candidate, normalize_email}
use icloud_code_gateway.Service.Lookup.ByEmail.{IsOfActive, prepare_lookup_for_email-IsBound}
use icloud_code_gateway.Mailbox.Uids.{uid_le}
use icloud_code_gateway.Mailbox.Index.{IndexedCode, second, key_le, bucket_of, best_of, latest}
use icloud_code_gateway.Mailbox.Config.{ImapConfig}
use icloud_code_gateway.Mailbox.Loop.{start, ready}
use icloud_code_gateway.RateLimit
use icloud_code_gateway.RateLimit.{check, events_of, drop_expired, purge_empty}
use icloud_code_gateway.Service.Lookup.Calls.{
  ◌>>=◌, PreparedLookup, Status, CodeLookupResult, State, Environment,
}
use icloud_code_gateway.Service.Lookup.{lookup_code, found_result}
use icloud_code_gateway.Service.Lookup.Prepare.{
  find_alias_by_email, is_mailbox_password, prepare_lookup_for_email, prepare_with_password,
}
use icloud_code_gateway.Service.Lookup.Found.{IsFor}
use icloud_code_gateway.Service.Lookup.Answers.{IsIndexed, IsScanned, lookup_code-found}

abbrev key : String
key = "icg_abcdefghijklmnopqrstuvwxyz0123456789ABCDEFG"

abbrev email : String
email = "fox@icloud.com"

abbrev fox : Alias
fox = record {
  id = "alias-1";
  email_hash = email;
  email_blob = Blob.sealed email;
  remote_blob = some (
      Blob.sealed (record {
        hme = some email;
        email = none;
        anonymous_id = some "anonymous-1";
        is_active = some true;
        create_timestamp = none;
      }));
  label = "shop";
  note = "";
  sender_filter = "";
  usage_label = "";
  state = active;
  access_key_hash = some key;
  access_key_hint = some "DEFG";
  access_key_blob = some (key_blob "alias-1" key);
  key_issued_at = some 1;
  key_revoked_at = none;
  edge_key_status = EdgeKeyStatus.unknown;
  edge_status_checked_at = none;
  created_at = 1;
  updated_at = 1;
  last_synced_at = none;
}

abbrev entry : IndexedCode
entry = record {
  code = "222222";
  received_at = 1_100 * second;
  uid = "8";
  folder = "INBOX";
  from_header = "noreply@openai.com";
}

abbrev config : ImapConfig
config = record {
  forwarding_email = "forward@example.com";
  host = "imap.example.com";
  port = 993;
  username = "forward";
  password = "secret";
  folder = "INBOX";
  junk_folder = "";
  proxy = "";
}

abbrev env : Environment ℕ
env = record {
  serves_public_otp = true;
  otp_max_age_seconds = 600;
  otp_future_skew_seconds = 60;
  mailbox_api_password = "";
  watcher_settings = record {
    retention = 2_100 * second;
    active_poll = second;
    idle_poll = 3 * second;
  };
  headers = record {
    getaddresses = λ s. s ∷ [];
    is_gpt_sender = λ s. str_eq s "noreply@openai.com";
    is_grok_sender = λ s. false;
    casefold = λ s. s;
  };
  sha256 = λ s. s;
  digest = λ s. s;
  monotonic = λ w. (w, w);
  clock = λ w. (1_120 * second, w);
  is_alive = λ w. (true, w);
  get_imap_config = λ w. (returned (some config), w);
  acquire_slot = λ w. (true, w);
  release_slot = λ w. w;
  find_latest_code = λ c email filter now w. (returned none, w);
}

abbrev state : State ℕ
state = record {
  limiter = [];
  aliases = fox ∷ [];
  thread = record start {
    watcher = record { index = (email, entry ∷ []) ∷ []; cursors = [] };
    last_success = some second;
  };
  audit = [];
  world = 2 * second;
}

abbrev answer : CodeLookupResult
answer = record {
  status = Status.found;
  code = "222222";
  received_at = some (1_100 * second);
  expires_at = some (1_700 * second);
  retry_after = none;
}

answers : (lookup_code env key "10.0.0.1" state).0 ≡ returned answer
unfolding lookup_code ◌>>=◌ check events_of RateLimit.store drop_expired purge_empty hash_access_key
    strip latest bucket_of best_of uid_le key_le found_result sender_matches_filter
    sender_matches_policy find_alias_by_access_key_hash alias_from_row ready
answers = refl

lookup_code-found_example :
    (p : PreparedLookup) × IsFor env key (fox ∷ []) p
    × (IsIndexed env ((email, entry ∷ []) ∷ []) p answer ⊎ IsScanned env p answer)
lookup_code-found_example = lookup_code-found env key "10.0.0.1" state answers refl

abbrev with_password : Environment ℕ
with_password = record env { mailbox_api_password = "mailbox-secret" }

abbrev for_fox : PreparedLookup
for_fox = record { alias_id = "alias-1"; email = email; sender_filter = ""; client_ip = "10.0.0.1" }

opens :
    (prepare_lookup_for_email with_password email "mailbox-secret" "10.0.0.1" state).0
    ≡ returned (some for_fox)
unfolding prepare_lookup_for_email is_mailbox_password prepare_with_password ◌>>=◌ check events_of
    RateLimit.store drop_expired purge_empty strip find_alias_by_email normalize_email
    alias_from_row
opens = refl

prepare_lookup_for_email-IsBound_example :
    ((is_mailbox_password with_password "mailbox-secret" ≡ true)
      × IsOfActive with_password email (fox ∷ []) for_fox)
    ⊎ (IsFor with_password "mailbox-secret" (fox ∷ []) for_fox
        × (str_eq (clean_candidate env.headers.casefold email) email ≡ true))
prepare_lookup_for_email-IsBound_example =
    prepare_lookup_for_email-IsBound with_password email "mailbox-secret" "10.0.0.1" state opens
