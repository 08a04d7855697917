-- ===== src/Mailbox/Examples.antt =====
-- Two messages for one alias, and what the index forgets of six.
use icloud_code_gateway.Base.{
  true, ℕ, ◌*◌, ◌≡◌, refl, String, false, Option, none, some, List, [], ◌∷◌, str_eq, strip,
  if◌then◌else◌, returned, raised, arith,
}
use icloud_code_gateway.Mailbox.Uids.{int_of, isdigit, uid_le}
use icloud_code_gateway.Mailbox.Senders.{Headers, sender_matches_filter, sender_matches_policy}
use icloud_code_gateway.Mailbox.Index.{
  IndexedCode, second, Query, key_le, store_for, store, prune, bucket_of, best_of, latest,
}
use icloud_code_gateway.Mailbox.Index.History.{Event, stored, pruned, run, log_of}
use icloud_code_gateway.Mailbox.Index.Newest.{IsNewest, latest-IsNewest}
use icloud_code_gateway.Mailbox.Ingest.{
  Fault, ParsedMessage, Connection, Watcher, drop, batches, index_messages, index_batches, highest,
  sort_uids, new_only, cursor_of, set_cursor, new_uids, ingest_uids, ingest_folder, ingest,
}
use icloud_code_gateway.Mailbox.Ingest.Cursors.{HasPassed, ingest_folder-moves_on}
use icloud_code_gateway.Mailbox.Ingest.Fetches.{Extends}
use icloud_code_gateway.Mailbox.Ingest.Histories.{ingest-Extends}
use icloud_code_gateway.Mailbox.Config.{ImapConfig}
use icloud_code_gateway.Mailbox.Loop
use icloud_code_gateway.Mailbox.Loop.{Services, start, turn}
use icloud_code_gateway.Mailbox.Loop.Turns.{course, Ends, turn-Ends}

abbrev message : String → String → ℕ → String → IndexedCode
message uid code at sender = record {
  code = code;
  received_at = at * second;
  uid = uid;
  folder = "INBOX";
  from_header = sender;
}

abbrev headers : Headers
headers = record {
  getaddresses = λ s. s ∷ [];
  is_gpt_sender = λ s. str_eq s "noreply@openai.com";
  is_grok_sender = λ s. false;
  casefold = λ s. s;
}

abbrev first : IndexedCode
first = message "7" "111111" 1_000 "noreply@openai.com"

abbrev later : IndexedCode
later = message "8" "222222" 1_100 "noreply@openai.com"

abbrev mail : String → String → IndexedCode
mail uid folder = if str_eq uid "8" then later else first

abbrev alias : String
alias = "fox@icloud.com"

abbrev events : List Event
events =
    pruned (1_110 * second)
    ∷ stored (alias ∷ []) later
    ∷ stored ("other@icloud.com" ∷ alias ∷ []) first
    ∷ []

abbrev query : Query
query = record {
  now_ts = 1_120 * second;
  max_age_seconds = 600;
  future_skew_seconds = 60;
  sender_filter = "";
  sender_policy = "gpt_grok";
}

finds_later : latest headers alias query (run (2_100 * second) events) ≡ returned (some later)
unfolding latest run store store_for prune bucket_of best_of strip uid_le key_le
    sender_matches_filter sender_matches_policy
finds_later = refl

latest-IsNewest_example :
    (o : Option IndexedCode) × (latest headers alias query (run (2_100 * second) events)
      ≡ returned o)
    × IsNewest query (log_of (headers.casefold (strip alias)) events) o
unfolding strip log_of sender_matches_filter sender_matches_policy
latest-IsNewest_example =
    latest-IsNewest headers mail (2_100 * second) alias query events refl (omega arith)
      (omega arith, (refl, (refl, tt))) ((refl, refl), ((refl, refl), tt)) (omega arith)

abbrev noise : String → ℕ → Event
noise uid at = stored (alias ∷ []) (message uid "999999" at "shop@example.com")

-- Five later messages from other senders drive the code out, and the lookup finds nothing.
driven_out :
    latest headers alias query (
      run (2_100 * second) (
        noise "13" 1_105
        ∷ noise "12" 1_104
        ∷ noise "11" 1_103
        ∷ noise "10" 1_102
        ∷ noise "9" 1_101
        ∷ events))
    ≡ returned none
unfolding latest run store store_for prune bucket_of best_of strip uid_le key_le
    sender_matches_filter sender_matches_policy
driven_out = refl

-- A mailbox that holds two messages, and whose answer to FETCH is lost.
abbrev parsed : String → ParsedMessage
parsed m = record { recipients = alias ∷ []; code = m; from_header = "noreply@openai.com" }

abbrev imap : List (String × String × Option ℕ) → Connection ℕ String
imap answer = record {
  select = λ folder c. (returned true, c);
  search_since = λ since c. (some ("7" ∷ "8" ∷ []), c);
  search_uid = λ from c. (some ("8" ∷ "7" ∷ []), c);
  fetch = λ uids c. (answer, c);
  clock = λ c. (c, c);
  parse = λ m. returned (parsed m);
}

abbrev watcher : Watcher
watcher = record { index = []; cursors = ("INBOX", 7) ∷ [] }

abbrev silent : Connection ℕ String
silent = imap []

abbrev after : Watcher
after = (ingest_folder silent (2_100 * second) "INBOX" watcher 5).1

ended : (ingest_folder silent (2_100 * second) "INBOX" watcher 5).0 ≡ returned false
unfolding ingest_folder ingest_uids highest isdigit int_of index_messages batches index_batches drop
    sort_uids new_only uid_le cursor_of new_uids
ended = refl

-- The message with the uid 8 was not fetched, and is not in the index; yet no cycle asks for it again.
forgotten : (after.index ≡ []) × (cursor_of "INBOX" after.cursors ≡ some 8)
unfolding ingest_folder ingest_uids highest isdigit int_of index_messages batches index_batches drop
    sort_uids new_only uid_le cursor_of set_cursor new_uids
forgotten = (refl, refl)

ingest_folder-moves_on_example : HasPassed "INBOX" 7 ("8" ∷ "7" ∷ []) after
unfolding cursor_of
ingest_folder-moves_on_example =
    ingest_folder-moves_on silent (2_100 * second) "INBOX" watcher 5 7 ("8" ∷ "7" ∷ []) false refl
      refl ended

abbrev full : Connection ℕ String
full = imap (("8", "222222", some (1_100 * second)) ∷ [])

ingest-Extends_example :
    Extends full
      ("INBOX" ∷ [])
      (2_100 * second)
      []
      (ingest full (2_100 * second) ("INBOX" ∷ []) watcher 5).1.index
unfolding run
ingest-Extends_example = ingest-Extends full (2_100 * second) [] ("INBOX" ∷ []) watcher 5 refl

abbrev config : ImapConfig
config = record {
  forwarding_email = "forward@example.com";
  host = "imap.example.com";
  port = 993;
  username = "forward";
  password = "secret";
  folder = "INBOX";
  junk_folder = "";
  proxy = "";
}

abbrev services : Services ℕ String
services = record {
  imap = full;
  connect = λ config c. (raised Fault.imap_credentials_error, c);
  logout = λ c. c;
  config_provider = λ c. (returned (some config), c);
  monotonic = λ c. (c, c);
  notify = λ tokens c. c;
  casefold = λ s. s;
}

abbrev settings : Loop.Settings
settings = record { retention = 2_100 * second; active_poll = second; idle_poll = 3 * second }

-- The login is refused: the first wait is two seconds.
turn-Ends_example : Ends start (course services settings start 5) (turn services settings start 5)
turn-Ends_example = turn-Ends services settings start 5
