-- ===== src/Mailbox/Ingest.antt =====
-- One cycle of `MailboxWatcher` in mailbox_watcher.py: the messages that a folder has got since the last
-- one are fetched and put into the index. A connection is known by what it answers.
pub mod Cursors
pub mod Answers
pub mod Fetches
pub mod Histories
use icloud_code_gateway.Base.{
  ℕ, zero, suc, ◌+◌, ◌-◌, ◌*◌, max, String, Bool, true, false, ◌&&◌, ◌||◌, Option, none, some, List,
  [], ◌∷◌, take, ltb, str_eq, if◌then◌else◌, or_else, returned, raised, Outcome,
}
use icloud_code_gateway.Mailbox.Uids.{isdigit, int_of, uid_le}
use icloud_code_gateway.Mailbox.Index.{IndexedCode, prune, Index, store}

-- The classes of exceptions that `_ingest` and `_run` tell apart.
pub data Fault : Type 0 where
  imap_error imap_credentials_error other : Fault

-- What `parse_message` finds in a message.
pub record ParsedMessage : Type 0 where
  pub recipients : List String
  pub code : String
  pub from_header : String

-- A connection, and the mailbox behind it, whose state is `C`; a message is `M`.
pub record Connection (C M : Type 0) : Type 0 where
  -- whether the status of SELECT is OK
  pub select : (folder : String) → C → Outcome Fault Bool × C
  -- the uids of SEARCH SINCE and of SEARCH UID n:*, if its status is OK; an exception is no status
  pub search_since : (since : ℕ) → C → Option (List String) × C
  pub search_uid : (from : ℕ) → C → Option (List String) × C
  -- the messages of FETCH by uid, with their dates; none if it raises or its status is not OK
  pub fetch : (uids : List String) → C → List (String × M × Option ℕ) × C
  pub clock : C → ℕ × C
  -- `parse_message`, which may raise on a malformed message
  pub parse : M → Outcome Fault ParsedMessage

abbrev pub is_empty : List String → Bool
is_empty [] = true
is_empty (r ∷ rs) = false

-- What the watcher keeps: the index, and the highest uid of each folder that it has seen.
pub record Watcher : Type 0 where
  pub index : Index
  pub cursors : List (String × ℕ)

-- `self._cursors.get(key)`, for the connection whose cursors they are.
unfoldable pub cursor_of : String → List (String × ℕ) → Option ℕ
cursor_of folder [] = none
cursor_of folder ((f, n) ∷ cursors) = if str_eq f folder then some n else cursor_of folder cursors

unfoldable pub set_cursor : String → ℕ → List (String × ℕ) → List (String × ℕ)
set_cursor folder n [] = (folder, n) ∷ []
set_cursor folder n ((f, m) ∷ cursors) =
    if str_eq f folder then (f, n) ∷ cursors else (f, m) ∷ set_cursor folder n cursors

-- `sorted(…, key=_uid_sort_key, reverse=True)`
unfoldable pub insert_uid : String → List String → List String
insert_uid u [] = u ∷ []
insert_uid u (v ∷ vs) = if uid_le v u then u ∷ v ∷ vs else v ∷ insert_uid u vs

unfoldable pub sort_uids : List String → List String
unfolding insert_uid
sort_uids [] = []
sort_uids (u ∷ us) = insert_uid u (sort_uids us)

-- `uid.isdigit() and int(uid) > cursor`
unfoldable pub is_new : ℕ → String → Bool
unfolding isdigit int_of
is_new cursor uid = isdigit uid && ltb cursor (int_of uid)

unfoldable pub new_only : ℕ → List String → List String
unfolding is_new
new_only cursor [] = []
new_only cursor (u ∷ us) =
    let rest = new_only cursor us in if is_new cursor u then u ∷ rest else rest

-- The numbers among the uids; `max` of none raises `ValueError`.
unfoldable pub highest : List String → Option ℕ
unfolding isdigit int_of
highest [] = none
highest (u ∷ us) =
    let rest = highest us in if isdigit u then some (max (int_of u) (or_else rest 0)) else rest

-- `SEED_LIMIT`, `CYCLE_FETCH_LIMIT` and `FETCH_BATCH_SIZE`
abbrev pub seed_limit : ℕ
seed_limit = 60

abbrev pub cycle_fetch_limit : ℕ
cycle_fetch_limit = 60

abbrev pub fetch_batch_size : ℕ
fetch_batch_size = 20

abbrev pub day : ℕ
day = 86_400 * 1_000_000

unfoldable pub drop {ℓ} : {A : Type ℓ} → ℕ → List A → List A
drop zero xs = xs
drop (suc n) [] = []
drop (suc n) (x ∷ xs) = drop n xs

-- The batches of `_index_messages`; a cycle fetches at most three.
unfoldable pub batches : ℕ → List String → List (List String)
unfolding drop
batches zero uids = []
batches (suc fuel) [] = []
batches (suc fuel) (u ∷ us) =
    take fetch_batch_size (u ∷ us) ∷ batches fuel (drop fetch_batch_size (u ∷ us))

abbrev pub entry_of : String → String → ℕ → ParsedMessage → IndexedCode
entry_of folder uid received_at parsed = record {
  code = parsed.code;
  received_at = received_at;
  uid = uid;
  folder = folder;
  from_header = parsed.from_header;
}

-- `added = True` once, whatever follows.
abbrev pub added_or : Bool → Outcome Fault Bool → Outcome Fault Bool
added_or added (raised e) = raised e
added_or added (returned more) = returned (added || more)

module _ {C M : Type 0} (imap : Connection C M) (retention : ℕ) where
  -- A parsed message: without a code or a recipient there is nothing to index.
  unfoldable pub index_parsed : String → String → ℕ → ParsedMessage → Index → Bool × Index
  unfolding store
  index_parsed folder uid received_at parsed index =
      if str_eq parsed.code "" || is_empty parsed.recipients
      then (false, index)
      else store parsed.recipients (entry_of folder uid received_at parsed) index

  abbrev pub then_index :
      String → String → ℕ → Outcome Fault ParsedMessage → Index → Outcome Fault Bool × Index
  then_index folder uid received_at (raised e) index = (raised e, index)
  then_index folder uid received_at (returned parsed) index =
      let done = index_parsed folder uid received_at parsed index in (returned done.0, done.1)

  -- One fetched message; one without a date is passed over.
  unfoldable pub index_message : String → String → M × Option ℕ → Index → Outcome Fault Bool × Index
  unfolding index_parsed
  index_message folder uid (message, none) index = (returned false, index)
  index_message folder uid (message, some received_at) index =
      then_index folder uid received_at (imap.parse message) index

  -- The rest of a loop, unless an exception has ended it.
  abbrev pub then_fetched :
      Outcome Fault Bool × Index → (Index → Outcome Fault Bool × Index) → Outcome Fault Bool × Index
  then_fetched (raised e, index) k = (raised e, index)
  then_fetched (returned added, index) k = (added_or added (k index).0, (k index).1)

  abbrev pub then_batch :
      Outcome Fault Bool × Index
      → C
      → (Index → C → Outcome Fault Bool × Index × C)
      → Outcome Fault Bool × Index × C
  then_batch (raised e, index) c k = (raised e, index, c)
  then_batch (returned added, index) c k =
      (added_or added (k index c).0, (k index c).1, (k index c).2)

  unfoldable pub index_fetched :
      String → List (String × M × Option ℕ) → Index → Outcome Fault Bool × Index
  unfolding index_message
  index_fetched folder [] index = (returned false, index)
  index_fetched folder ((uid, message, at) ∷ fetched) index =
      then_fetched (index_message folder uid (message, at) index)
        (λ i. index_fetched folder fetched i)

  unfoldable pub index_batches :
      String → List (List String) → Index → C → Outcome Fault Bool × Index × C
  unfolding index_fetched
  index_batches folder [] index c = (returned false, index, c)
  index_batches folder (batch ∷ rest) index c =
      let fetched = imap.fetch batch c in
      let one = index_fetched folder fetched.0 index in
      then_batch one fetched.1 (λ i d. index_batches folder rest i d)

  -- `_index_messages`: three batches hold what a cycle fetches.
  unfoldable pub index_messages : String → List String → Index → C → Outcome Fault Bool × Index × C
  unfolding batches index_batches
  index_messages folder uids = index_batches folder (batches 3 uids)

  -- `_seed_uids`: SINCE the day of a time that is a day before the retention begins.
  unfoldable pub seed_uids : C → Outcome Fault (List String) × C
  unfolding sort_uids
  seed_uids c =
      let now = imap.clock c in
      let found = imap.search_since (now.0 - (retention + day)) now.1 in
      (
        elim found.0 [
          | none ↦ raised Fault.imap_error
          | some uids ↦ returned (take seed_limit (sort_uids uids))
        ],
        found.1,
      )

  -- `_new_uids`
  unfoldable pub new_uids : ℕ → C → Outcome Fault (List String) × C
  unfolding sort_uids new_only
  new_uids cursor c =
      let found = imap.search_uid (cursor + 1) c in
      (
        elim found.0 [
          | none ↦ raised Fault.imap_error
          | some uids ↦ returned (sort_uids (new_only cursor uids))
        ],
        found.1,
      )

  abbrev pub find_uids : Option ℕ → C → Outcome Fault (List String) × C
  find_uids none = seed_uids
  find_uids (some cursor) = new_uids cursor

  abbrev pub move_cursor :
      String → ℕ → Watcher → Outcome Fault Bool × Index × C → Outcome Fault Bool × Watcher × C
  move_cursor folder n w (raised e, index, c) = (raised e, record w { index = index }, c)
  move_cursor folder n w (returned added, index, c) = (
    returned added,
    record {
      index = index;
      cursors = set_cursor folder (max (or_else (cursor_of folder w.cursors) 0) n) w.cursors;
    },
    c,
  )

  -- What follows the search: the fetches, and then the cursor.
  unfoldable pub ingest_uids : String → List String → Watcher → C → Outcome Fault Bool × Watcher × C
  unfolding highest index_messages cursor_of set_cursor
  ingest_uids folder [] w c = (returned false, w, c)
  ingest_uids folder (u ∷ us) w c =
      let uids = take cycle_fetch_limit (u ∷ us) in
      elim (highest uids) [
        | none ↦ (raised Fault.other, w, c)
        | some n ↦ move_cursor folder n w (index_messages folder uids w.index c)
      ]

  abbrev pub then_ingest :
      String → Watcher → Outcome Fault (List String) × C → Outcome Fault Bool × Watcher × C
  then_ingest folder w (returned uids, c) = ingest_uids folder uids w c
  then_ingest folder w (raised e, c) = (raised e, w, c)

  abbrev pub then_search :
      String → Watcher → Outcome Fault Bool × C → Outcome Fault Bool × Watcher × C
  then_search folder w (raised e, c) = (raised e, w, c)
  then_search folder w (returned false, c) = (raised Fault.imap_error, w, c)
  then_search folder w (returned true, c) =
      then_ingest folder w (find_uids (cursor_of folder w.cursors) c)

  -- `_ingest_folder`
  unfoldable pub ingest_folder : String → Watcher → C → Outcome Fault Bool × Watcher × C
  unfolding cursor_of seed_uids new_uids ingest_uids
  ingest_folder folder w c = then_search folder w (imap.select folder c)

  -- `except ImapError: continue`; `ImapCredentialsError` is an `ImapError`.
  abbrev pub go_on :
      Bool
      → Outcome Fault Bool × Watcher × C
      → (Bool → Watcher → C → Outcome Fault Bool × Watcher × C)
      → Outcome Fault Bool × Watcher × C
  go_on added (returned more, w, c) k = k (added || more) w c
  go_on added (raised Fault.imap_error, w, c) k = k added w c
  go_on added (raised Fault.imap_credentials_error, w, c) k = k added w c
  go_on added (raised Fault.other, w, c) k = (raised Fault.other, w, c)

  unfoldable pub ingest_folders :
      Bool → List String → Watcher → C → Outcome Fault Bool × Watcher × C
  unfolding ingest_folder prune
  ingest_folders added [] w c =
      let now = imap.clock c in
      (returned added, record w { index = prune retention now.0 w.index }, now.1)
  ingest_folders added (folder ∷ folders) w c =
      go_on added (ingest_folder folder w c) (λ more v d. ingest_folders more folders v d)

  -- `_ingest`
  unfoldable pub ingest : List String → Watcher → C → Outcome Fault Bool × Watcher × C
  unfolding ingest_folders
  ingest scan_folders = ingest_folders false scan_folders
