-- ===== src/Mailbox/Loop.antt =====
-- The thread of `MailboxWatcher` in mailbox_watcher.py: `_run`, its waits, its connection and its listeners.
pub mod Turns
use icloud_code_gateway.Base.{
  ℕ, ◌+◌, ◌-◌, ◌*◌, ◌^◌, min, max, String, Bool, false, ◌&&◌, Option, none, some, List, [], ◌∷◌,
  ◌++◌, leb, ◌==◌, if◌then◌else◌, returned, raised, Outcome,
}
use icloud_code_gateway.Mailbox.Index.{second}
use icloud_code_gateway.Mailbox.Config.{ImapConfig, has_same_key, scan_folders}
use icloud_code_gateway.Mailbox.Ingest.{Fault, Connection, Watcher, ingest}

pub record Settings : Type 0 where
  pub retention : ℕ
  pub active_poll : ℕ
  pub idle_poll : ℕ

-- `MailboxWatcher.__init__`, on whole microseconds.
unfoldable pub watcher_settings : (retention active_poll idle_poll : ℕ) → Settings
watcher_settings retention active_poll idle_poll = record {
  retention = max (60 * second) retention;
  active_poll = max 100_000 active_poll;
  idle_poll = max (max 100_000 active_poll) idle_poll;
}

-- What `_run` and the readers share.
pub record Thread : Type 0 where
  pub watcher : Watcher
  -- the configuration of the open connection, if one is open
  pub connection : Option ImapConfig
  pub listeners : List ℕ
  pub listener_seq : ℕ
  pub last_success : Option ℕ
  pub last_error : Option Fault
  pub consecutive_failures : ℕ

abbrev pub start : Thread
start = record {
  watcher = record { index = []; cursors = [] };
  connection = none;
  listeners = [];
  listener_seq = 0;
  last_success = none;
  last_error = none;
  consecutive_failures = 0;
}

-- What a turn of the loop waits for: `_sleep`, which a listener ends, or the back-off of a failure.
pub data Pause : Type 0 where
  sleep back_off : ℕ → Pause

-- `add_listener`, whose token unsubscribes, and `unsubscribe`.
unfoldable pub add_listener : Thread → ℕ × Thread
add_listener t = (
  t.listener_seq + 1,
  record t {
    listener_seq = t.listener_seq + 1;
    listeners = t.listeners ++ (t.listener_seq + 1) ∷ [];
  },
)

unfoldable pub without : ℕ → List ℕ → List ℕ
without token [] = []
without token (n ∷ ns) = let rest = without token ns in if n == token then rest else n ∷ rest

unfoldable pub unsubscribe : ℕ → Thread → Thread
unfolding without
unsubscribe token t = record t { listeners = without token t.listeners }

unfoldable pub poll_interval : Settings → Thread → ℕ
poll_interval s t = elim t.listeners [ [] ↦ s.idle_poll | _ ∷ _ ↦ s.active_poll ]

-- The wait after so many failures in a row.
unfoldable pub backoff : ℕ → ℕ
backoff failures = min (60 * second) (second * 2 ^ min failures 6)

-- `ready`, for a thread that is alive or not, at a time of the monotonic clock.
unfoldable pub ready : Settings → (alive : Bool) → (now : ℕ) → Thread → Bool
ready s alive now t = alive && elim t.last_success [
  | none ↦ false
  | some last ↦ leb (now - last) (s.idle_poll * 3 + 30 * second)
]

-- The calls of the thread that leave the module, beside those on a connection.
pub record Services (C M : Type 0) : Type 0 where
  pub imap : Connection C M
  -- `connection_factory` and `login`, which ends in `ImapCredentialsError` if it is refused
  pub connect : ImapConfig → C → Outcome Fault (Unit {0}) × C
  pub logout : C → C
  pub config_provider : C → Outcome Fault (Option ImapConfig) × C
  pub monotonic : C → ℕ × C
  -- the callbacks of the listeners, whose exceptions are passed over
  pub notify : List ℕ → C → C
  pub casefold : String → String

module _ {C M : Type 0} (env : Services C M) (s : Settings) where
  -- `_safe_config`
  unfoldable pub safe_config : C → Option ImapConfig × C
  safe_config c =
      let given = env.config_provider c in
      (elim given.0 [ raised e ↦ none | returned config ↦ config ], given.1)

  -- `_close_connection`
  unfoldable pub close_connection : Thread → C → Thread × C
  close_connection t c =
      (record t { connection = none }, elim t.connection [ none ↦ c | some _ ↦ env.logout c ])

  abbrev pub is_open_for : ImapConfig → Thread → Bool
  is_open_for config t = elim t.connection [
    | none ↦ false
    | some old ↦ has_same_key env.casefold old config
  ]

  abbrev pub connected :
      ImapConfig → Thread → Outcome Fault (Unit {0}) × C → Outcome Fault (Unit {0}) × Thread × C
  connected config t (raised e, c) = (raised e, t, c)
  connected config t (returned _, c) = (
    returned tt,
    record t {
      connection = some config;
      watcher = record { index = t.watcher.index; cursors = [] };
    },
    c,
  )

  -- `_ensure_connection`: the cursors belong to the old mailbox.
  unfoldable pub ensure_connection : ImapConfig → Thread → C → Outcome Fault (Unit {0}) × Thread × C
  unfolding has_same_key close_connection
  ensure_connection config t c =
      if is_open_for config t
      then (returned tt, t, c)
      else (let closed = close_connection t c in
          connected config closed.0 (env.connect config closed.1))

  -- `_handle_failure`
  unfoldable pub handle_failure : Fault → Thread → C → (Thread × C) × Pause
  unfolding close_connection backoff
  handle_failure e t c =
      let closed = close_connection t c in
      let failures = t.consecutive_failures + 1 in
      (
        (record closed.0 { consecutive_failures = failures; last_error = some e }, closed.1),
        Pause.back_off (backoff failures),
      )

  -- A cycle that ended well.
  unfoldable pub succeed : Bool → Thread → C → (Thread × C) × Pause
  unfolding poll_interval
  succeed added t c =
      let now = env.monotonic c in
      let t' = record t {
        last_success = some now.0;
        last_error = none;
        consecutive_failures = 0;
      } in
      (
        (t', if added then env.notify t'.listeners now.1 else now.1),
        Pause.sleep (max 50_000 (poll_interval s t')),
      )

  abbrev pub after_ingest : Thread → Outcome Fault Bool × Watcher × C → (Thread × C) × Pause
  after_ingest t (returned added, w, c) = succeed added (record t { watcher = w }) c
  after_ingest t (raised e, w, c) = handle_failure e (record t { watcher = w }) c

  abbrev pub after_connection :
      ImapConfig → Outcome Fault (Unit {0}) × Thread × C → (Thread × C) × Pause
  after_connection config (raised e, t, c) = handle_failure e t c
  after_connection config (returned _, t, c) =
      after_ingest t (ingest env.imap s.retention (scan_folders env.casefold config) t.watcher c)

  -- Without a configuration the connection stays as it is.
  abbrev pub after_config : Thread → Option ImapConfig × C → (Thread × C) × Pause
  after_config t (none, c) = ((t, c), Pause.sleep (max 50_000 s.idle_poll))
  after_config t (some config, c) = after_connection config (ensure_connection config t c)

  -- One turn of `_run`, and what it waits for.
  unfoldable pub turn : Thread → C → (Thread × C) × Pause
  unfolding safe_config ensure_connection handle_failure succeed ingest scan_folders
  turn t c = after_config t (safe_config c)
