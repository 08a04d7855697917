-- ===== src/Service/Lookup/Calls.antt =====
-- What a lookup of service.py works with: the tables, the limiter, the watcher, and an environment whose
-- calls are known by what they answer.
use icloud_code_gateway.Base.{
  ℕ, ◌*◌, max, String, Bool, Option, List, [], ◌∷◌, ◌++◌, if◌then◌else◌, Outcome, returned, raised,
}
use icloud_code_gateway.Errors.{Exception, Result}
use icloud_code_gateway.Aliases.Rows.{AliasView}
use icloud_code_gateway.Aliases.Table.{Aliases, find_alias_by_access_key_hash}
use icloud_code_gateway.RateLimit.{Events, check}
use icloud_code_gateway.Mailbox.Senders.{Headers}
use icloud_code_gateway.Mailbox.Index.{second}
use icloud_code_gateway.Mailbox.Config.{ImapConfig}
use icloud_code_gateway.Mailbox.Loop
use icloud_code_gateway.Mailbox.Loop.{Thread, ready}

pub data LookupFault : Type 0 where
  not_allowed not_configured busy gateway_error : LookupFault
  rate_limited : ℕ → LookupFault
  -- any other exception, of the database
  failed : Exception → LookupFault

pub data ScanFault : Type 0 where
  imap_credentials_error imap_error : ScanFault
  other : Exception → ScanFault

pub record PreparedLookup : Type 0 where
  pub alias_id : String
  pub email : String
  pub sender_filter : String
  pub client_ip : String

pub data Status : Type 0 where
  found waiting invalid_key : Status

pub record CodeLookupResult : Type 0 where
  pub status : Status
  pub code : String
  pub received_at : Option ℕ
  pub expires_at : Option ℕ
  pub retry_after : Option ℕ

-- A row of `audit_events` for "code_lookup"; the database keeps a digest of the address.
pub record LookupAudit : Type 0 where
  pub outcome : String
  pub alias_id : Option String
  pub client_ip : String

-- A code that the scan of the mailbox has found, and when it came.
pub record OtpResult : Type 0 where
  pub code : String
  pub received_at : ℕ

pub record State (W : Type 0) : Type 0 where
  pub limiter : Events
  pub aliases : Aliases
  pub thread : Thread
  pub audit : List LookupAudit
  pub world : W

pub record Environment (W : Type 0) : Type 0 where
  pub serves_public_otp : Bool
  pub otp_max_age_seconds : ℕ
  pub otp_future_skew_seconds : ℕ
  pub mailbox_api_password : String
  pub watcher_settings : Loop.Settings
  pub headers : Headers
  pub sha256 : String → String
  pub digest : String → String
  -- microseconds of the monotonic clock, and since the epoch
  pub monotonic : W → ℕ × W
  pub clock : W → ℕ × W
  pub is_alive : W → Bool × W
  pub get_imap_config : W → Result (Option ImapConfig) × W
  -- `_imap_slots`
  pub acquire_slot : W → Bool × W
  pub release_slot : W → W
  -- `find_latest_code` for an email and a sender filter, at a time
  pub find_latest_code :
      ImapConfig
      → (email sender_filter : String) (now : ℕ) → W
      → Outcome ScanFault (Option OtpResult) × W

abbrev pub Lookup : Type 0 → Type 0 → Type 0
Lookup W A = State W → Outcome LookupFault A × State W

module _ {W A : Type 0} where
  abbrev pub pure : A → Lookup W A
  pure a s = (returned a, s)

  abbrev pub raise : LookupFault → Lookup W A
  raise e s = (raised e, s)

module _ {W A B : Type 0} where
  abbrev pub continue : Outcome LookupFault A → (A → Lookup W B) → Lookup W B
  continue (returned a) f s = f a s
  continue (raised e) f s = (raised e, s)

  infixl 5 ◌>>=◌ ◌>>◌
  unfoldable pub ◌>>=◌ : Lookup W A → (A → Lookup W B) → Lookup W B
  ◌>>=◌ m f s = continue (m s).0 f (m s).1

  abbrev pub ◌>>◌ : Lookup W A → Lookup W B → Lookup W B
  m >> k = m >>= λ _. k

-- What the database or the configuration raises passes through.
abbrev pub lifted : {A : Type 0} → Result A → Outcome LookupFault A
lifted (returned a) = returned a
lifted (raised e) = raised (failed e)

module _ {W : Type 0} (env : Environment W) where
  unfoldable pub ask : {A : Type 0} → (W → A × W) → Lookup W A
  ask f s = (returned (f s.world).0, record s { world = (f s.world).1 })

  -- `_audit_lookup`
  unfoldable pub audit_lookup : String → String → Option String → Lookup W (Unit {0})
  audit_lookup outcome client_ip alias_id s = (
    returned tt,
    record s {
      audit =
          s.audit ++ record { outcome = outcome; alias_id = alias_id; client_ip = client_ip } ∷ [];
    },
  )

  -- `rate_limiter.check(…)`, and `GatewayRateLimitedError` if it is refused; windows are in seconds.
  unfoldable pub charge : (bucket key : String) (limit window_seconds : ℕ) → Lookup W (Unit {0})
  charge bucket key limit window s =
      let now = env.monotonic s.world in
      let done =
        check (record { bucket = bucket; key = key }) limit (window * second) now.0 s.limiter in
      (
        if done.0.allowed then returned tt else raised (rate_limited (max 1 done.0.retry_after)),
        record s { limiter = done.1; world = now.1 },
      )

  -- `get_imap_config`
  unfoldable pub imap_config : Lookup W (Option ImapConfig)
  imap_config s =
      let got = env.get_imap_config s.world in (lifted got.0, record s { world = got.1 })

  unfoldable pub find_by_key : String → Lookup W (Option AliasView)
  find_by_key digest s = (lifted (find_alias_by_access_key_hash digest s.aliases), s)

  -- `_require_public_otp`
  unfoldable pub require_public_otp : Lookup W (Unit {0})
  require_public_otp s = (if env.serves_public_otp then returned tt else raised not_allowed, s)
