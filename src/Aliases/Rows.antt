-- ===== src/Aliases/Rows.antt =====
-- The rows of `aliases`, and what `_alias_from_row` reads from them. A blob is what `SecretBox` sealed,
-- or `damaged`; the blob of an access key carries the purpose that it was sealed for, without which it
-- cannot be opened. Times are milliseconds since the epoch.
use icloud_code_gateway.Base.{
  ℕ, String, Bool, ◌&&◌, Option, none, some, is_some, str_eq, ◌>>=◌, returned, raised,
  if◌then◌else◌,
}
use icloud_code_gateway.Errors.{Result, security_error}

pub data AliasState : Type 0 where
  active inactive : AliasState

pub data EdgeKeyStatus : Type 0 where
  unknown present absent not_found : EdgeKeyStatus

-- The keys of Apple's alias object that the program reads.
pub record Remote : Type 0 where
  pub hme : Option String
  pub email : Option String
  pub anonymous_id : Option String
  pub is_active : Option Bool
  pub create_timestamp : Option ℕ

pub data Blob (A : Type 0) : Type 0 where
  sealed : A → Blob A
  damaged : Blob A

-- `SecretBox.encrypt(key, f"alias-access-key:{alias_id}")`: the alias for which the key was sealed.
pub data KeyBlob : Type 0 where
  key_blob : (alias_id key : String) → KeyBlob
  damaged : KeyBlob

pub record Alias : Type 0 where
  pub id : String
  pub email_hash : String
  pub email_blob : Blob String
  pub remote_blob : Option (Blob Remote)
  pub label : String
  pub note : String
  pub sender_filter : String
  pub usage_label : String
  pub state : AliasState
  pub access_key_hash : Option String
  pub access_key_hint : Option String
  pub access_key_blob : Option KeyBlob
  pub key_issued_at : Option ℕ
  pub key_revoked_at : Option ℕ
  pub edge_key_status : EdgeKeyStatus
  pub edge_status_checked_at : Option ℕ
  pub created_at : ℕ
  pub updated_at : ℕ
  pub last_synced_at : Option ℕ

pub record AliasView : Type 0 where
  pub id : String
  pub email : String
  pub remote_metadata : Option Remote
  pub label : String
  pub note : String
  pub sender_filter : String
  pub usage_label : String
  pub state : AliasState
  pub has_access_key : Bool
  pub access_key_recoverable : Bool
  pub access_key_hint : Option String
  pub key_issued_at : Option ℕ
  pub key_revoked_at : Option ℕ
  pub edge_key_status : EdgeKeyStatus
  pub edge_status_checked_at : Option ℕ
  pub created_at : ℕ
  pub updated_at : ℕ
  pub last_synced_at : Option ℕ

unfoldable pub open_blob : {A : Type 0} → Blob A → Result A
open_blob (sealed a) = returned a
open_blob damaged = raised security_error

unfoldable pub open_remote : Option (Blob Remote) → Result (Option Remote)
open_remote none = returned none
open_remote (some (sealed r)) = returned (some r)
open_remote (some damaged) = raised security_error

-- `SecretBox.decrypt(blob, f"alias-access-key:{alias_id}")`
unfoldable pub open_key : String → KeyBlob → Result String
open_key alias_id (key_blob sealed_for key) =
    if str_eq sealed_for alias_id then returned key else raised security_error
open_key alias_id damaged = raised security_error

unfoldable pub alias_from_row : Alias → Result AliasView
unfolding open_blob open_remote
alias_from_row a = do
  email ← open_blob a.email_blob
  remote ← open_remote a.remote_blob
  returned (record {
    id = a.id;
    email = email;
    remote_metadata = remote;
    label = a.label;
    note = a.note;
    sender_filter = a.sender_filter;
    usage_label = a.usage_label;
    state = a.state;
    has_access_key = is_some a.access_key_hash;
    access_key_recoverable = is_some a.access_key_hash && is_some a.access_key_blob;
    access_key_hint = a.access_key_hint;
    key_issued_at = a.key_issued_at;
    key_revoked_at = a.key_revoked_at;
    edge_key_status = a.edge_key_status;
    edge_status_checked_at = a.edge_status_checked_at;
    created_at = a.created_at;
    updated_at = a.updated_at;
    last_synced_at = a.last_synced_at;
  })
