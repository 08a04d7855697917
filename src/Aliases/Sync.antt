-- ===== src/Aliases/Sync.antt =====
-- The synchronisation of `aliases` with Apple's list, in database.py: sync_remote_alias,
-- finish_remote_sync, count_remote_aliases.
pub mod WellFormed
pub mod Seen
use icloud_code_gateway.Base.{
  ℕ, String, Bool, false, not, ◌&&◌, none, some, List, [], ◌∷◌, ◌++◌, any, find, count_if, is_some,
  str_eq, if◌then◌else◌, ◌>>=◌, ◌>>◌, returned, raise_if,
}
use icloud_code_gateway.Errors
use icloud_code_gateway.Errors.{Result}
use icloud_code_gateway.Columns.{clean_text, normalize_email}
use icloud_code_gateway.Aliases.Rows.{
  AliasState, active, inactive, EdgeKeyStatus, Remote, Blob, Alias,
}
use icloud_code_gateway.Aliases.Table.{
  Aliases, has_id, is_inactive, update_alias, without_key, or_email,
}

-- An alias in Apple's list: what the program reads of it.
pub record Listed : Type 0 where
  pub remote : Remote
  pub label : String
  pub note : String

-- `"inactive" if remote.get("isActive") is False else "active"`
abbrev pub listed_state : Listed → AliasState
listed_state l = elim l.remote.is_active [ some false ↦ inactive | _ ↦ active ]

-- `remote_blob IS NOT NULL`
abbrev pub is_remote : Alias → Bool
is_remote a = is_some a.remote_blob

unfoldable pub count_remote_aliases : Aliases → ℕ
count_remote_aliases rows = count_if is_remote rows

-- The columns that a listed alias writes into its row: label and note stay the operator's.
abbrev pub synced : ℕ → ℕ → String → Listed → Alias → Alias
synced now synced_at email l a =
    let kept = if is_inactive (listed_state l) then without_key now a else a in
    record kept {
      email_blob = Blob.sealed email;
      remote_blob = some (Blob.sealed l.remote);
      state = listed_state l;
      updated_at = now;
      last_synced_at = some synced_at;
    }

module _ (casefold digest : String → String) where
  abbrev pub new_synced : String → ℕ → ℕ → String → String → String → Listed → Alias
  new_synced alias_id now synced_at email label note l = record {
    id = alias_id;
    email_hash = digest email;
    email_blob = Blob.sealed email;
    remote_blob = some (Blob.sealed l.remote);
    label = label;
    note = note;
    sender_filter = "";
    usage_label = "";
    state = listed_state l;
    access_key_hash = none;
    access_key_hint = none;
    access_key_blob = none;
    key_issued_at = none;
    key_revoked_at = none;
    edge_key_status = EdgeKeyStatus.unknown;
    edge_status_checked_at = none;
    created_at = now;
    updated_at = now;
    last_synced_at = some synced_at;
  }

  -- The transaction of `sync_remote_alias`, given a fresh `uuid4` and the time. The row that is read back
  -- has just been sealed.
  unfoldable pub sync_remote_alias :
      (alias_id : String) (now synced_at : ℕ) (email : String) → Listed → Aliases → Result Aliases
  unfolding normalize_email clean_text update_alias
  sync_remote_alias alias_id now synced_at email l rows = do
    address ← normalize_email casefold email
    label ← clean_text (or_email l.label address) 160
    note ← clean_text l.note 500
    elim (find (λ a. str_eq a.email_hash (digest address)) rows) [
      | none ↦ do
        raise_if (any (has_id alias_id) rows) Errors.integrity_error
        returned (rows ++ new_synced alias_id now synced_at address label note l ∷ [])
      | some a ↦ returned (update_alias a.id (synced now synced_at address l) rows)
    ]

  unfoldable pub digests_of : List String → Result (List String)
  unfolding normalize_email
  digests_of [] = returned []
  digests_of (email ∷ emails) = do
    address ← normalize_email casefold email
    digests ← digests_of emails
    returned (digest address ∷ digests)

-- `remote_blob IS NOT NULL AND email_hash NOT IN (…)`
abbrev pub is_unseen : List String → Alias → Bool
is_unseen digests a = is_remote a && not (any (str_eq a.email_hash) digests)

abbrev pub lost : ℕ → ℕ → Alias → Alias
lost now synced_at a = record (without_key now a) {
  state = inactive;
  last_synced_at = some synced_at;
}

unfoldable pub deactivate_unseen : ℕ → ℕ → List String → Aliases → Aliases
deactivate_unseen now synced_at digests [] = []
deactivate_unseen now synced_at digests (a ∷ rows) =
    (if is_unseen digests a then lost now synced_at a else a)
    ∷ deactivate_unseen now synced_at digests rows

-- `finish_remote_sync`, for the digests of the emails that were seen.
unfoldable pub finish_remote_sync :
    (casefold digest : String → String) (now synced_at : ℕ) → List String → Aliases → Result Aliases
unfolding digests_of deactivate_unseen
finish_remote_sync casefold digest now synced_at seen rows =
    digests_of casefold digest seen >>= λ digests.
    returned (deactivate_unseen now synced_at digests rows)
