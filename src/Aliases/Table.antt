-- ===== src/Aliases/Table.antt =====
-- The operations of database.py on aliases and their access keys. A transaction that raises rolls
-- back, so an operation returns the new table, or the exception and no table.
pub mod Invariant
pub mod Distinct
pub mod WellFormed
pub mod Reach
mod Examples
pub mod Keys
pub mod Checks
pub mod Lookup
use icloud_code_gateway.Base.{
  ℕ, String, Bool, true, false, not, ◌&&◌, ◌||◌, Option, none, some, List, [], ◌∷◌, ◌++◌, str_eq,
  is_some, if◌then◌else◌, coalesce, any, find, last_four, ◌>>=◌, ◌>>◌, returned, raised, raise_if,
}
use icloud_code_gateway.Errors
use icloud_code_gateway.Errors.{Result}
use icloud_code_gateway.Columns.{clean_text, normalize_email}
use icloud_code_gateway.Security.{validate_access_key, hash_access_key}
use icloud_code_gateway.Aliases.Rows.{
  AliasState, active, inactive, EdgeKeyStatus, Remote, Blob, sealed, KeyBlob, key_blob, Alias,
  AliasView, open_key, alias_from_row,
}

abbrev pub Aliases : Type 0
Aliases = List Alias

abbrev pub has_id : String → Alias → Bool
has_id alias_id a = str_eq a.id alias_id

abbrev pub is_active : Alias → Bool
is_active a = elim a.state [ active ↦ true | inactive ↦ false ]

-- `column = ?`, which is never true of NULL.
abbrev pub equals : Option String → String → Bool
equals none v = false
equals (some u) v = str_eq u v

-- `UPDATE aliases SET … WHERE id = ?`
unfoldable pub update_alias : String → (Alias → Alias) → Aliases → Aliases
update_alias alias_id f [] = []
update_alias alias_id f (a ∷ rows) =
    (if has_id alias_id a then f a else a) ∷ update_alias alias_id f rows

-- The update, and `NotFoundError` where it matches no row.
unfoldable pub update_one : String → (Alias → Alias) → Aliases → Result Aliases
unfolding update_alias
update_one alias_id f rows =
    if any (has_id alias_id) rows
    then returned (update_alias alias_id f rows)
    else raised Errors.not_found

unfoldable pub get_alias : String → Aliases → Result AliasView
get_alias alias_id rows = elim (find (has_id alias_id) rows) [
  | none ↦ raised Errors.not_found
  | some a ↦ alias_from_row a
]

abbrev pub answers : String → Alias → Bool
answers digest a = equals a.access_key_hash digest && not (is_some a.key_revoked_at) && is_active a

unfoldable pub find_alias_by_access_key_hash : String → Aliases → Result (Option AliasView)
find_alias_by_access_key_hash digest rows = elim (find (answers digest) rows) [
  | none ↦ returned none
  | some a ↦ alias_from_row a >>= λ view. returned (some view)
]

pub record IssuedAccessKey : Type 0 where
  pub alias_id : String
  pub access_key : String
  pub hint : String

-- The columns that a new key sets.
abbrev pub with_key : String → String → ℕ → Alias → Alias
with_key digest key now a = record a {
  access_key_hash = some digest;
  access_key_hint = some (last_four key);
  access_key_blob = some (key_blob a.id key);
  key_issued_at = some now;
  key_revoked_at = none;
  updated_at = now;
}

-- The columns that a revocation clears.
abbrev pub without_key : ℕ → Alias → Alias
without_key now a = record a {
  access_key_hash = none;
  access_key_hint = none;
  access_key_blob = none;
  key_revoked_at = some now;
  updated_at = now;
}

-- Another row holds this key.
abbrev pub is_taken : String → String → Aliases → Bool
is_taken alias_id digest = any (λ a. equals a.access_key_hash digest && not (has_id alias_id a))

-- The row may receive a key: it exists, and it is active.
unfoldable pub require_active : String → Aliases → Result (Unit {0})
require_active alias_id rows = elim (find (has_id alias_id) rows) [
  | none ↦ raised Errors.not_found
  | some a ↦ raise_if (not (is_active a)) Errors.conflict
]

unfoldable pub revoke_access_key : String → ℕ → Aliases → Result Aliases
unfolding update_one
revoke_access_key alias_id now rows = update_one alias_id (without_key now) rows

abbrev pub is_inactive : AliasState → Bool
is_inactive active = false
is_inactive inactive = true

-- `set_alias_state`: deactivation also clears the key.
unfoldable pub set_alias_state : String → AliasState → ℕ → Aliases → Result Aliases
unfolding update_one
set_alias_state alias_id state now rows =
    update_one alias_id
      (λ a.
        if is_inactive state
        then record (without_key now a) { state = state }
        else record a { state = state; updated_at = now })
      rows

unfoldable pub delete_rows : String → Aliases → Aliases
delete_rows alias_id [] = []
delete_rows alias_id (a ∷ rows) =
    let rest = delete_rows alias_id rows in if has_id alias_id a then rest else a ∷ rest

unfoldable pub delete_alias : String → Aliases → Result Aliases
unfolding delete_rows
delete_alias alias_id rows =
    if any (has_id alias_id) rows
    then returned (delete_rows alias_id rows)
    else raised Errors.not_found

-- The status is one of the four literals at every call.
unfoldable pub update_edge_key_status : String → EdgeKeyStatus → ℕ → Aliases → Result Aliases
unfolding update_one
update_edge_key_status alias_id status checked_at rows =
    update_one alias_id
      (λ a. record a { edge_key_status = status; edge_status_checked_at = some checked_at }) rows

module _ (sha256 : String → String) where
  -- `import_access_key`: a key that the caller supplies, unless another alias holds it.
  unfoldable pub import_access_key :
      String → String → ℕ → Aliases → Result (IssuedAccessKey × Aliases)
  unfolding hash_access_key require_active update_alias
  import_access_key alias_id access_key now rows = do
    key ← validate_access_key access_key
    digest ← hash_access_key sha256 key
    require_active alias_id rows
    raise_if (is_taken alias_id digest rows) Errors.conflict
    returned (
      record { alias_id = alias_id; access_key = key; hint = last_four key },
      update_alias alias_id (with_key digest key now) rows,
    )

  -- `issue_access_key`, given what `generate_access_key` returned. The column is UNIQUE.
  unfoldable pub issue_access_key :
      String → String → ℕ → Aliases → Result (IssuedAccessKey × Aliases)
  unfolding hash_access_key require_active update_alias
  issue_access_key alias_id access_key now rows = do
    digest ← hash_access_key sha256 access_key
    require_active alias_id rows
    raise_if (is_taken alias_id digest rows) Errors.integrity_error
    returned (
      record { alias_id = alias_id; access_key = access_key; hint = last_four access_key },
      update_alias alias_id (with_key digest access_key now) rows,
    )

  -- What `reveal_access_key` makes of a row.
  unfoldable pub reveal_row : String → Alias → Result String
  unfolding open_key hash_access_key
  reveal_row alias_id a = elim a.access_key_hash [
    | none ↦ raised Errors.conflict
    | some digest ↦
        if not (is_active a) || is_some a.key_revoked_at
        then raised Errors.conflict
        else elim a.access_key_blob [
          | none ↦ raised Errors.conflict
          | some blob ↦ elim (open_key alias_id blob >>= validate_access_key) [
            | raised _ ↦ raised Errors.database_error
            | returned key ↦ hash_access_key sha256 key >>= λ found.
                if str_eq found digest then returned key else raised Errors.database_error
          ]
        ]
  ]

  unfoldable pub reveal_access_key : String → Aliases → Result String
  unfolding reveal_row
  reveal_access_key alias_id rows = elim (find (has_id alias_id) rows) [
    | none ↦ raised Errors.not_found
    | some a ↦ reveal_row alias_id a
  ]

-- What the caller passes to `upsert_alias`.
pub record AliasInput : Type 0 where
  pub email : String
  pub remote_metadata : Option Remote
  pub label : String
  pub note : String
  pub sender_filter : String
  pub state : AliasState
  pub synced_at : Option ℕ

abbrev pub or_email : String → String → String
or_email label email = if str_eq label "" then email else label

abbrev sealed_remote : Option Remote → Option (Blob Remote)
sealed_remote none = none
sealed_remote (some r) = some (sealed r)

pub record CleanInput : Type 0 where
  pub email : String
  pub label : String
  pub note : String
  pub sender_filter : String

abbrev pub overwritten : ℕ → AliasInput → CleanInput → Alias → Alias
overwritten now i c a =
    let kept = if is_inactive i.state then without_key now a else a in
    record kept {
      email_blob = sealed c.email;
      remote_blob = coalesce (sealed_remote i.remote_metadata) a.remote_blob;
      label = c.label;
      note = c.note;
      sender_filter = c.sender_filter;
      state = i.state;
      updated_at = now;
      last_synced_at = coalesce i.synced_at a.last_synced_at;
    }

-- `digest` is `SecretBox.digest` for the purpose "alias-email-index"; `alias_id` is the fresh `uuid4`.
module _ (casefold digest : String → String) where
  unfoldable pub clean_input : AliasInput → Result CleanInput
  unfolding normalize_email clean_text
  clean_input i = do
    email ← normalize_email casefold i.email
    label ← clean_text (or_email i.label email) 160
    note ← clean_text i.note 500
    sender ← clean_text i.sender_filter 254
    returned (record { email = email; label = label; note = note; sender_filter = casefold sender })

  abbrev pub inserted : String → ℕ → AliasInput → CleanInput → Alias
  inserted alias_id now i c = record {
    id = alias_id;
    email_hash = digest c.email;
    email_blob = sealed c.email;
    remote_blob = sealed_remote i.remote_metadata;
    label = c.label;
    note = c.note;
    sender_filter = c.sender_filter;
    usage_label = "";
    state = i.state;
    access_key_hash = none;
    access_key_hint = none;
    access_key_blob = none;
    key_issued_at = none;
    key_revoked_at = none;
    edge_key_status = EdgeKeyStatus.unknown;
    edge_status_checked_at = none;
    created_at = now;
    updated_at = now;
    last_synced_at = i.synced_at;
  }

  -- The transaction of `upsert_alias`: the id of the row and the table. The caller reads the row back.
  unfoldable pub upsert_alias : String → ℕ → AliasInput → Aliases → Result (String × Aliases)
  unfolding clean_input update_alias
  upsert_alias alias_id now i rows = do
    c ← clean_input i
    elim (find (λ a. str_eq a.email_hash (digest c.email)) rows) [
      | none ↦ do
        raise_if (any (has_id alias_id) rows) Errors.integrity_error
        returned (alias_id, rows ++ inserted alias_id now i c ∷ [])
      | some a ↦ returned (a.id, update_alias a.id (overwritten now i c) rows)
    ]
