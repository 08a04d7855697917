-- ===== src/Aliases/Table/Reach.antt =====
-- Every alias table that the operations can build.
use icloud_code_gateway.Base.{List, Ensures-returned, ℕ, String, ◌≡◌, [], returned}
use icloud_code_gateway.Security.{validate_access_key}
use icloud_code_gateway.Aliases.Rows.{EdgeKeyStatus, AliasState}
use icloud_code_gateway.Aliases.Table.{
  set_alias_state, IssuedAccessKey, delete_alias, revoke_access_key, update_edge_key_status,
  Aliases, import_access_key, issue_access_key, AliasInput, upsert_alias,
}
use icloud_code_gateway.Aliases.Sync.{Listed, sync_remote_alias, finish_remote_sync}
use icloud_code_gateway.Aliases.Sync.WellFormed.{sync-IsWellFormed, finish-IsWellFormed}
use icloud_code_gateway.Aliases.Table.WellFormed.{
  IsWellFormed, upsert-IsWellFormed, issue-IsWellFormed, import-IsWellFormed, revoke-IsWellFormed,
  set_state-IsWellFormed, edge_status-IsWellFormed, delete-IsWellFormed,
}

module _ (sha256 : String → String) where
  -- One transaction. The text that `issue_access_key` draws is a well-formed key.
  pub data Step (casefold digest : String → String) (rows : Aliases) : Aliases → Type 0 where
    upserted :
        {after : Aliases} (fresh_id written_id : String) (now : ℕ) (i : AliasInput)
        → upsert_alias casefold digest fresh_id now i rows ≡ returned (written_id, after)
        → Step casefold digest rows after
    issued :
        {after : Aliases} (alias_id key : String) (now : ℕ) (k : IssuedAccessKey)
        → validate_access_key key ≡ returned key
        → issue_access_key sha256 alias_id key now rows ≡ returned (k, after)
        → Step casefold digest rows after
    imported :
        {after : Aliases} (alias_id value : String) (now : ℕ) (k : IssuedAccessKey)
        → import_access_key sha256 alias_id value now rows ≡ returned (k, after)
        → Step casefold digest rows after
    revoked :
        {after : Aliases} (alias_id : String) (now : ℕ)
        → revoke_access_key alias_id now rows ≡ returned after
        → Step casefold digest rows after
    state_set :
        {after : Aliases} (alias_id : String) (state : AliasState) (now : ℕ)
        → set_alias_state alias_id state now rows ≡ returned after
        → Step casefold digest rows after
    edge_status_set :
        {after : Aliases} (alias_id : String) (status : EdgeKeyStatus) (now : ℕ)
        → update_edge_key_status alias_id status now rows ≡ returned after
        → Step casefold digest rows after
    deleted :
        {after : Aliases} (alias_id : String)
        → delete_alias alias_id rows ≡ returned after
        → Step casefold digest rows after
    listed :
        {after : Aliases} (fresh_id : String) (now synced_at : ℕ) (email : String) (l : Listed)
        → sync_remote_alias casefold digest fresh_id now synced_at email l rows ≡ returned after
        → Step casefold digest rows after
    unlisted :
        {after : Aliases} (now synced_at : ℕ) (seen : List String)
        → finish_remote_sync casefold digest now synced_at seen rows ≡ returned after
        → Step casefold digest rows after

  pub data Reach (casefold digest : String → String) : Aliases → Type 0 where
    start : Reach casefold digest []
    step :
        {rows after : Aliases}
        → Reach casefold digest rows
        → Step casefold digest rows after
        → Reach casefold digest after

  Step-IsWellFormed :
      (casefold digest : String → String) {rows after : Aliases}
      → Step casefold digest rows after
      → IsWellFormed sha256 rows
      → IsWellFormed sha256 after
  Step-IsWellFormed c d {rows} {after} (upserted fresh_id written_id now i e) w =
      Ensures-returned (λ r. IsWellFormed sha256 r.1) (upsert_alias c d fresh_id now i rows)
        (written_id, after) (upsert-IsWellFormed sha256 c d fresh_id now i rows w) e
  Step-IsWellFormed c d {rows} {after} (issued alias_id key now k v e) w =
      Ensures-returned (λ r. IsWellFormed sha256 r.1)
        (issue_access_key sha256 alias_id key now rows) (k, after)
        (issue-IsWellFormed sha256 alias_id key now rows v w) e
  Step-IsWellFormed c d {rows} {after} (imported alias_id value now k e) w =
      Ensures-returned (λ r. IsWellFormed sha256 r.1)
        (import_access_key sha256 alias_id value now rows) (k, after)
        (import-IsWellFormed sha256 alias_id value now rows w) e
  Step-IsWellFormed c d {rows} {after} (revoked alias_id now e) w =
      Ensures-returned (IsWellFormed sha256) (revoke_access_key alias_id now rows) after
        (revoke-IsWellFormed sha256 alias_id now rows w) e
  Step-IsWellFormed c d {rows} {after} (state_set alias_id state now e) w =
      Ensures-returned (IsWellFormed sha256) (set_alias_state alias_id state now rows) after
        (set_state-IsWellFormed sha256 alias_id state now rows w) e
  Step-IsWellFormed c d {rows} {after} (edge_status_set alias_id status now e) w =
      Ensures-returned (IsWellFormed sha256) (update_edge_key_status alias_id status now rows) after
        (edge_status-IsWellFormed sha256 alias_id status now rows w) e
  Step-IsWellFormed c d {rows} {after} (deleted alias_id e) w =
      Ensures-returned (IsWellFormed sha256) (delete_alias alias_id rows) after
        (delete-IsWellFormed sha256 alias_id rows w) e
  Step-IsWellFormed c d {rows} {after} (listed fresh_id now synced_at email l e) w =
      Ensures-returned (IsWellFormed sha256)
        (sync_remote_alias c d fresh_id now synced_at email l rows) after
        (sync-IsWellFormed sha256 c d fresh_id now synced_at email l rows w) e
  Step-IsWellFormed c d {rows} {after} (unlisted now synced_at seen e) w =
      Ensures-returned (IsWellFormed sha256) (finish_remote_sync c d now synced_at seen rows) after
        (finish-IsWellFormed sha256 c d now synced_at seen rows w) e

  -- In every alias table that the operations can build, ids are distinct, an alias without a key has
  -- none of a key's columns, and an alias with a key is active, is not revoked, and stores a
  -- recoverable, well-formed key whose hash and last four characters are the other columns.
  pub Reach-IsWellFormed :
      (casefold digest : String → String) {rows : Aliases}
      → Reach casefold digest rows
      → IsWellFormed sha256 rows
  Reach-IsWellFormed c d start = record { keyed = tt; distinct = tt }
  Reach-IsWellFormed c d (step r s) = Step-IsWellFormed c d s (Reach-IsWellFormed c d r)
