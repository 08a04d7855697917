-- ===== src/Aliases/Table/Examples.antt =====
-- A run of the alias table of database.py: an alias is created, gets a key, gets another, and is
-- deactivated.
use icloud_code_gateway.Base.{
  String, ◌≡◌, ◌≢◌, refl, false, ◌&&◌, ◌⊎◌, none, some, [], ◌∷◌, any, find, eq_iff, last_four,
  returned, raised,
}
use icloud_code_gateway.Errors
use icloud_code_gateway.Security.{validate_access_key}
use icloud_code_gateway.Aliases.Rows.{AliasState, EdgeKeyStatus, sealed, Alias}
use icloud_code_gateway.Aliases.Table.{
  has_id, answers, with_key, without_key, set_alias_state, revoke_access_key, issue_access_key,
  reveal_access_key, IssuedAccessKey, AliasInput, upsert_alias,
}
use icloud_code_gateway.Aliases.Table.WellFormed.{IsWellFormed}
use icloud_code_gateway.Aliases.Table.Reach.{
  Reach, start, step, upserted, issued, Reach-IsWellFormed,
}
use icloud_code_gateway.Aliases.Table.Keys.{
  reveal_access_key-total, issue_access_key-opens, issue_access_key-rotates,
  revoke_access_key-closes, set_alias_state-closes,
}

abbrev same_text : String → String
same_text s = s

abbrev key_1 : String
key_1 = "icg_abcdefghijklmnopqrstuvwxyz0123456789ABCDEFG"

abbrev key_2 : String
key_2 = "icg_ABCDEFGHIJKLMNOPQRSTUVWXYZ0123456789abcdefg"

abbrev shop : AliasInput
shop = record {
  email = "quiet.fox@icloud.com";
  remote_metadata = none;
  label = "shop";
  note = "";
  sender_filter = "";
  state = AliasState.active;
  synced_at = none;
}

abbrev row : Alias
row = record {
  id = "alias-1";
  email_hash = "quiet.fox@icloud.com";
  email_blob = sealed "quiet.fox@icloud.com";
  remote_blob = none;
  label = "shop";
  note = "";
  sender_filter = "";
  usage_label = "";
  state = AliasState.active;
  access_key_hash = none;
  access_key_hint = none;
  access_key_blob = none;
  key_issued_at = none;
  key_revoked_at = none;
  edge_key_status = EdgeKeyStatus.unknown;
  edge_status_checked_at = none;
  created_at = 10;
  updated_at = 10;
  last_synced_at = none;
}

abbrev keyed_row : Alias
keyed_row = with_key key_1 key_1 20 row

abbrev rotated_row : Alias
rotated_row = with_key key_2 key_2 30 keyed_row

abbrev issue_of : String → IssuedAccessKey
issue_of key = record { alias_id = "alias-1"; access_key = key; hint = last_four key }

created_once :
    upsert_alias same_text same_text "alias-1" 10 shop [] ≡ returned ("alias-1", row ∷ [])
unfolding upsert_alias
created_once = refl

valid_1 : validate_access_key key_1 ≡ returned key_1
unfolding validate_access_key
valid_1 = refl

valid_2 : validate_access_key key_2 ≡ returned key_2
unfolding validate_access_key
valid_2 = refl

issued_1 :
    issue_access_key same_text "alias-1" key_1 20 (row ∷ [])
    ≡ returned (issue_of key_1, keyed_row ∷ [])
unfolding issue_access_key
issued_1 = refl

issued_2 :
    issue_access_key same_text "alias-1" key_2 30 (keyed_row ∷ [])
    ≡ returned (issue_of key_2, rotated_row ∷ [])
unfolding issue_access_key
issued_2 = refl

keyed : Reach same_text same_text same_text (keyed_row ∷ [])
keyed =
    step (step start (upserted "alias-1" "alias-1" 10 shop created_once))
      (issued "alias-1" key_1 20 (issue_of key_1) valid_1 issued_1)

Reach-IsWellFormed_example : IsWellFormed same_text (keyed_row ∷ [])
Reach-IsWellFormed_example = Reach-IsWellFormed same_text same_text same_text keyed

reveal_access_key-total_example :
    ((keyed_row.access_key_hash ≡ none)
      × (reveal_access_key same_text "alias-1" (keyed_row ∷ []) ≡ raised Errors.conflict))
    ⊎ ((key : String) × (keyed_row.access_key_hash ≡ some (same_text key))
        × (reveal_access_key same_text "alias-1" (keyed_row ∷ []) ≡ returned key))
reveal_access_key-total_example =
    reveal_access_key-total same_text same_text same_text (keyed_row ∷ []) "alias-1" keyed_row keyed
      refl

issue_access_key-opens_example :
    ((a : Alias) × (find (answers key_1) (keyed_row ∷ []) ≡ some a) × (a.id ≡ "alias-1"))
    × (reveal_access_key same_text "alias-1" (keyed_row ∷ []) ≡ returned key_1)
issue_access_key-opens_example =
    issue_access_key-opens same_text "alias-1" key_1 20 (row ∷ []) (keyed_row ∷ []) (issue_of key_1)
      valid_1 issued_1

-- A second alias, which holds the key "old".
abbrev other_row : Alias
other_row = record (with_key "old" "old" 20 row) { id = "alias-2"; email_hash = "other@icloud.com" }

issued_beside :
    issue_access_key same_text "alias-1" key_1 20 (row ∷ other_row ∷ [])
    ≡ returned (issue_of key_1, keyed_row ∷ other_row ∷ [])
unfolding issue_access_key
issued_beside = refl

other_key : "old" ≢ key_1
other_key e = cc ((eq_iff "old" key_1).1 e)

issue_access_key-rotates_example : other_row.id ≢ "alias-1"
issue_access_key-rotates_example =
    issue_access_key-rotates same_text "alias-1" key_1 20 (row ∷ other_row ∷ [])
      (keyed_row ∷ other_row ∷ []) (issue_of key_1) valid_1 issued_beside "old" other_row other_key
      refl

revoked_once :
    revoke_access_key "alias-1" 40 (rotated_row ∷ []) ≡ returned (without_key 40 rotated_row ∷ [])
unfolding revoke_access_key
revoked_once = refl

revoke_access_key-closes_example :
    any (λ b. has_id "alias-1" b && answers key_2 b) (without_key 40 rotated_row ∷ []) ≡ false
revoke_access_key-closes_example =
    revoke_access_key-closes "alias-1" 40 (rotated_row ∷ []) (without_key 40 rotated_row ∷ []) key_2
      revoked_once

abbrev closed_row : Alias
closed_row = record (without_key 40 rotated_row) { state = AliasState.inactive }

deactivated_once :
    set_alias_state "alias-1" AliasState.inactive 40 (rotated_row ∷ []) ≡ returned (closed_row ∷ [])
unfolding set_alias_state
deactivated_once = refl

set_alias_state-closes_example :
    (reveal_access_key same_text "alias-1" (closed_row ∷ []) ≡ raised Errors.conflict)
    × (any (λ b. has_id "alias-1" b && answers key_2 b) (closed_row ∷ []) ≡ false)
set_alias_state-closes_example =
    set_alias_state-closes same_text "alias-1" 40 (rotated_row ∷ []) (closed_row ∷ []) key_2
      deactivated_once
