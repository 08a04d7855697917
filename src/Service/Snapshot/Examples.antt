-- ===== src/Service/Snapshot/Examples.antt =====
-- A table of one alias that Apple's list does not name, and a list with one new alias.
use icloud_code_gateway.Base.{◌≡◌, refl, String, true, some, none, List, [], ◌∷◌, returned}
use icloud_code_gateway.Aliases.Rows.{active, EdgeKeyStatus, Blob, Remote, Alias}
use icloud_code_gateway.Aliases.Sync.{Listed, digests_of}
use icloud_code_gateway.Service.Snapshot.{
  Tables, Turn, email_of, sync_all, reconcile_remote_aliases, all_valid, is_invalid,
}
use icloud_code_gateway.Service.Snapshot.Bounded.{IsBounded, reconcile-IsBounded}

abbrev remote : String → String → Remote
remote email id = record {
  hme = some email;
  email = none;
  anonymous_id = some id;
  is_active = some true;
  create_timestamp = none;
}

abbrev old : Alias
old = record {
  id = "alias-1";
  email_hash = "old.owl@icloud.com";
  email_blob = Blob.sealed "old.owl@icloud.com";
  remote_blob = some (Blob.sealed (remote "old.owl@icloud.com" "anonymous-1"));
  label = "shop";
  note = "";
  sender_filter = "";
  usage_label = "";
  state = active;
  access_key_hash = none;
  access_key_hint = none;
  access_key_blob = none;
  key_issued_at = none;
  key_revoked_at = none;
  edge_key_status = EdgeKeyStatus.unknown;
  edge_status_checked_at = none;
  created_at = 1;
  updated_at = 1;
  last_synced_at = none;
}

abbrev tables : Tables
tables = record { aliases = old ∷ []; audit = [] }

abbrev new : Listed
new = record { remote = remote "New.Fox@icloud.com" "anonymous-2"; label = ""; note = "" }

abbrev same : String → String
same s = s

abbrev turns : List Turn
turns = record { listed = new; fresh_id = "alias-2"; now = 5 } ∷ []

is_valid : all_valid same [] [] (new ∷ []) ≡ true
unfolding all_valid is_invalid
is_valid = refl

loop_ends : (sync_all same same 7 turns tables).0 ≡ returned tt
unfolding sync_all
loop_ends = refl

reconcile-IsBounded_example :
    IsBounded same same 7
      ("New.Fox@icloud.com" ∷ [])
      9
      (sync_all same same 7 turns tables).1.aliases
      (reconcile_remote_aliases same same 7 turns 9 tables).1.aliases
unfolding digests_of email_of
reconcile-IsBounded_example =
    reconcile-IsBounded same same 7 turns 9 tables ("New.Fox@icloud.com" ∷ []) loop_ends refl
      (refl, tt)
