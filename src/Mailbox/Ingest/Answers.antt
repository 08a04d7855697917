-- ===== src/Mailbox/Ingest/Answers.antt =====
-- What a cycle may do to the index, given what the connection answers.
use icloud_code_gateway.Base.{
  ℕ, ◌≡◌, ◌⊎◌, String, true, false, some, List, [], ◌∷◌, str_eq, returned,
}
use icloud_code_gateway.Mailbox.Index.{IndexedCode}
use icloud_code_gateway.Mailbox.Index.History.{Event, stored, pruned}
use icloud_code_gateway.Mailbox.Ingest.{ParsedMessage, Connection, is_empty}

abbrev pub IsIn : {A : Type 0} → A → List A → Type 0
IsIn a [] = ⊥
IsIn a (x ∷ xs) = (a ≡ x) ⊎ IsIn a xs

module _ {C M : Type 0} (imap : Connection C M) where
  -- The states of the connection from a given one on, while no other folder is selected.
  pub data Session (opened : C) : C → Type 0 where
    begun : Session opened opened
    timed : {d : C} → Session opened d → Session opened (imap.clock d).1
    searched_since :
        {d : C} (since : ℕ) → Session opened d → Session opened (imap.search_since since d).1
    searched_uid : {d : C} (from : ℕ) → Session opened d → Session opened (imap.search_uid from d).1
    fetched : {d : C} (uids : List String) → Session opened d → Session opened (imap.fetch uids d).1

  -- The entry is that of a message which FETCH answered, with its uid and its date, after one of the
  -- folders was selected, and which was parsed: the recipients, the code and the sender are what the
  -- parser found, and neither the code nor the list of recipients is empty.
  pub record IsFetched (folders : List String) (rs : List String) (e : IndexedCode) : Type 0 where
    pub before : C
    pub state : C
    pub uids : List String
    pub message : M
    pub parsed : ParsedMessage
    pub scanned : IsIn e.folder folders
    pub selected : (imap.select e.folder before).0 ≡ returned true
    pub session : Session (imap.select e.folder before).1 state
    pub answered : IsIn (e.uid, message, some e.received_at) (imap.fetch uids state).0
    pub read : imap.parse message ≡ returned parsed
    pub recipients : rs ≡ parsed.recipients
    pub code : e.code ≡ parsed.code
    pub from_header : e.from_header ≡ parsed.from_header
    pub has_code : str_eq e.code "" ≡ false
    pub has_recipient : is_empty rs ≡ false

  -- A message is stored as it was fetched, and a pruning is at a time that the clock showed.
  abbrev pub IsAnswer : List String → Event → Type 0
  IsAnswer folders (stored rs e) = IsFetched folders rs e
  IsAnswer folders (pruned at) = (d : C) × (at ≡ (imap.clock d).0)
