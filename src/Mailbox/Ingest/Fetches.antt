-- ===== src/Mailbox/Ingest/Fetches.antt =====
-- The messages of a folder that a cycle fetches, as a history of the index.
use icloud_code_gateway.Base.{
  sym, refl, ℕ, ◌≡◌, ap, arith, String, Bool, true, false, ◌||◌, Option, none, some, List, [], ◌∷◌,
  ◌++◌, str_eq, returned, raised, All, Bool-cases, inl, inr, Outcome,
}
use icloud_code_gateway.Mailbox.Index.{Index, store}
use icloud_code_gateway.Mailbox.Index.History.{Event, stored, run}
use icloud_code_gateway.Mailbox.Ingest.Answers.{IsIn, Session, fetched, IsAnswer}
use icloud_code_gateway.Mailbox.Ingest.{
  Fault, ParsedMessage, Connection, is_empty, entry_of, then_index, then_fetched, then_batch,
  index_parsed, index_message, index_fetched, index_batches,
}

-- The index of a history that begins with the given one and goes on with answers of the connection.
abbrev pub Extends : {C M : Type 0} → Connection C M → List String → ℕ → List Event → Index → Type 0
Extends imap folders retention events index =
    (more : List Event) × (index ≡ run retention (more ++ events))
    × All (IsAnswer imap folders) more

module _ {C M : Type 0} (imap : Connection C M) (folders : List String) where
  -- A state of the connection in the session of a folder.
  pub record Selected (folder : String) (c : C) : Type 0 where
    pub before : C
    pub scanned : IsIn folder folders
    pub selected : (imap.select folder before).0 ≡ returned true
    pub session : Session imap (imap.select folder before).1 c

module _ {C M : Type 0} (imap : Connection C M) (folders : List String) (retention : ℕ)
    (events : List Event) where
  abbrev Grows : Index → Type 0
  Grows = Extends imap folders retention events

  -- A message that FETCH answered in the session of a folder.
  record Fetched (folder uid : String) (m : M) (at : ℕ) : Type 0 where
    before : C
    state : C
    uids : List String
    scanned : IsIn folder folders
    selected : (imap.select folder before).0 ≡ returned true
    session : Session imap (imap.select folder before).1 state
    answered : IsIn (uid, m, some at) (imap.fetch uids state).0

  index_parsed-Grows :
      (folder uid : String) (m : M) (at : ℕ) (parsed : ParsedMessage) (index : Index)
      → Fetched folder uid m at
      → imap.parse m ≡ returned parsed
      → Grows index
      → Grows (index_parsed imap retention folder uid at parsed index).1
  unfolding index_parsed run
  index_parsed-Grows folder uid m at parsed index f read g =
      elim (Bool-cases (str_eq parsed.code "" || is_empty parsed.recipients)) [
        | inl nothing ↦ rw nothing g
        | inr code ↦
            let has_code : str_eq parsed.code "" ≡ false = ground arith in
            let has_recipient : is_empty parsed.recipients ≡ false = ground arith in
            rw code (
              stored parsed.recipients (entry_of folder uid at parsed) ∷ g.0,
              ap (λ i. (store parsed.recipients (entry_of folder uid at parsed) i).1) g.1,
              (
                record {
                  before = f.before;
                  state = f.state;
                  uids = f.uids;
                  message = m;
                  parsed = parsed;
                  scanned = f.scanned;
                  selected = f.selected;
                  session = f.session;
                  answered = f.answered;
                  read = read;
                  recipients = refl;
                  code = refl;
                  from_header = refl;
                  has_code = has_code;
                  has_recipient = has_recipient;
                },
                g.2,
              ),
            )
      ]

  index_message-Grows :
      (folder uid : String) (m : M) (date : Option ℕ) (index : Index)
      → ((at : ℕ) → date ≡ some at → Fetched folder uid m at)
      → Grows index
      → Grows (index_message imap retention folder uid (m, date) index).1
  unfolding index_message
  index_message-Grows folder uid m none index f g = g
  index_message-Grows folder uid m (some at) index f g = by_parse (imap.parse m) refl
    where
      by_parse :
          (parsed : Outcome Fault ParsedMessage)
          → imap.parse m ≡ parsed
          → Grows (then_index imap retention folder uid at parsed index).1
      by_parse (raised e) read = g
      by_parse (returned parsed) read =
          index_parsed-Grows folder uid m at parsed index (f at refl) read g

  then_fetched-Grows :
      (one : Outcome Fault Bool × Index)
      → Grows one.1
      → (k : Index → Outcome Fault Bool × Index) → ((i : Index) → Grows i → Grows (k i).1)
      → Grows (then_fetched imap retention one k).1
  then_fetched-Grows (raised e, i) g k h = g
  then_fetched-Grows (returned added, i) g k h = h i g

  index_fetched-Grows :
      (folder : String) (answer : List (String × M × Option ℕ)) (index : Index)
      → ((uid : String) (m : M) (at : ℕ) → IsIn (uid, m, some at) answer → Fetched folder uid m at)
      → Grows index
      → Grows (index_fetched imap retention folder answer index).1
  unfolding index_fetched
  index_fetched-Grows folder [] index f g = g
  index_fetched-Grows folder ((uid, m, date) ∷ rest) index f g =
      then_fetched-Grows (index_message imap retention folder uid (m, date) index)
        (index_message-Grows folder uid m date index
          (λ at dated. f uid m at (inl (ap (λ x. (uid, m, x)) (sym dated)))) g)
        (λ i. index_fetched imap retention folder rest i)
        (λ i. index_fetched-Grows folder rest i (λ u n at i'. f u n at (inr i')))

  then_batch-Grows :
      (one : Outcome Fault Bool × Index) (c : C) (k : Index → C → Outcome Fault Bool × Index × C)
      → Grows one.1
      → ((i : Index) → Grows i → Grows (k i c).1)
      → Grows (then_batch imap retention one c k).1
  then_batch-Grows (raised e, i) c k g h = g
  then_batch-Grows (returned added, i) c k g h = h i g

  pub index_batches-Grows :
      (folder : String) (uids : List (List String)) (index : Index) (c : C)
      → Selected imap folders folder c
      → Grows index
      → Grows (index_batches imap retention folder uids index c).1
  unfolding index_batches
  index_batches-Grows folder [] index c s g = g
  index_batches-Grows folder (batch ∷ rest) index c s g =
      then_batch-Grows (index_fetched imap retention folder (imap.fetch batch c).0 index)
        (imap.fetch batch c).1 _
        (index_fetched-Grows folder (imap.fetch batch c).0 index
          (λ uid m at i. record {
            before = s.before;
            state = c;
            uids = batch;
            scanned = s.scanned;
            selected = s.selected;
            session = s.session;
            answered = i;
          })
          g)
        (λ i. index_batches-Grows folder rest i (imap.fetch batch c).1 (record {
          before = s.before;
          scanned = s.scanned;
          selected = s.selected;
          session = fetched batch s.session;
        }))
