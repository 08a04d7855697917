-- ===== src/Mailbox/Ingest/Histories.antt =====
-- What a cycle does to the index is a history of messages and prunings.
use icloud_code_gateway.Base.{
  Option-cases, take, ◌+◌, ◌-◌, refl, ℕ, ◌≡◌, ap, String, Bool, true, false, ◌||◌, Option, none,
  some, List, [], ◌∷◌, returned, raised, inl, inr, Outcome,
}
use icloud_code_gateway.Mailbox.Index.{prune, Index}
use icloud_code_gateway.Mailbox.Index.History.{Event, pruned, run}
use mathlib.Core.Path.{subst}
use icloud_code_gateway.Mailbox.Ingest.Fetches.{Extends, Selected, index_batches-Grows}
use icloud_code_gateway.Mailbox.Ingest.Answers.{
  IsIn, Session, begun, timed, searched_since, searched_uid,
}
use icloud_code_gateway.Mailbox.Ingest.{
  cursor_of, seed_uids, new_uids, find_uids, day, Fault, Connection, Watcher, highest, batches,
  index_messages, move_cursor, then_search, then_ingest, go_on, ingest_uids, ingest_folder,
  ingest_folders, ingest,
}

module _ {C M : Type 0} (imap : Connection C M) (folders : List String) (retention : ℕ)
    (events : List Event) where
  abbrev Kept : Index → Type 0
  Kept = Extends imap folders retention events

  move_cursor-Kept :
      (folder : String) (n : ℕ) (w : Watcher) (done : Outcome Fault Bool × Index × C)
      → Kept done.1
      → Kept (move_cursor imap retention folder n w done).1.index
  move_cursor-Kept folder n w (raised e, index, c) g = g
  move_cursor-Kept folder n w (returned added, index, c) g = g

  ingest_uids-Kept :
      (folder : String) (us : List String) (w : Watcher) (c : C)
      → Selected imap folders folder c
      → Kept w.index
      → Kept (ingest_uids imap retention folder us w c).1.index
  unfolding ingest_uids index_messages
  ingest_uids-Kept folder [] w c s g = g
  ingest_uids-Kept folder (u ∷ us) w c s g = elim (Option-cases (highest (u ∷ take 59 us))) [
    | inl no_digits ↦ rw (no_digits, ingest_uids) g
    | inr (n, some_digits) ↦
        rw (some_digits, ingest_uids)
          (move_cursor-Kept folder n w
            (index_messages imap retention folder (u ∷ take 59 us) w.index c)
            (index_batches-Grows imap folders retention events folder (batches 3 (u ∷ take 59 us))
              w.index c s g))
  ]

  then_ingest-Kept :
      (folder : String) (w : Watcher) (found : Outcome Fault (List String) × C)
      → Selected imap folders folder found.1
      → Kept w.index
      → Kept (then_ingest imap retention folder w found).1.index
  then_ingest-Kept folder w (returned us, c) s g = ingest_uids-Kept folder us w c s g
  then_ingest-Kept folder w (raised e, c) s g = g

  find_uids-Selected :
      (folder : String) (cursor : Option ℕ) (c : C)
      → Selected imap folders folder c
      → Selected imap folders folder (find_uids imap retention cursor c).1
  unfolding seed_uids new_uids
  find_uids-Selected folder none c s = record {
    before = s.before;
    scanned = s.scanned;
    selected = s.selected;
    session = searched_since ((imap.clock c).0 - (retention + day)) (timed s.session);
  }
  find_uids-Selected folder (some n) c s = record {
    before = s.before;
    scanned = s.scanned;
    selected = s.selected;
    session = searched_uid (n + 1) s.session;
  }

  then_search-Kept :
      (folder : String) (w : Watcher) (before : C) (selected : Outcome Fault Bool × C)
      → IsIn folder folders
      → imap.select folder before ≡ selected
      → Kept w.index
      → Kept (then_search imap retention folder w selected).1.index
  then_search-Kept folder w before (raised e, c) scanned sel g = g
  then_search-Kept folder w before (returned false, c) scanned sel g = g
  then_search-Kept folder w before (returned true, c) scanned sel g =
      then_ingest-Kept folder w _
        (find_uids-Selected folder (cursor_of folder w.cursors) c (record {
          before = before;
          scanned = scanned;
          selected = ap (λ x. x.0) sel;
          session = subst (λ x. Session imap (imap.select folder before).1 x.1) sel begun;
        }))
        g

  go_on-Kept :
      (added : Bool) (done : Outcome Fault Bool × Watcher × C)
      (k : Bool → Watcher → C → Outcome Fault Bool × Watcher × C)
      → Kept done.1.index
      → ((b : Bool) (w : Watcher) (c : C) → Kept w.index → Kept (k b w c).1.index)
      → Kept (go_on imap retention added done k).1.index
  go_on-Kept added (returned more, w, c) k g h = h (added || more) w c g
  go_on-Kept added (raised Fault.imap_error, w, c) k g h = h added w c g
  go_on-Kept added (raised Fault.imap_credentials_error, w, c) k g h = h added w c g
  go_on-Kept added (raised Fault.other, w, c) k g h = g

  ingest_folders-Kept :
      (scanned : List String) (added : Bool) (w : Watcher) (c : C)
      → ((f : String) → IsIn f scanned → IsIn f folders)
      → Kept w.index
      → Kept (ingest_folders imap retention added scanned w c).1.index
  unfolding ingest_folders ingest_folder run
  ingest_folders-Kept [] added w c among g =
      let now = (imap.clock c).0 in
      (pruned now ∷ g.0, ap (prune retention now) g.1, ((c, refl), g.2))
  ingest_folders-Kept (folder ∷ rest) added w c among g =
      go_on-Kept added _ _
        (then_search-Kept folder w c (imap.select folder c) (among folder (inl refl)) refl g)
        (λ b v d. ingest_folders-Kept rest b v d (λ f i. among f (inr i)))

-- However a cycle ends, what it leaves in the index is what a history leaves there that goes on from the
-- one before with answers of the connection only: messages that FETCH answered in a folder of the cycle
-- while that folder was selected, stored for the recipients that the parser found, with the code and
-- the sender it found, the uid and the date of the answer and the folder, and none without a code or
-- a recipient; and prunings at times that the clock showed.
pub ingest-Extends :
    {C M : Type 0} (imap : Connection C M) (retention : ℕ) (events : List Event)
    (scan_folders : List String) (w : Watcher) (c : C)
    → w.index ≡ run retention events
    → Extends imap scan_folders retention events (ingest imap retention scan_folders w c).1.index
unfolding ingest
ingest-Extends imap retention events scan_folders w c e =
    ingest_folders-Kept imap scan_folders retention events scan_folders false w c (λ f i. i)
      ([], e, tt)
