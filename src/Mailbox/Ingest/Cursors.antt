-- ===== src/Mailbox/Ingest/Cursors.antt =====
-- The cursor of a folder, after a cycle.
use icloud_code_gateway.Base.{
  ℕ, ◌+◌, ◌≤◌, max, ◌≡◌, inl, inr, String, Bool, true, false, ◌&&◌, some, List, [], ◌∷◌, take, ltb,
  eq_iff, or_else, returned, raised, All, Bool-cases, arith, Outcome,
}
use icloud_code_gateway.Mailbox.Uids.{isdigit, int_of, uid_rank, uid_le, uid_le_total, uid_le_trans}
use icloud_code_gateway.Mailbox.Index.{Index}
use icloud_code_gateway.Mailbox.Ingest.{
  then_search, Fault, Connection, Watcher, cursor_of, set_cursor, insert_uid, sort_uids, is_new,
  new_only, highest, move_cursor, new_uids, ingest_uids, ingest_folder,
}

abbrev IsBelow : ℕ → List String → Type 0
IsBelow next = All (λ u. is_new next u ≡ false)

cursor_of-set_cursor :
    (folder : String) (n : ℕ) (cursors : List (String × ℕ))
    → cursor_of folder (set_cursor folder n cursors) ≡ some n
unfolding cursor_of set_cursor
cursor_of-set_cursor folder n [] = ground (arith, eq_iff folder folder)
cursor_of-set_cursor folder n ((f, m) ∷ cursors) =
    ground (arith, eq_iff f folder, cursor_of-set_cursor folder n cursors)

insert_uid-All :
    (P : String → Type 0) (u : String) (us : List String) → All P (insert_uid u us) → P u × All P us
unfolding insert_uid
insert_uid-All P u [] = λ a. a
insert_uid-All P u (v ∷ vs) = elim (Bool-cases (uid_le v u)) [
  | inl y ↦ rw y (λ a. a)
  | inr o ↦ rw o (λ a. let rest = insert_uid-All P u vs a.1 in (rest.0, (a.0, rest.1)))
]

sort_uids-All : (P : String → Type 0) (us : List String) → All P (sort_uids us) → All P us
unfolding sort_uids
sort_uids-All P [] a = a
sort_uids-All P (u ∷ us) a =
    let both = insert_uid-All P u (sort_uids us) a in (both.0, sort_uids-All P us both.1)

All-insert_uid :
    (P : String → Type 0) (u : String) (us : List String) → P u → All P us → All P (insert_uid u us)
unfolding insert_uid
All-insert_uid P u [] p a = (p, a)
All-insert_uid P u (v ∷ vs) p a = elim (Bool-cases (uid_le v u)) [
  | inl y ↦ rw y (p, a)
  | inr o ↦ rw o (a.0, All-insert_uid P u vs p a.1)
]

abbrev AtMost : String → String → Type 0
AtMost u v = uid_le v u ≡ true

-- The first of a sorted list is the highest.
abbrev HeadIsHighest : List String → Type 0
HeadIsHighest [] = Unit
HeadIsHighest (u ∷ us) = All (AtMost u) us × HeadIsHighest us

AtMost-trans :
    (u v : String) (us : List String) → uid_le u v ≡ true → All (AtMost u) us → All (AtMost v) us
AtMost-trans u v [] h a = tt
AtMost-trans u v (x ∷ xs) h a = (uid_le_trans x u v a.0 h, AtMost-trans u v xs h a.1)

insert_uid-HeadIsHighest :
    (u : String) (us : List String) → HeadIsHighest us → HeadIsHighest (insert_uid u us)
unfolding insert_uid
insert_uid-HeadIsHighest u [] d = (tt, tt)
insert_uid-HeadIsHighest u (v ∷ vs) d = elim (Bool-cases (uid_le v u)) [
  | inl y ↦ rw y ((y, AtMost-trans v u vs y d.0), d)
  | inr o ↦
      rw o
        (All-insert_uid (AtMost v) u vs (uid_le_total v u o) d.0, insert_uid-HeadIsHighest u vs d.1)
]

sort_uids-HeadIsHighest : (us : List String) → HeadIsHighest (sort_uids us)
unfolding sort_uids
sort_uids-HeadIsHighest [] = tt
sort_uids-HeadIsHighest (u ∷ us) =
    insert_uid-HeadIsHighest u (sort_uids us) (sort_uids-HeadIsHighest us)

-- What is not above a uid is not new once the cursor has reached that uid.
AtMost-is_new :
    (u v : String) (n : ℕ) → AtMost u v → isdigit u ≡ true → int_of u ≤ n → is_new n v ≡ false
unfolding uid_le uid_rank is_new
AtMost-is_new u v n h d le = ground arith

AtMost-IsBelow :
    (u : String) (n : ℕ) (us : List String)
    → isdigit u ≡ true
    → int_of u ≤ n
    → All (AtMost u) us
    → IsBelow n us
AtMost-IsBelow u n [] d le a = tt
AtMost-IsBelow u n (v ∷ vs) d le a = (AtMost-is_new u v n a.0 d le, AtMost-IsBelow u n vs d le a.1)

highest-head :
    (u : String) (us : List String)
    → isdigit u ≡ true
    → (n : ℕ) × (highest (u ∷ us) ≡ some n) × (int_of u ≤ n)
unfolding highest
highest-head u us d = (max (int_of u) (or_else (highest us) 0), rw d, omega arith)

is_new-later : (c n : ℕ) (u : String) → c ≤ n → is_new c u ≡ false → is_new n u ≡ false
unfolding is_new
is_new-later c n u h o = ground arith

-- What the filter has left out is not new for a later cursor either.
new_only-IsBelow : (c n : ℕ) (us : List String) → c ≤ n → IsBelow n (new_only c us) → IsBelow n us
unfolding new_only
new_only-IsBelow c n [] h = λ b. tt
new_only-IsBelow c n (u ∷ us) h = elim (Bool-cases (is_new c u)) [
  | inl y ↦ rw y (λ b. (b.0, new_only-IsBelow c n us h b.1))
  | inr o ↦ rw o (λ b. (is_new-later c n u h o, new_only-IsBelow c n us h b))
]

new_only-digits : (c : ℕ) (us : List String) → All (λ u. isdigit u ≡ true) (new_only c us)
unfolding new_only is_new
new_only-digits c [] = tt
new_only-digits c (u ∷ us) = elim (Bool-cases (isdigit u && ltb c (int_of u))) [
  | inl y ↦ rw y (ground arith, new_only-digits c us)
  | inr o ↦ rw o (new_only-digits c us)
]

All-sort_uids : (P : String → Type 0) (us : List String) → All P us → All P (sort_uids us)
unfolding sort_uids
All-sort_uids P [] a = a
All-sort_uids P (u ∷ us) a = All-insert_uid P u (sort_uids us) a.0 (All-sort_uids P us a.1)

AtMost-self : (u : String) → AtMost u u
AtMost-self u = elim (Bool-cases (uid_le u u)) [ inl y ↦ y | inr o ↦ uid_le_total u u o ]

IsBelow-later : (c n : ℕ) (us : List String) → c ≤ n → IsBelow c us → IsBelow n us
IsBelow-later c n [] h b = tt
IsBelow-later c n (u ∷ us) h b = (is_new-later c n u h b.0, IsBelow-later c n us h b.1)

-- What a cycle leaves of a folder's cursor.
abbrev pub HasPassed : String → ℕ → List String → Watcher → Type 0
HasPassed folder cursor uids w =
    (next : ℕ) × (cursor_of folder w.cursors ≡ some next) × (cursor ≤ next) × IsBelow next uids

module _ {C M : Type 0} (imap : Connection C M) (retention : ℕ) where
  move_cursor-HasPassed :
      (folder : String) (n : ℕ) (us : List String) (w : Watcher) (cursor : ℕ) (added : Bool)
      (done : Outcome Fault Bool × Index × C)
      → cursor_of folder w.cursors ≡ some cursor
      → IsBelow n us
      → (move_cursor imap retention folder n w done).0 ≡ returned added
      → HasPassed folder cursor us (move_cursor imap retention folder n w done).1
  move_cursor-HasPassed folder n us w cursor added (raised e, index, c) at b r = absurd (cc r)
  move_cursor-HasPassed folder n us w cursor added (returned more, index, c) at b r =
      let reached =
        cursor_of-set_cursor folder (max (or_else (cursor_of folder w.cursors) 0) n) w.cursors in
      rw at (
        max cursor n,
        rw at at reached,
        omega arith,
        IsBelow-later n (max cursor n) us (omega arith) b,
      )

  ingest_uids-HasPassed :
      (folder : String) (us : List String) (w : Watcher) (c : C) (cursor : ℕ) (added : Bool)
      → cursor_of folder w.cursors ≡ some cursor
      → HeadIsHighest us
      → All (λ u. isdigit u ≡ true) us
      → (ingest_uids imap retention folder us w c).0 ≡ returned added
      → HasPassed folder cursor us (ingest_uids imap retention folder us w c).1
  unfolding ingest_uids
  ingest_uids-HasPassed folder [] w c cursor added at h d = λ r. (cursor, at, omega arith, tt)
  ingest_uids-HasPassed folder (u ∷ us) w c cursor added at h d =
      let (n, highest_is, u_le) = highest-head u (take 59 us) d.0 in
      let below = AtMost-IsBelow u n (u ∷ us) d.0 u_le (AtMost-self u, h.0) in
      rw (highest_is, ingest_uids)
        (move_cursor-HasPassed folder n (u ∷ us) w cursor added _ at below)

  then_search-HasPassed :
      (folder : String) (w : Watcher) (cursor : ℕ) (uids : List String) (added : Bool)
      (selected : Outcome Fault Bool × C)
      → cursor_of folder w.cursors ≡ some cursor
      → (imap.search_uid (cursor + 1) selected.1).0 ≡ some uids
      → (then_search imap retention folder w selected).0 ≡ returned added
      → HasPassed folder cursor uids (then_search imap retention folder w selected).1
  unfolding new_uids
  then_search-HasPassed folder w cursor uids added (raised e, c) at found = λ r. absurd (cc r)
  then_search-HasPassed folder w cursor uids added (returned false, c) at found = λ r. absurd (cc r)
  then_search-HasPassed folder w cursor uids added (returned true, c) at found =
      let us = sort_uids (new_only cursor uids) in
      let digits = All-sort_uids (λ u. isdigit u ≡ true) _ (new_only-digits cursor uids) in
      rw at (
        rw found (λ r.
          let (next, reached, le, below) =
            ingest_uids-HasPassed folder us w _ cursor added at
              (sort_uids-HeadIsHighest (new_only cursor uids)) digits r in
          (
            next,
            reached,
            le,
            new_only-IsBelow cursor next uids le (sort_uids-All _ (new_only cursor uids) below),
          )))

  -- A cycle that ends well moves the cursor of its folder past every message that the server has named:
  -- none of them is new for a later cycle on the same connection. That holds of the messages that could
  -- not be fetched, too, and of those beyond the limit of a cycle.
  pub ingest_folder-moves_on :
      (folder : String) (w : Watcher) (c : C) (cursor : ℕ) (uids : List String) (added : Bool)
      → cursor_of folder w.cursors ≡ some cursor
      → (imap.search_uid (cursor + 1) (imap.select folder c).1).0 ≡ some uids
      → (ingest_folder imap retention folder w c).0 ≡ returned added
      → HasPassed folder cursor uids (ingest_folder imap retention folder w c).1
  unfolding ingest_folder
  ingest_folder-moves_on folder w c cursor uids added at found =
      then_search-HasPassed folder w cursor uids added (imap.select folder c) at found
