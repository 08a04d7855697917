-- ===== src/Mailbox/Index.antt =====
-- `MailboxWatcher` of mailbox_watcher.py: the index of recent codes, by recipient. Times are whole
-- microseconds since the epoch. A method that holds the lock is one step.
pub mod Order
pub mod Kept
pub mod Dict
pub mod Knows
pub mod History
pub mod Newest
use icloud_code_gateway.Base.{
  ℕ, ◌+◌, ◌*◌, max, String, Bool, false, not, ◌&&◌, ◌||◌, Option, none, some, List, [], ◌∷◌, ◌++◌,
  any, take, leb, ltb, ◌==◌, str_eq, if◌then◌else◌, strip, returned, ◌>>=◌,
}
use icloud_code_gateway.Errors.{Result}
use icloud_code_gateway.Mailbox.Uids.{uid_le}
use icloud_code_gateway.Mailbox.Senders.{Headers, sender_matches_filter, sender_matches_policy}

pub record IndexedCode : Type 0 where
  pub code : String
  pub received_at : ℕ
  pub uid : String
  pub folder : String
  pub from_header : String

abbrev pub second : ℕ
second = 1_000_000

-- `MAX_CODES_PER_ALIAS`
abbrev pub max_codes_per_alias : ℕ
max_codes_per_alias = 5

-- `(a.received_at, _uid_sort_key(a.uid)) <= (b.received_at, _uid_sort_key(b.uid))`
unfoldable pub key_le : IndexedCode → IndexedCode → Bool
key_le a b =
    ltb a.received_at b.received_at || (a.received_at == b.received_at && uid_le a.uid b.uid)

abbrev pub is_same : IndexedCode → IndexedCode → Bool
is_same a b = str_eq a.uid b.uid && str_eq a.folder b.folder

abbrev pub Index : Type 0
Index = List (String × List IndexedCode)

-- `self._index.get(recipient, ())`
unfoldable pub bucket_of : String → Index → List IndexedCode
bucket_of r [] = []
bucket_of r ((s, bucket) ∷ index) = if str_eq s r then bucket else bucket_of r index

-- `bucket.sort(key=…, reverse=True)`: descending, and equal keys keep their order.
unfoldable pub insert : IndexedCode → List IndexedCode → List IndexedCode
insert e [] = e ∷ []
insert e (f ∷ fs) = if key_le f e then e ∷ f ∷ fs else f ∷ insert e fs

unfoldable pub sort : List IndexedCode → List IndexedCode
unfolding insert
sort [] = []
sort (e ∷ es) = insert e (sort es)

-- A bucket after the message is offered to it.
unfoldable pub add_to : IndexedCode → List IndexedCode → List IndexedCode
unfolding sort
add_to entry bucket =
    if any (λ item. is_same item entry) bucket
    then bucket
    else take max_codes_per_alias (sort (bucket ++ entry ∷ []))

-- One turn of the loop of `_store`.
unfoldable pub store_for : IndexedCode → String → Index → Index
unfolding add_to
store_for entry r [] = (r, add_to entry []) ∷ []
store_for entry r ((s, bucket) ∷ index) =
    if str_eq s r then (s, add_to entry bucket) ∷ index else (s, bucket) ∷ store_for entry r index

-- `_store`, for the recipients in the order in which the set yields them; whether it added the entry.
unfoldable pub store : List String → IndexedCode → Index → Bool × Index
unfolding bucket_of store_for
store [] entry index = (false, index)
store (r ∷ rs) entry index =
    let rest = store rs entry (store_for entry r index) in
    (not (any (λ item. is_same item entry) (bucket_of r index)) || rest.0, rest.1)

-- `item.received_at >= cutoff`, with `cutoff = now - retention`.
abbrev pub is_kept : ℕ → ℕ → IndexedCode → Bool
is_kept retention now item = leb now (item.received_at + retention)

unfoldable pub keep_recent : ℕ → ℕ → List IndexedCode → List IndexedCode
keep_recent retention now [] = []
keep_recent retention now (e ∷ es) =
    let rest = keep_recent retention now es in if is_kept retention now e then e ∷ rest else rest

abbrev pub with_bucket : String → List IndexedCode → Index → Index
with_bucket r [] index = index
with_bucket r (e ∷ es) index = (r, e ∷ es) ∷ index

-- `_prune`
unfoldable pub prune : ℕ → ℕ → Index → Index
unfolding keep_recent
prune retention now [] = []
prune retention now ((r, bucket) ∷ index) =
    with_bucket r (keep_recent retention now bucket) (prune retention now index)

-- The arguments of `latest`.
pub record Query : Type 0 where
  pub now_ts : ℕ
  pub max_age_seconds : ℕ
  pub future_skew_seconds : ℕ
  pub sender_filter : String
  pub sender_policy : String

-- Not older than the window, and not further in the future than the allowed skew.
abbrev pub in_window : Query → IndexedCode → Bool
in_window q e =
    leb q.now_ts (e.received_at + max 1 q.max_age_seconds * second)
    && leb e.received_at (q.now_ts + q.future_skew_seconds * second)

-- `best is None or … > …`
abbrev pub better : Option IndexedCode → IndexedCode → Option IndexedCode
better none e = some e
better (some b) e = if key_le e b then some b else some e

module _ (h : Headers) where
  -- The tests of one entry, in their order.
  unfoldable pub is_accepted : Query → IndexedCode → Result Bool
  is_accepted q e =
      if in_window q e && sender_matches_filter h e.from_header q.sender_filter
      then sender_matches_policy h e.from_header q.sender_policy
      else returned false

  unfoldable pub best_of :
      Query → Option IndexedCode → List IndexedCode → Result (Option IndexedCode)
  unfolding is_accepted
  best_of q best [] = returned best
  best_of q best (e ∷ es) = do
    accepted ← is_accepted q e
    best_of q (if accepted then better best e else best) es

  unfoldable pub latest : String → Query → Index → Result (Option IndexedCode)
  unfolding strip bucket_of best_of
  latest email q index =
      let target = h.casefold (strip email) in
      if str_eq target "" then returned none else best_of q none (bucket_of target index)

  -- `snapshot`: a later entry for the same email replaces an earlier one.
  unfoldable pub put :
      String → IndexedCode → List (String × IndexedCode) → List (String × IndexedCode)
  put r e [] = (r, e) ∷ []
  put r e ((s, f) ∷ result) = if str_eq s r then (s, e) ∷ result else (s, f) ∷ put r e result

  unfoldable pub snapshot_from :
      List (String × IndexedCode)
      → List String
      → Query
      → Index
      → Result (List (String × IndexedCode))
  unfolding latest put strip
  snapshot_from result [] q index = returned result
  snapshot_from result (email ∷ emails) q index = do
    found ← latest email q index
    snapshot_from (elim found [ none ↦ result | some e ↦ put (h.casefold (strip email)) e result ])
        emails q index

  -- `snapshot` has no sender filter.
  unfoldable pub snapshot : List String → Query → Index → Result (List (String × IndexedCode))
  unfolding snapshot_from
  snapshot emails q index = snapshot_from [] emails (record q { sender_filter = "" }) index
