-- ===== src/Service/Snapshot.antt =====
-- Apple's list of aliases in service.py: `_validated_remote_aliases` and `_reconcile_remote_aliases`.
pub mod Bounded
mod Examples
use icloud_code_gateway.Base.{
  ℕ, suc, ◌+◌, ◌-◌, ◌/◌, max, String, Bool, true, false, not, ◌&&◌, ◌||◌, Option, none, some, List,
  [], ◌∷◌, ◌++◌, any, map, length, is_some, str_eq, strip, chars, count_char, any_char, is_space,
  before_char, after_char, ltb, ◌==◌, if◌then◌else◌, Outcome, returned, raised,
}
use icloud_code_gateway.Errors
use icloud_code_gateway.Errors.{Exception, Result}
use icloud_code_gateway.Columns.{clean_candidate}
use icloud_code_gateway.Aliases.Rows.{Remote}
use icloud_code_gateway.Aliases.Table.{Aliases, or_email}
use icloud_code_gateway.Aliases.Sync.{
  Listed, sync_remote_alias, finish_remote_sync, count_remote_aliases,
}
use icloud_code_gateway.Worker.Snapshot.{remote_email, anonymous_id}

-- The tables that these methods write; an audit event is its type and its outcome.
pub record Tables : Type 0 where
  pub aliases : Aliases
  pub audit : List (String × String)

-- `"\r" in text or "\n" in text`
unfoldable pub has_line_break : String → Bool
unfolding any_char
has_line_break = any_char (λ c. c == 13 || c == 10)

-- How many remote aliases may be missing from a list that is believed: `int(known * 0.1)`, at least 5.
unfoldable pub shrink_limit : ℕ → ℕ
shrink_limit known = max 5 (known / 10)

-- A listed alias at its turn: what `uuid4` and the clock yield then.
pub record Turn : Type 0 where
  pub listed : Listed
  pub fresh_id : String
  pub now : ℕ

module _ (casefold : String → String) where
  unfoldable pub email_of : Listed → String
  unfolding remote_email clean_candidate
  email_of l = clean_candidate casefold (remote_email l.remote)

  -- The address can stand in the table: one `@`, something on either side of it, and a dot in the domain.
  unfoldable pub is_bad_email : String → Bool
  unfolding count_char before_char after_char any_char is_space chars
  is_bad_email email =
      not (count_char b'@' email == 1)
      || str_eq (before_char b'@' email) ""
      || str_eq (after_char b'@' email) ""
      || not (any_char (λ c. c == b'.') (after_char b'@' email))
      || ltb 254 (chars email)
      || any_char is_space email

  -- `_validated_remote_aliases`: the condition under which an entry makes the whole list invalid.
  unfoldable pub is_invalid : (seen_emails seen_ids : List String) → Listed → Bool
  unfolding email_of is_bad_email anonymous_id strip chars has_line_break
  is_invalid seen_emails seen_ids l =
      let email = email_of l in
      let id = anonymous_id l.remote in
      let label = strip (or_email l.label email) in
      let note = strip l.note in
      is_bad_email email
      || str_eq id ""
      || ltb 256 (chars id)
      || has_line_break id
      || not (is_some l.remote.is_active)
      || str_eq label ""
      || ltb 160 (chars label)
      || has_line_break label
      || ltb 500 (chars note)
      || has_line_break note
      || any (str_eq email) seen_emails
      || any (str_eq id) seen_ids

  unfoldable pub all_valid : (seen_emails seen_ids : List String) → List Listed → Bool
  unfolding is_invalid email_of anonymous_id
  all_valid emails ids [] = true
  all_valid emails ids (l ∷ ls) =
      not (is_invalid emails ids l)
      && all_valid (email_of l ∷ emails) (anonymous_id l.remote ∷ ids) ls

  abbrev is_empty : List Listed → Bool
  is_empty [] = true
  is_empty (l ∷ ls) = false

  -- An empty list is taken for a fault of Apple's while there are remote aliases.
  unfoldable pub validated_remote_aliases :
      Bool → List Listed → Tables → Result (List Listed) × Tables
  unfolding all_valid count_remote_aliases
  validated_remote_aliases allow_empty ls t =
      if not (all_valid [] [] ls)
      then (raised Errors.gateway_error, t)
      else if is_empty ls && ltb 0 (count_remote_aliases t.aliases) && not allow_empty
      then (
        raised Errors.gateway_error,
        record t { audit = t.audit ++ ("hme_sync", "refused_empty") ∷ [] },
      )
      else (returned ls, t)

  abbrev pub then_sync :
      Result Aliases → Tables → (Tables → Result (Unit {0}) × Tables) → Result (Unit {0}) × Tables
  then_sync (raised e) t k = (raised e, t)
  then_sync (returned rows) t k = k (record t { aliases = rows })

  module _ (digest : String → String) (synced_at : ℕ) where
    -- The loop of `_reconcile_remote_aliases`: a transaction for each entry.
    unfoldable pub sync_all : List Turn → Tables → Result (Unit {0}) × Tables
    unfolding email_of sync_remote_alias
    sync_all [] t = (returned tt, t)
    sync_all (x ∷ xs) t =
        then_sync
          (sync_remote_alias casefold digest x.fresh_id x.now synced_at (email_of x.listed) x.listed
            t.aliases)
          t (λ u. sync_all xs u)

    abbrev pub finished : Result Aliases → Tables → Result (Unit {0}) × Tables
    finished (raised e) t = (raised e, t)
    finished (returned rows) t = (returned tt, record t { aliases = rows })

    -- What follows the loop.
    unfoldable pub finish_or_refuse : (seen : List String) → ℕ → Tables → Result (Unit {0}) × Tables
    unfolding count_remote_aliases finish_remote_sync shrink_limit
    finish_or_refuse seen now t =
        let known = count_remote_aliases t.aliases in
        if ltb (shrink_limit known) (known - length seen)
        then (returned tt, record t { audit = t.audit ++ ("hme_sync", "refused_incomplete") ∷ [] })
        else finished (finish_remote_sync casefold digest now synced_at seen t.aliases) t

    abbrev pub then_finish :
        List String → ℕ → Result (Unit {0}) × Tables → Result (Unit {0}) × Tables
    then_finish seen now (raised e, t) = (raised e, t)
    then_finish seen now (returned _, t) = finish_or_refuse seen now t

    -- `_reconcile_remote_aliases`
    unfoldable pub reconcile_remote_aliases : List Turn → ℕ → Tables → Result (Unit {0}) × Tables
    unfolding sync_all finish_or_refuse email_of
    reconcile_remote_aliases xs now t =
        then_finish (map (λ x. email_of x.listed) xs) now (sync_all xs t)
