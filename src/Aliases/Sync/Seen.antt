-- ===== src/Aliases/Sync/Seen.antt =====
-- The rows that a synchronisation has seen, and how many remain unseen.
use icloud_code_gateway.Base.{
  ℕ, ◌+◌, ◌≤◌, String, ◌≡◌, refl, Bool, true, false, ◌&&◌, some, [], ◌∷◌, ◌++◌, List, any, find,
  count_if, length, arith, All, Ensures, Ensures->>=, Ensures-elim_option, raise_if, Bool-cases,
  inl, inr, str_eq, eq_iff, eq_refl, returned,
}
use icloud_code_gateway.Errors
use icloud_code_gateway.Columns.{normalize_email, clean_text}
use icloud_code_gateway.Aliases.Rows.{Alias}
use icloud_code_gateway.Aliases.Table.{Aliases, has_id, update_alias, or_email}
use icloud_code_gateway.Aliases.Sync.{
  Listed, is_remote, synced, sync_remote_alias, is_unseen, count_remote_aliases,
}

-- The row is remote and has the digest.
abbrev pub has_digest : String → Alias → Bool
has_digest d a = is_remote a && str_eq a.email_hash d

abbrev pub Has : String → Aliases → Type 0
Has d rows = any (has_digest d) rows ≡ true

any-append_left :
    (p : Alias → Bool) (rows : Aliases) (a : Alias)
    → any p rows ≡ true
    → any p (rows ++ a ∷ []) ≡ true
any-append_left p [] a h = cc h
any-append_left p (b ∷ rows) a h = ground (arith, any-append_left p rows a)

any-append_last :
    (p : Alias → Bool) (rows : Aliases) (a : Alias) → p a ≡ true → any p (rows ++ a ∷ []) ≡ true
any-append_last p [] a h = ground arith
any-append_last p (b ∷ rows) a h = ground (arith, any-append_last p rows a)

module _ (now synced_at : ℕ) (address : String) (l : Listed) where
  Has-update :
      (d alias_id : String) (rows : Aliases)
      → Has d rows
      → Has d (update_alias alias_id (synced now synced_at address l) rows)
  unfolding update_alias
  Has-update d alias_id [] h = h
  Has-update d alias_id (a ∷ rows) h = ground (arith, Has-update d alias_id rows)

  found-Has :
      (d : String) (a : Alias) (rows : Aliases)
      → find (λ b. str_eq b.email_hash d) rows ≡ some a
      → Has d (update_alias a.id (synced now synced_at address l) rows)
  unfolding update_alias
  found-Has d a [] h = cc h
  found-Has d a (b ∷ rows) h = elim (Bool-cases (str_eq b.email_hash d)) [
    | inl hit ↦
        let same : b ≡ a = ground arith in
        let own : has_id a.id b ≡ true = rw same (eq_refl a.id) in ground arith
    | inr miss ↦ ground (arith, found-Has d a rows)
  ]

module _ (casefold digest : String → String) where
  -- What one entry's transaction leaves.
  abbrev pub IsSeen : String → Aliases → Aliases → Type 0
  IsSeen email before after =
      (address : String) × (normalize_email casefold email ≡ returned address)
      × Has (digest address) after
      × ((d : String) → Has d before → Has d after)

  pub sync-IsSeen :
      (alias_id : String) (now synced_at : ℕ) (email : String) (l : Listed) (rows : Aliases)
      → Ensures
          (IsSeen email rows)
          (sync_remote_alias casefold digest alias_id now synced_at email l rows)
  unfolding sync_remote_alias
  sync-IsSeen alias_id now synced_at email l rows =
      Ensures->>= (IsSeen email rows) (normalize_email casefold email) _ λ address clean.
        Ensures->>= (IsSeen email rows) (clean_text (or_email l.label address) 160) _ λ label _.
          Ensures->>= (IsSeen email rows) (clean_text l.note 500) _ λ note _.
            Ensures-elim_option (IsSeen email rows)
              (find (λ a. str_eq a.email_hash (digest address)) rows) _ _
              (λ _.
                Ensures->>= (IsSeen email rows)
                  (raise_if (any (has_id alias_id) rows) Errors.integrity_error) _
                  λ _ _. (
                    address,
                    clean,
                    any-append_last (has_digest (digest address)) rows _ (eq_refl (digest address)),
                    λ d h. any-append_left (has_digest d) rows _ h,
                  ))
              λ a found. (
                address,
                clean,
                found-Has now synced_at address l (digest address) a rows found,
                λ d h. Has-update now synced_at address l d a.id rows h,
              )

abbrev pub AreDistinct : List String → Type 0
AreDistinct [] = Unit
AreDistinct (d ∷ ds) = (any (str_eq d) ds ≡ false) × AreDistinct ds

-- The row is remote, and its digest is in the list.
abbrev is_seen : List String → Alias → Bool
is_seen ds a = is_remote a && any (str_eq a.email_hash) ds

seen-cons :
    (d : String) (ds : List String) (rows : Aliases)
    → any (str_eq d) ds ≡ false
    → count_if (is_seen (d ∷ ds)) rows ≡ count_if (has_digest d) rows + count_if (is_seen ds) rows
seen-cons d ds [] h = refl
seen-cons d ds (a ∷ rows) h = elim (Bool-cases (str_eq a.email_hash d)) [
  | inl own ↦
      let same : a.email_hash ≡ d = (eq_iff a.email_hash d).0 own in
      let other : any (str_eq a.email_hash) ds ≡ false = rw same h in
      ground (arith, seen-cons d ds rows)
  | inr other ↦ ground (arith, seen-cons d ds rows)
]

count-Has : (d : String) (rows : Aliases) → Has d rows → 1 ≤ count_if (has_digest d) rows
count-Has d [] h = cc h
count-Has d (a ∷ rows) h = ground (arith, count-Has d rows)

length-le-seen :
    (ds : List String) (rows : Aliases)
    → AreDistinct ds
    → All (λ d. Has d rows) ds
    → length ds ≤ count_if (is_seen ds) rows
length-le-seen [] rows a h = omega arith
length-le-seen (d ∷ ds) rows a h =
    omega (arith, seen-cons d ds rows a.0, count-Has d rows h.0, length-le-seen ds rows a.1 h.1)

remote-split :
    (ds : List String) (rows : Aliases)
    → count_remote_aliases rows ≡ count_if (is_seen ds) rows + count_if (is_unseen ds) rows
unfolding count_remote_aliases
remote-split ds [] = refl
remote-split ds (a ∷ rows) = ground (arith, remote-split ds rows)

-- The unseen are no more than what the counts leave.
pub unseen-le :
    (ds : List String) (rows : Aliases)
    → AreDistinct ds
    → All (λ d. Has d rows) ds
    → count_if (is_unseen ds) rows + length ds ≤ count_remote_aliases rows
unseen-le ds rows a h = omega (arith, length-le-seen ds rows a h, remote-split ds rows)
