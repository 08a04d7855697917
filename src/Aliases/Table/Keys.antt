-- ===== src/Aliases/Table/Keys.antt =====
-- What an access key opens: revealing it, looking an alias up by it, rotating and revoking it.
use icloud_code_gateway.Aliases.Table.Lookup.{
  find-All, find-update_alias, find-answers, find-answers_ne, no_answer, All-Unit,
}
use icloud_code_gateway.Base.{
  ℕ, String, ◌≡◌, ◌≢◌, refl, sym, ◌∙◌, ap, inl, inr, ◌⊎◌, Bool, true, false, ◌&&◌, Option, none,
  some, [], ◌∷◌, any, find, arith, eq_iff, eq_refl, Bool-cases, Ensures, Ensures->>=,
  Ensures-returned, returned, raised, raise_if,
}
use icloud_code_gateway.Errors
use icloud_code_gateway.Security.{validate_access_key, hash_access_key}
use icloud_code_gateway.Aliases.Rows.{inactive, Alias}
use icloud_code_gateway.Aliases.Table.{
  Aliases, has_id, is_active, answers, update_alias, update_one, with_key, without_key, is_taken,
  require_active, revoke_access_key, set_alias_state, issue_access_key, IssuedAccessKey, reveal_row,
  reveal_access_key,
}
use icloud_code_gateway.Aliases.Table.Invariant.{IsKeyed, Holds, KeyOf}
use icloud_code_gateway.Aliases.Table.Checks.{require_active-found, hash-validated}
use icloud_code_gateway.Aliases.Table.Reach.{Reach, Reach-IsWellFormed}

module _ (sha256 : String → String) where
  reveal_row_lem :
      (alias_id digest : String) (a : Alias)
      → a.id ≡ alias_id
      → a.access_key_hash ≡ some digest
      → (k : KeyOf sha256 a digest) → reveal_row sha256 alias_id a ≡ returned k.key
  unfolding reveal_row
  reveal_row_lem alias_id digest a i e k =
      rw (e, k.usable, k.not_revoked, k.recoverable)
        (rw (i, eq_refl alias_id) (ground (arith, k.well_formed, k.hashed, eq_refl digest)))

  -- A key that the table holds can always be revealed: in every table that the operations can build, an
  -- alias with a key hash reveals a key with that hash, and an alias without one raises a conflict. The
  -- errors for an unreadable key, and for a key that does not match its hash, are never raised.
  pub reveal_access_key-total :
      (casefold digest : String → String) (rows : Aliases) (alias_id : String) (a : Alias)
      → Reach sha256 casefold digest rows
      → find (has_id alias_id) rows ≡ some a
      → ((a.access_key_hash ≡ none)
          × (reveal_access_key sha256 alias_id rows ≡ raised Errors.conflict))
        ⊎ ((key : String) × (a.access_key_hash ≡ some (sha256 key))
            × (reveal_access_key sha256 alias_id rows ≡ returned key))
  unfolding reveal_access_key
  reveal_access_key-total casefold digest rows alias_id a r f =
      let (keyed, same) =
        find-All (IsKeyed sha256) (has_id alias_id) rows a
          (Reach-IsWellFormed sha256 casefold digest r).keyed f in
      rw (f, reveal_access_key)
        (by_hash a.access_key_hash refl keyed.holds ((eq_iff a.id alias_id).0 same))
    where
      by_hash :
          (o : Option String)
          → a.access_key_hash ≡ o
          → Holds sha256 a o
          → a.id ≡ alias_id
          → ((a.access_key_hash ≡ none) × (reveal_row sha256 alias_id a ≡ raised Errors.conflict))
            ⊎ ((key : String) × (a.access_key_hash ≡ some (sha256 key))
                × (reveal_row sha256 alias_id a ≡ returned key))
      by_hash none e h i = inl (e, rw e)
      by_hash (some d) e k i =
          inr (k.key, e ∙ ap some (sym k.hashed), reveal_row_lem alias_id d a i e k)

  -- What an issue has done when it returns: the row that it found, and the table that it left.
  record Issued (alias_id key : String) (rows after : Aliases) : Type 0 where
    row : Alias
    now : ℕ
    found : find (has_id alias_id) rows ≡ some row
    live : is_active row ≡ true
    free : is_taken alias_id (sha256 key) rows ≡ false
    table : after ≡ update_alias alias_id (with_key (sha256 key) key now) rows

  issue_lem :
      (alias_id key : String) (now : ℕ) (rows : Aliases)
      → validate_access_key key ≡ returned key
      → Ensures (λ r. Issued alias_id key rows r.1) (issue_access_key sha256 alias_id key now rows)
  unfolding issue_access_key
  issue_lem alias_id key now rows v =
      Ensures->>= (λ r. Issued alias_id key rows r.1) (hash_access_key sha256 key) _
        λ digest e.
          Ensures->>= (λ r. Issued alias_id key rows r.1) (require_active alias_id rows) _
            λ _ live.
              Ensures->>= (λ r. Issued alias_id key rows r.1)
                (raise_if (is_taken alias_id digest rows) Errors.integrity_error) _
                λ _ free.
                  let (a, f, l) = require_active-found alias_id rows live in
                  let h : sha256 key ≡ digest = hash-validated sha256 key digest v e in
                  record {
                    row = a;
                    now = now;
                    found = f;
                    live = l;
                    free = rw h (ground arith);
                    table = ap (λ d. update_alias alias_id (with_key d key now) rows) (sym h);
                  }

  module _ (alias_id key : String) (now : ℕ) (rows after : Aliases) (issue : IssuedAccessKey)
      (valid : validate_access_key key ≡ returned key)
      (done : issue_access_key sha256 alias_id key now rows ≡ returned (issue, after)) where
    issued : Issued alias_id key rows after
    issued =
        Ensures-returned (λ r. Issued alias_id key rows r.1)
          (issue_access_key sha256 alias_id key now rows) (issue, after)
          (issue_lem alias_id key now rows valid) done

    -- After a key is issued, its hash finds the alias that it was issued to, and revealing the key of
    -- that alias returns it.
    pub issue_access_key-opens :
        ((a : Alias) × (find (answers (sha256 key)) after ≡ some a) × (a.id ≡ alias_id))
        × (reveal_access_key sha256 alias_id after ≡ returned key)
    unfolding reveal_access_key
    issue_access_key-opens =
        let there =
          find-update_alias alias_id (with_key (sha256 key) key issued.now) rows issued.row
            (λ _. refl) issued.found in
        let same =
          (find-All (λ _. Unit {0}) (has_id alias_id) rows issued.row (All-Unit rows)
            issued.found).1 in
        let i : issued.row.id ≡ alias_id = (eq_iff issued.row.id alias_id).0 same in
        rw issued.table (
          (
            with_key (sha256 key) key issued.now issued.row,
            find-answers alias_id (sha256 key) key issued.now rows issued.row issued.found
                issued.live issued.free,
            i,
          ),
          rw (there, reveal_access_key)
              (reveal_row_lem alias_id (sha256 key)
                (with_key (sha256 key) key issued.now issued.row) i refl
                (record {
                  key = key;
                  well_formed = valid;
                  hashed = refl;
                  recoverable = refl;
                  hinted = refl;
                  not_revoked = refl;
                  usable = issued.live;
                })),
        )

    -- Issuing a key closes the old one: a key with another hash no longer finds this alias.
    pub issue_access_key-rotates :
        (old : String) (a : Alias)
        → old ≢ sha256 key
        → find (answers old) after ≡ some a
        → a.id ≢ alias_id
    issue_access_key-rotates old a ne e i =
        let missed =
          find-answers_ne alias_id old (with_key (sha256 key) key issued.now) rows a
            (λ b. ground (arith, eq_iff (sha256 key) old)) (rw issued.table at e) in
        ground (arith, eq_iff a.id alias_id)

any-find :
    (p : Alias → Bool) (rows : Aliases) → any p rows ≡ true → (a : Alias) × (find p rows ≡ some a)
any-find p [] h = absurd (cc)
any-find p (k ∷ ks) h = elim (Bool-cases (p k)) [
  | inl hit ↦ (k, rw hit)
  | inr miss ↦ rw miss (any-find p ks (rw miss at h))
]

update_one_lem :
    (alias_id : String) (f : Alias → Alias) (rows after : Aliases)
    → update_one alias_id f rows ≡ returned after
    → (after ≡ update_alias alias_id f rows)
      × ((a : Alias) × (find (has_id alias_id) rows ≡ some a))
unfolding update_one
update_one_lem alias_id f rows after e = elim (Bool-cases (any (has_id alias_id) rows)) [
  | inl there ↦ (ground arith, any-find (has_id alias_id) rows there)
  | inr absent ↦ absurd (ground arith)
]

-- What `set_alias_state` writes for the state "inactive".
abbrev deactivated : ℕ → Alias → Alias
deactivated now a = record (without_key now a) { state = inactive }

-- After a key is revoked no key finds the alias, in particular not the revoked one.
pub revoke_access_key-closes :
    (alias_id : String) (now : ℕ) (rows after : Aliases) (digest : String)
    → revoke_access_key alias_id now rows ≡ returned after
    → any (λ b. has_id alias_id b && answers digest b) after ≡ false
unfolding revoke_access_key
revoke_access_key-closes alias_id now rows after digest e =
    rw (update_one_lem alias_id (without_key now) rows after e).0
      (no_answer alias_id digest (without_key now) rows (λ b. refl))

-- After an alias is deactivated no key finds it, and its key cannot be revealed.
pub set_alias_state-closes :
    (sha256 : String → String) (alias_id : String) (now : ℕ) (rows after : Aliases)
    (digest : String)
    → set_alias_state alias_id inactive now rows ≡ returned after
    → (reveal_access_key sha256 alias_id after ≡ raised Errors.conflict)
      × (any (λ b. has_id alias_id b && answers digest b) after ≡ false)
unfolding set_alias_state reveal_access_key
set_alias_state-closes sha256 alias_id now rows after digest e =
    let (table, (a, f)) = update_one_lem alias_id (deactivated now) rows after e in
    rw table (
      rw (find-update_alias alias_id (deactivated now) rows a (λ _. refl) f, reveal_access_key)
          (unfold reveal_row in refl),
      no_answer alias_id digest (deactivated now) rows (λ c. refl),
    )
