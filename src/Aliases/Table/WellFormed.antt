-- ===== src/Aliases/Table/WellFormed.antt =====
-- Every operation on aliases keeps the table well formed.
use icloud_code_gateway.Aliases.Table.Checks.{
  validate-validated, hash-validated, require_active-found, any-append_new, any-delete_rows,
  All-append-one,
}
use icloud_code_gateway.Base.{
  Ensures-if, ℕ, String, ◌≡◌, refl, Bool, true, false, some, [], ◌∷◌, ◌++◌, str_eq, if◌then◌else◌,
  any, find, arith, eq_iff, Ensures, Ensures->>=, Ensures-elim_option, returned, raise_if,
}
use icloud_code_gateway.Errors
use icloud_code_gateway.Security.{validate_access_key, hash_access_key}
use icloud_code_gateway.Aliases.Rows.{EdgeKeyStatus, AliasState, Alias}
use icloud_code_gateway.Aliases.Table.{
  update_one, set_alias_state, delete_alias, revoke_access_key, update_edge_key_status, Aliases,
  has_id, is_inactive, update_alias, with_key, without_key, is_taken, require_active, delete_rows,
  import_access_key, issue_access_key, AliasInput, clean_input, CleanInput, inserted, overwritten,
  upsert_alias,
}
use icloud_code_gateway.Aliases.Table.Invariant.{
  without_key-IsKeyed, IsKeyed, AreKeyed, same_key, set_state-IsKeyed, delete_rows-AreKeyed,
  All-update_alias, with_key-IsKeyed,
}
use icloud_code_gateway.Aliases.Table.Distinct.{Distinct, All-update_found, update_alias-Distinct}

module _ (sha256 : String → String) where
  -- The key columns agree, and the ids are distinct.
  pub record IsWellFormed (rows : Aliases) : Type 0 where
    pub keyed : AreKeyed sha256 rows
    pub distinct : Distinct rows

  key_set :
      (alias_id digest key : String) (now : ℕ) (rows : Aliases)
      → IsWellFormed rows
      → validate_access_key key ≡ returned key
      → sha256 key ≡ digest
      → require_active alias_id rows ≡ returned tt
      → IsWellFormed (update_alias alias_id (with_key digest key now) rows)
  key_set alias_id digest key now rows w v h r =
      let (a, found, live) = require_active-found alias_id rows r in
      record {
        keyed =
            All-update_found (IsKeyed sha256) alias_id (with_key digest key now) rows a w.distinct
              found (with_key-IsKeyed sha256 digest key now a v h live) w.keyed;
        distinct =
            update_alias-Distinct alias_id (with_key digest key now) rows (λ _. refl) w.distinct;
      }

  pub issue-IsWellFormed :
      (alias_id key : String) (now : ℕ) (rows : Aliases)
      → validate_access_key key ≡ returned key
      → IsWellFormed rows
      → Ensures (λ r. IsWellFormed r.1) (issue_access_key sha256 alias_id key now rows)
  unfolding issue_access_key
  issue-IsWellFormed alias_id key now rows v w =
      Ensures->>= (λ r. IsWellFormed r.1) (hash_access_key sha256 key) _
        λ digest e.
          Ensures->>= (λ r. IsWellFormed r.1) (require_active alias_id rows) _
            λ _ live.
              Ensures->>= (λ r. IsWellFormed r.1)
                (raise_if (is_taken alias_id digest rows) Errors.integrity_error) _
                λ _ _.
                  key_set alias_id digest key now rows w v (hash-validated sha256 key digest v e)
                    live

  pub import-IsWellFormed :
      (alias_id value : String) (now : ℕ) (rows : Aliases)
      → IsWellFormed rows
      → Ensures (λ r. IsWellFormed r.1) (import_access_key sha256 alias_id value now rows)
  unfolding import_access_key
  import-IsWellFormed alias_id value now rows w =
      Ensures->>= (λ r. IsWellFormed r.1) (validate_access_key value) _
        λ key valid.
          Ensures->>= (λ r. IsWellFormed r.1) (hash_access_key sha256 key) _
            λ digest e.
              Ensures->>= (λ r. IsWellFormed r.1) (require_active alias_id rows) _
                λ _ live.
                  Ensures->>= (λ r. IsWellFormed r.1)
                    (raise_if (is_taken alias_id digest rows) Errors.conflict) _
                    λ _ _.
                      let v = validate-validated value key valid in
                      key_set alias_id digest key now rows w v
                        (hash-validated sha256 key digest v e) live

  overwritten-IsKeyed :
      (now : ℕ) (i : AliasInput) (c : CleanInput) (a : Alias)
      → IsKeyed sha256 a
      → IsKeyed sha256 (overwritten now i c a)
  overwritten-IsKeyed now i c a k =
      same_key sha256
        (if is_inactive i.state
          then record (without_key now a) { state = i.state }
          else record a { state = i.state; updated_at = now })
        (overwritten now i c a) (ground arith) (ground arith) (ground arith) (ground arith)
        (ground arith) (ground arith) (set_state-IsKeyed sha256 i.state now a k)

  pub append-Distinct :
      (rows : Aliases) (a : Alias)
      → any (has_id a.id) rows ≡ false
      → Distinct rows
      → Distinct (rows ++ a ∷ [])
  append-Distinct [] a n d = (refl, tt)
  append-Distinct (b ∷ rows) a n d = (absent rows d.0, append-Distinct rows a (ground arith) d.1)
    where
      other : str_eq a.id b.id ≡ false
      other = ground (arith, eq_iff a.id b.id, eq_iff b.id a.id)

      absent : (l : Aliases) → any (has_id b.id) l ≡ false → any (has_id b.id) (l ++ a ∷ []) ≡ false
      absent l h = any-append_new (has_id b.id) l a h other

  delete-Distinct :
      (alias_id : String) (rows : Aliases) → Distinct rows → Distinct (delete_rows alias_id rows)
  unfolding delete_rows
  delete-Distinct alias_id [] d = tt
  delete-Distinct alias_id (a ∷ rows) d =
      by_test (has_id alias_id a) (delete-Distinct alias_id rows d.1)
    where
      by_test :
          (b : Bool)
          → Distinct (delete_rows alias_id rows)
          → Distinct (if b then delete_rows alias_id rows else a ∷ delete_rows alias_id rows)
      by_test true rest = rest
      by_test false rest = (any-delete_rows a.id alias_id rows d.0, rest)

  pub upsert-IsWellFormed :
      (casefold digest : String → String) (alias_id : String) (now : ℕ) (i : AliasInput)
      (rows : Aliases)
      → IsWellFormed rows
      → Ensures (λ r. IsWellFormed r.1) (upsert_alias casefold digest alias_id now i rows)
  unfolding upsert_alias
  upsert-IsWellFormed casefold digest alias_id now i rows w =
      Ensures->>= (λ r. IsWellFormed r.1) (clean_input casefold digest i) _
        λ c _.
          Ensures-elim_option (λ r. IsWellFormed r.1)
            (find (λ a. str_eq a.email_hash (digest c.email)) rows) _ _
            (λ _.
              Ensures->>= (λ r. IsWellFormed r.1)
                (raise_if (any (has_id alias_id) rows) Errors.integrity_error) _
                λ _ fresh. record {
                  keyed =
                      All-append-one (IsKeyed sha256) rows _ w.keyed
                        (record { holds = (refl, refl) });
                  distinct =
                      append-Distinct rows (inserted casefold digest alias_id now i c)
                        (ground arith) w.distinct;
                })
            λ a _. record {
              keyed =
                  All-update_alias sha256 (IsKeyed sha256) a.id (overwritten now i c) rows
                    (λ b _ k. overwritten-IsKeyed now i c b k) w.keyed;
              distinct =
                  update_alias-Distinct a.id (overwritten now i c) rows (λ b. ground arith)
                    w.distinct;
            }

  update_one-IsWellFormed :
      (alias_id : String) (f : Alias → Alias) (rows : Aliases)
      → ((a : Alias) → (f a).id ≡ a.id)
      → ((a : Alias) → IsKeyed sha256 a → IsKeyed sha256 (f a))
      → IsWellFormed rows
      → Ensures IsWellFormed (update_one alias_id f rows)
  unfolding update_one
  update_one-IsWellFormed alias_id f rows same keep w =
      Ensures-if IsWellFormed (any (has_id alias_id) rows) _ _
        (record {
          keyed =
              All-update_alias sha256 (IsKeyed sha256) alias_id f rows (λ a _ k. keep a k) w.keyed;
          distinct = update_alias-Distinct alias_id f rows same w.distinct;
        })
        tt

  pub revoke-IsWellFormed :
      (alias_id : String) (now : ℕ) (rows : Aliases)
      → IsWellFormed rows
      → Ensures IsWellFormed (revoke_access_key alias_id now rows)
  unfolding revoke_access_key
  revoke-IsWellFormed alias_id now rows w =
      update_one-IsWellFormed alias_id (without_key now) rows (λ _. refl)
        (λ a _. without_key-IsKeyed sha256 now a) w

  pub set_state-IsWellFormed :
      (alias_id : String) (state : AliasState) (now : ℕ) (rows : Aliases)
      → IsWellFormed rows
      → Ensures IsWellFormed (set_alias_state alias_id state now rows)
  unfolding set_alias_state
  set_state-IsWellFormed alias_id state now rows w =
      update_one-IsWellFormed alias_id _ rows (λ a. ground arith)
        (λ a k. set_state-IsKeyed sha256 state now a k) w

  pub edge_status-IsWellFormed :
      (alias_id : String) (status : EdgeKeyStatus) (now : ℕ) (rows : Aliases)
      → IsWellFormed rows
      → Ensures IsWellFormed (update_edge_key_status alias_id status now rows)
  unfolding update_edge_key_status
  edge_status-IsWellFormed alias_id status now rows w =
      update_one-IsWellFormed alias_id _ rows (λ _. refl)
        (λ a k.
          same_key sha256 a
            (record a { edge_key_status = status; edge_status_checked_at = some now }) refl refl
            refl refl refl refl k)
        w

  pub delete-IsWellFormed :
      (alias_id : String) (rows : Aliases)
      → IsWellFormed rows
      → Ensures IsWellFormed (delete_alias alias_id rows)
  unfolding delete_alias
  delete-IsWellFormed alias_id rows w =
      Ensures-if IsWellFormed (any (has_id alias_id) rows) _ _
        (record {
          keyed = delete_rows-AreKeyed sha256 alias_id rows w.keyed;
          distinct = delete-Distinct alias_id rows w.distinct;
        })
        tt
