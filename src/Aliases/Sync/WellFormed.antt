-- ===== src/Aliases/Sync/WellFormed.antt =====
-- A synchronisation keeps the alias table well formed.
use icloud_code_gateway.Base.{
  Option, ℕ, String, ◌≡◌, refl, [], ◌∷◌, List, any, find, arith, if◌then◌else◌, Ensures,
  Ensures->>=, Ensures-elim_option, raise_if, Bool-cases, inl, inr,
}
use icloud_code_gateway.Errors
use icloud_code_gateway.Columns.{normalize_email, clean_text}
use icloud_code_gateway.Aliases.Rows.{Alias}
use icloud_code_gateway.Aliases.Table.{Aliases, has_id, is_inactive, without_key, or_email}
use icloud_code_gateway.Aliases.Table.Invariant.{
  IsKeyed, AreKeyed, same_key, set_state-IsKeyed, All-update_alias,
}
use icloud_code_gateway.Aliases.Table.Checks.{All-append-one}
use icloud_code_gateway.Aliases.Table.Distinct.{Distinct, update_alias-Distinct}
use icloud_code_gateway.Aliases.Table.WellFormed.{IsWellFormed, append-Distinct}
use icloud_code_gateway.Aliases.Sync.{
  str_eq, Listed, listed_state, synced, new_synced, sync_remote_alias, is_unseen, deactivate_unseen,
  digests_of, finish_remote_sync,
}

module _ (sha256 : String → String) where
  synced-IsKeyed :
      (now synced_at : ℕ) (email : String) (l : Listed) (a : Alias)
      → IsKeyed sha256 a
      → IsKeyed sha256 (synced now synced_at email l a)
  synced-IsKeyed now synced_at email l a k =
      same_key sha256
        (if is_inactive (listed_state l)
          then record (without_key now a) { state = listed_state l }
          else record a { state = listed_state l; updated_at = now })
        (synced now synced_at email l a) (ground arith) (ground arith) (ground arith) (ground arith)
        (ground arith) (ground arith) (set_state-IsKeyed sha256 (listed_state l) now a k)

  pub sync-IsWellFormed :
      (casefold digest : String → String) (alias_id : String) (now synced_at : ℕ) (email : String)
      (l : Listed) (rows : Aliases)
      → IsWellFormed sha256 rows
      → Ensures
          (IsWellFormed sha256)
          (sync_remote_alias casefold digest alias_id now synced_at email l rows)
  unfolding sync_remote_alias
  sync-IsWellFormed casefold digest alias_id now synced_at email l rows w =
      Ensures->>= (IsWellFormed sha256) (normalize_email casefold email) _ λ address _.
        Ensures->>= (IsWellFormed sha256) (clean_text (or_email l.label address) 160) _ λ label _.
          Ensures->>= (IsWellFormed sha256) (clean_text l.note 500) _ λ note _.
            Ensures-elim_option (IsWellFormed sha256) (found_in address) _ _
              (λ _.
                Ensures->>= (IsWellFormed sha256)
                  (raise_if (any (has_id alias_id) rows) Errors.integrity_error) _
                  λ _ fresh. record {
                    keyed =
                        All-append-one (IsKeyed sha256) rows _ w.keyed
                          (record { holds = (refl, refl) });
                    distinct =
                        append-Distinct sha256 rows
                          (new_synced casefold digest alias_id now synced_at address label note l)
                          (ground arith) w.distinct;
                  })
              λ a _. record {
                keyed =
                    All-update_alias sha256 (IsKeyed sha256) a.id (synced now synced_at address l)
                      rows (λ b _ k. synced-IsKeyed now synced_at address l b k) w.keyed;
                distinct =
                    update_alias-Distinct a.id (synced now synced_at address l) rows
                      (λ b. ground arith) w.distinct;
              }
    where
      found_in : String → Option Alias
      found_in address = find (λ a. str_eq a.email_hash (digest address)) rows

  deactivate-AreKeyed :
      (now synced_at : ℕ) (digests : List String) (rows : Aliases)
      → AreKeyed sha256 rows
      → AreKeyed sha256 (deactivate_unseen now synced_at digests rows)
  unfolding deactivate_unseen
  deactivate-AreKeyed now synced_at digests [] k = tt
  deactivate-AreKeyed now synced_at digests (a ∷ rows) k = elim (Bool-cases (is_unseen digests a)) [
    | inl gone ↦
        rw gone
          (record { holds = (refl, refl) }, deactivate-AreKeyed now synced_at digests rows k.1)
    | inr stays ↦ rw stays (k.0, deactivate-AreKeyed now synced_at digests rows k.1)
  ]

any-deactivate :
    (x : String) (now synced_at : ℕ) (digests : List String) (rows : Aliases)
    → any (has_id x) (deactivate_unseen now synced_at digests rows) ≡ any (has_id x) rows
unfolding deactivate_unseen
any-deactivate x now synced_at digests [] = refl
any-deactivate x now synced_at digests (a ∷ rows) =
    ground (arith, any-deactivate x now synced_at digests rows)

deactivate-Distinct :
    (now synced_at : ℕ) (digests : List String) (rows : Aliases)
    → Distinct rows
    → Distinct (deactivate_unseen now synced_at digests rows)
unfolding deactivate_unseen
deactivate-Distinct now synced_at digests [] d = tt
deactivate-Distinct now synced_at digests (a ∷ rows) d = (
  ground (arith, any-deactivate a.id now synced_at digests rows, d.0),
  deactivate-Distinct now synced_at digests rows d.1,
)

module _ (sha256 : String → String) where
  pub finish-IsWellFormed :
      (casefold digest : String → String) (now synced_at : ℕ) (seen : List String) (rows : Aliases)
      → IsWellFormed sha256 rows
      → Ensures (IsWellFormed sha256) (finish_remote_sync casefold digest now synced_at seen rows)
  unfolding finish_remote_sync
  finish-IsWellFormed casefold digest now synced_at seen rows w =
      Ensures->>= (IsWellFormed sha256) (digests_of casefold digest seen) _ λ digests _. record {
        keyed = deactivate-AreKeyed sha256 now synced_at digests rows w.keyed;
        distinct = deactivate-Distinct now synced_at digests rows w.distinct;
      }
