-- ===== src/Aliases/Table/Checks.antt =====
-- What the checks of the alias operations establish.
use icloud_code_gateway.Base.{
  String, ◌≡◌, refl, inl, inr, Bool, true, false, some, [], ◌∷◌, ◌++◌, any, find, All, arith,
  Option-cases, strip-strip, returned,
}
use icloud_code_gateway.Security.{validate_access_key, hash_access_key}
use icloud_code_gateway.Aliases.Rows.{Alias}
use icloud_code_gateway.Aliases.Table.{Aliases, has_id, is_active, require_active, delete_rows}

-- A validated key is valid, and is hashed as it stands.
pub validate-validated :
    (value key : String)
    → validate_access_key value ≡ returned key
    → validate_access_key key ≡ returned key
unfolding validate_access_key
validate-validated value key e = ground (arith, strip-strip value)

pub hash-validated :
    (sha256 : String → String) (key digest : String)
    → validate_access_key key ≡ returned key
    → hash_access_key sha256 key ≡ returned digest
    → sha256 key ≡ digest
unfolding hash_access_key
hash-validated sha256 key digest v e = ground (arith, v)

pub require_active-found :
    (alias_id : String) (rows : Aliases)
    → require_active alias_id rows ≡ returned tt
    → (a : Alias) × (find (has_id alias_id) rows ≡ some a) × (is_active a ≡ true)
unfolding require_active
require_active-found alias_id rows e = elim (Option-cases (find (has_id alias_id) rows)) [
  | inl n ↦ absurd (ground arith)
  | inr (a, f) ↦ (a, f, ground arith)
]

pub any-append_new :
    (p : Alias → Bool) (rows : Aliases) (a : Alias)
    → any p rows ≡ false
    → p a ≡ false
    → any p (rows ++ a ∷ []) ≡ false
any-append_new p [] a h n = ground arith
any-append_new p (b ∷ rows) a h n = ground (arith, any-append_new p rows a)

pub any-delete_rows :
    (x alias_id : String) (rows : Aliases)
    → any (has_id x) rows ≡ false
    → any (has_id x) (delete_rows alias_id rows) ≡ false
unfolding delete_rows
any-delete_rows x alias_id [] h = refl
any-delete_rows x alias_id (a ∷ rows) h = ground (arith, any-delete_rows x alias_id rows)

pub All-append-one :
    (P : Alias → Type 0) (rows : Aliases) (a : Alias) → All P rows → P a → All P (rows ++ a ∷ [])
All-append-one P [] a h p = (p, tt)
All-append-one P (b ∷ rows) a h p = (h.0, All-append-one P rows a h.1 p)
