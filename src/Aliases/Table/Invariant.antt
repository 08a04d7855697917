-- ===== src/Aliases/Table/Invariant.antt =====
-- What is true of every alias row that the operations build: an inactive alias has no key, and the
-- columns of a key belong together.
use icloud_code_gateway.Base.{
  ℕ, String, ◌≡◌, refl, sym, ◌∙◌, ap, Bool, true, false, Option, none, some, [], ◌∷◌, if◌then◌else◌,
  All, arith, last_four, returned,
}
use icloud_code_gateway.Security.{validate_access_key}
use icloud_code_gateway.Aliases.Rows.{AliasState, active, inactive, key_blob, Alias}
use icloud_code_gateway.Aliases.Table.{
  Aliases, has_id, is_active, is_inactive, update_alias, with_key, without_key, delete_rows,
}

-- A key that an alias holds, and the columns that go with it.
pub record KeyOf (sha256 : String → String) (a : Alias) (digest : String) : Type 0 where
  pub key : String
  pub well_formed : validate_access_key key ≡ returned key
  pub hashed : sha256 key ≡ digest
  pub recoverable : a.access_key_blob ≡ some (key_blob a.id key)
  pub hinted : a.access_key_hint ≡ some (last_four key)
  pub not_revoked : a.key_revoked_at ≡ none
  pub usable : is_active a ≡ true

-- A row without a key has none of its columns; a row with one has all of them, and is active.
abbrev pub Holds : (String → String) → Alias → Option String → Type 0
Holds sha256 a none = (a.access_key_hint ≡ none) × (a.access_key_blob ≡ none)
Holds sha256 a (some digest) = KeyOf sha256 a digest

pub record IsKeyed (sha256 : String → String) (a : Alias) : Type 0 where
  pub holds : Holds sha256 a a.access_key_hash

module _ (sha256 : String → String) where
  pub with_key-IsKeyed :
      (digest key : String) (now : ℕ) (a : Alias)
      → validate_access_key key ≡ returned key
      → sha256 key ≡ digest
      → is_active a ≡ true
      → IsKeyed sha256 (with_key digest key now a)
  with_key-IsKeyed digest key now a v h u = record {
    holds = record {
      key = key;
      well_formed = v;
      hashed = h;
      recoverable = refl;
      hinted = refl;
      not_revoked = refl;
      usable = u;
    };
  }

  pub without_key-IsKeyed : (now : ℕ) (a : Alias) → IsKeyed sha256 (without_key now a)
  without_key-IsKeyed now a = record { holds = (refl, refl) }

  -- Columns that have nothing to do with the key may change.
  pub same_key :
      (a b : Alias)
      → b.id ≡ a.id
      → b.access_key_hash ≡ a.access_key_hash
      → b.access_key_hint ≡ a.access_key_hint
      → b.access_key_blob ≡ a.access_key_blob
      → b.key_revoked_at ≡ a.key_revoked_at
      → b.state ≡ a.state
      → IsKeyed sha256 a
      → IsKeyed sha256 b
  same_key a b i h n l r s k = record { holds = by_hash a.access_key_hash k.holds h }
    where
      by_hash :
          (o : Option String)
          → Holds sha256 a o
          → b.access_key_hash ≡ o
          → Holds sha256 b b.access_key_hash
      by_hash none k e = rw e (n ∙ k.0, l ∙ k.1)
      by_hash (some digest) k e = rw e (record {
        key = k.key;
        well_formed = k.well_formed;
        hashed = k.hashed;
        recoverable = l ∙ (k.recoverable ∙ ap (λ j. some (key_blob j k.key)) (sym i));
        hinted = n ∙ k.hinted;
        not_revoked = r ∙ k.not_revoked;
        usable = ground (arith, k.usable);
      })

  pub All-update_alias :
      (P : Alias → Type 0) (alias_id : String) (f : Alias → Alias) (rows : Aliases)
      → ((a : Alias) → has_id alias_id a ≡ true → P a → P (f a))
      → All P rows
      → All P (update_alias alias_id f rows)
  unfolding update_alias
  All-update_alias P alias_id f [] keep h = tt
  All-update_alias P alias_id f (a ∷ rows) keep h =
      (here (has_id alias_id a) refl, All-update_alias P alias_id f rows keep h.1)
    where
      here : (b : Bool) → has_id alias_id a ≡ b → P (if b then f a else a)
      here true e = keep a e h.0
      here false e = h.0

  abbrev pub AreKeyed : Aliases → Type 0
  AreKeyed = All (IsKeyed sha256)

  pub set_state-IsKeyed :
      (state : AliasState) (now : ℕ) (a : Alias)
      → IsKeyed sha256 a
      → IsKeyed sha256 (
          if is_inactive state
          then record (without_key now a) { state = state }
          else record a { state = state; updated_at = now })
  set_state-IsKeyed active now a k = record { holds = by_hash a.access_key_hash k.holds }
    where
      by_hash :
          (o : Option String)
          → Holds sha256 a o
          → Holds sha256 (record a { state = active; updated_at = now }) o
      by_hash none k = k
      by_hash (some digest) k = record {
        key = k.key;
        well_formed = k.well_formed;
        hashed = k.hashed;
        recoverable = k.recoverable;
        hinted = k.hinted;
        not_revoked = k.not_revoked;
        usable = refl;
      }
  set_state-IsKeyed inactive now a k = record { holds = (refl, refl) }

  pub delete_rows-AreKeyed :
      (alias_id : String) (rows : Aliases) → AreKeyed rows → AreKeyed (delete_rows alias_id rows)
  unfolding delete_rows
  delete_rows-AreKeyed alias_id [] h = tt
  delete_rows-AreKeyed alias_id (a ∷ rows) h =
      here (has_id alias_id a) (delete_rows-AreKeyed alias_id rows h.1)
    where
      here :
          (b : Bool)
          → AreKeyed (delete_rows alias_id rows)
          → AreKeyed (if b then delete_rows alias_id rows else a ∷ delete_rows alias_id rows)
      here true rest = rest
      here false rest = (h.0, rest)
