-- ===== src/Aliases/Table/Lookup.antt =====
-- What a search in the alias table finds after an update.
use icloud_code_gateway.Base.{
  ℕ, String, ◌≡◌, refl, inl, inr, Bool, true, false, ◌&&◌, some, [], ◌∷◌, any, find, All, arith,
  eq_refl, Bool-cases,
}
use mathlib.Core.Path.{subst}
use icloud_code_gateway.Aliases.Rows.{Alias}
use icloud_code_gateway.Aliases.Table.{
  Aliases, has_id, is_active, answers, update_alias, with_key, is_taken,
}

pub find-All :
    (P : Alias → Type 0) (p : Alias → Bool) (rows : Aliases) (a : Alias)
    → All P rows
    → find p rows ≡ some a
    → P a × (p a ≡ true)
find-All P p [] a h e = absurd (cc)
find-All P p (k ∷ ks) a h e = elim (Bool-cases (p k)) [
  | inl hit ↦ let same : k ≡ a = ground arith in subst (λ x. P x × (p x ≡ true)) same (h.0, hit)
  | inr miss ↦ find-All P p ks a h.1 (rw miss at e)
]

pub find-update_alias :
    (alias_id : String) (f : Alias → Alias) (rows : Aliases) (a : Alias)
    → ((b : Alias) → (f b).id ≡ b.id)
    → find (has_id alias_id) rows ≡ some a
    → find (has_id alias_id) (update_alias alias_id f rows) ≡ some (f a)
unfolding update_alias
find-update_alias alias_id f [] a keep e = absurd (cc)
find-update_alias alias_id f (k ∷ ks) a keep e =
    ground (arith, keep k, find-update_alias alias_id f ks a keep)

-- The row that a new key was written to is the one that the key finds.
pub find-answers :
    (alias_id digest key : String) (now : ℕ) (rows : Aliases) (a : Alias)
    → find (has_id alias_id) rows ≡ some a
    → is_active a ≡ true
    → is_taken alias_id digest rows ≡ false
    → find (answers digest) (update_alias alias_id (with_key digest key now) rows)
      ≡ some (with_key digest key now a)
unfolding update_alias
find-answers alias_id digest key now [] a f l t = absurd (cc)
find-answers alias_id digest key now (k ∷ ks) a f l t =
    ground (arith, eq_refl digest, find-answers alias_id digest key now ks a)

-- No row with the id answers the old key, if every row with the id has another.
pub find-answers_ne :
    (alias_id old : String) (f : Alias → Alias) (rows : Aliases) (b : Alias)
    → ((a : Alias) → answers old (f a) ≡ false)
    → find (answers old) (update_alias alias_id f rows) ≡ some b
    → has_id alias_id b ≡ false
unfolding update_alias
find-answers_ne alias_id old f [] b other e = absurd (cc)
find-answers_ne alias_id old f (k ∷ ks) b other e =
    ground (arith, other k, find-answers_ne alias_id old f ks b other)

pub no_answer :
    (alias_id digest : String) (f : Alias → Alias) (rows : Aliases)
    → ((a : Alias) → answers digest (f a) ≡ false)
    → any (λ b. has_id alias_id b && answers digest b) (update_alias alias_id f rows) ≡ false
unfolding update_alias
no_answer alias_id digest f [] other = refl
no_answer alias_id digest f (k ∷ ks) other =
    ground (arith, other k, no_answer alias_id digest f ks other)

pub All-Unit : (rows : Aliases) → All (λ _. Unit {0}) rows
All-Unit [] = tt
All-Unit (a ∷ rows) = (tt, All-Unit rows)
