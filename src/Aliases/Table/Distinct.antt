-- ===== src/Aliases/Table/Distinct.antt =====
-- The primary key of `aliases`: no two rows have one id.
use icloud_code_gateway.Base.{
  String, ◌≡◌, refl, sym, inl, inr, false, some, [], ◌∷◌, any, find, All, arith, eq_iff, Bool-cases,
}
use mathlib.Core.Path.{subst}
use icloud_code_gateway.Aliases.Rows.{Alias}
use icloud_code_gateway.Aliases.Table.{Aliases, has_id, update_alias}

-- No row after the first with an id has it again: the primary key.
abbrev pub Distinct : Aliases → Type 0
Distinct [] = Unit
Distinct (a ∷ rows) = (any (has_id a.id) rows ≡ false) × Distinct rows

update_alias-absent :
    (alias_id : String) (f : Alias → Alias) (rows : Aliases)
    → any (has_id alias_id) rows ≡ false
    → update_alias alias_id f rows ≡ rows
unfolding update_alias
update_alias-absent alias_id f [] h = refl
update_alias-absent alias_id f (a ∷ rows) h = ground (arith, update_alias-absent alias_id f rows)

-- An update of the one row with an id keeps what holds of all rows, if the new row has it.
pub All-update_found :
    (P : Alias → Type 0) (alias_id : String) (f : Alias → Alias) (rows : Aliases) (a : Alias)
    → Distinct rows
    → find (has_id alias_id) rows ≡ some a
    → P (f a)
    → All P rows
    → All P (update_alias alias_id f rows)
unfolding update_alias
All-update_found P alias_id f [] a d e new h = tt
All-update_found P alias_id f (k ∷ rows) a d e new h = elim (Bool-cases (has_id alias_id k)) [
  | inl hit ↦
      let same : k ≡ a = ground arith in
      let alone : any (has_id alias_id) rows ≡ false = rw (← (eq_iff k.id alias_id).0 hit) d.0 in
      rw (hit, update_alias-absent alias_id f rows alone) (subst (λ x. P (f x)) (sym same) new, h.1)
  | inr miss ↦ rw miss (h.0, All-update_found P alias_id f rows a d.1 (rw miss at e) new h.1)
]

pub any-update_alias :
    (x alias_id : String) (f : Alias → Alias) (rows : Aliases)
    → ((a : Alias) → (f a).id ≡ a.id)
    → any (has_id x) (update_alias alias_id f rows) ≡ any (has_id x) rows
unfolding update_alias
any-update_alias x alias_id f [] keep = refl
any-update_alias x alias_id f (a ∷ rows) keep =
    ground (arith, keep a, any-update_alias x alias_id f rows keep)

pub update_alias-Distinct :
    (alias_id : String) (f : Alias → Alias) (rows : Aliases)
    → ((a : Alias) → (f a).id ≡ a.id)
    → Distinct rows
    → Distinct (update_alias alias_id f rows)
unfolding update_alias
update_alias-Distinct alias_id f [] keep d = tt
update_alias-Distinct alias_id f (a ∷ rows) keep d = (
  ground (arith, keep a, any-update_alias a.id alias_id f rows keep, d.0),
  update_alias-Distinct alias_id f rows keep d.1,
)
