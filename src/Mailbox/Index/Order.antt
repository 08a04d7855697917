-- ===== src/Mailbox/Index/Order.antt =====
-- The order of a bucket: what sorting and cutting it keep.
use icloud_code_gateway.Base.{
  ℕ, zero, suc, ◌≤◌, ◌≡◌, ◌⊎◌, inl, inr, true, false, List, [], ◌∷◌, take, All, Bool-cases, arith,
}
use icloud_code_gateway.Mailbox.Uids.{uid_le_total, uid_le_trans}
use icloud_code_gateway.Mailbox.Index.{IndexedCode, key_le, insert, sort, keep_recent, is_kept}

pub key_le_total : (a b : IndexedCode) → key_le a b ≡ false → key_le b a ≡ true
unfolding key_le
key_le_total a b h = ground (arith, uid_le_total a.uid b.uid)

pub key_le_trans : (a b c : IndexedCode) → key_le a b ≡ true → key_le b c ≡ true → key_le a c ≡ true
unfolding key_le
key_le_trans a b c h k = ground (arith, uid_le_trans a.uid b.uid c.uid)

pub key_le_refl : (a : IndexedCode) → key_le a a ≡ true
key_le_refl a = elim (Bool-cases (key_le a a)) [ inl y ↦ y | inr n ↦ key_le_total a a n ]

pub key_le-received : (a b : IndexedCode) → key_le a b ≡ true → a.received_at ≤ b.received_at
unfolding key_le
key_le-received a b h = ground arith

abbrev pub In : IndexedCode → List IndexedCode → Type 0
In a [] = ⊥
In a (x ∷ xs) = (a ≡ x) ⊎ In a xs

-- None is newer than `e`.
abbrev pub NotNewer : IndexedCode → List IndexedCode → Type 0
NotNewer e = All (λ f. key_le f e ≡ true)

abbrev pub IsDescending : List IndexedCode → Type 0
IsDescending [] = Unit
IsDescending (e ∷ es) = NotNewer e es × IsDescending es

pub All-In :
    (P : IndexedCode → Type 0) (xs : List IndexedCode) (a : IndexedCode) → All P xs → In a xs → P a
All-In P [] a h i = elim i [ ]
All-In P (x ∷ xs) a h i = elim i [ inl e ↦ rw e h.0 | inr rest ↦ All-In P xs a h.1 rest ]

NotNewer-trans :
    (e f : IndexedCode) (es : List IndexedCode) → key_le e f ≡ true → NotNewer e es → NotNewer f es
NotNewer-trans e f [] h n = tt
NotNewer-trans e f (g ∷ gs) h n = (key_le_trans g e f n.0 h, NotNewer-trans e f gs h n.1)

NotNewer-insert :
    (f e : IndexedCode) (es : List IndexedCode)
    → key_le e f ≡ true
    → NotNewer f es
    → NotNewer f (insert e es)
unfolding insert
NotNewer-insert f e [] h n = (h, tt)
NotNewer-insert f e (g ∷ gs) h n = elim (Bool-cases (key_le g e)) [
  | inl y ↦ rw y (h, n)
  | inr o ↦ rw o (n.0, NotNewer-insert f e gs h n.1)
]

insert-IsDescending :
    (e : IndexedCode) (es : List IndexedCode) → IsDescending es → IsDescending (insert e es)
unfolding insert
insert-IsDescending e [] d = (tt, tt)
insert-IsDescending e (g ∷ gs) d = elim (Bool-cases (key_le g e)) [
  | inl y ↦ rw y ((y, NotNewer-trans g e gs y d.0), d)
  | inr o ↦ rw o (NotNewer-insert g e gs (key_le_total g e o) d.0, insert-IsDescending e gs d.1)
]

pub sort-IsDescending : (es : List IndexedCode) → IsDescending (sort es)
unfolding sort
sort-IsDescending [] = tt
sort-IsDescending (e ∷ es) = insert-IsDescending e (sort es) (sort-IsDescending es)

NotNewer-take :
    (n : ℕ) (e : IndexedCode) (es : List IndexedCode) → NotNewer e es → NotNewer e (take n es)
NotNewer-take zero e es h = tt
NotNewer-take (suc n) e [] h = tt
NotNewer-take (suc n) e (f ∷ fs) h = (h.0, NotNewer-take n e fs h.1)

pub take-IsDescending : (n : ℕ) (es : List IndexedCode) → IsDescending es → IsDescending (take n es)
take-IsDescending zero es d = tt
take-IsDescending (suc n) [] d = tt
take-IsDescending (suc n) (e ∷ es) d = (NotNewer-take n e es d.0, take-IsDescending n es d.1)

module _ (retention now : ℕ) where
  NotNewer-keep_recent :
      (e : IndexedCode) (es : List IndexedCode)
      → NotNewer e es
      → NotNewer e (keep_recent retention now es)
  unfolding keep_recent
  NotNewer-keep_recent e [] h = tt
  NotNewer-keep_recent e (f ∷ fs) h = elim (Bool-cases (is_kept retention now f)) [
    | inl y ↦ rw y (h.0, NotNewer-keep_recent e fs h.1)
    | inr o ↦ rw o (NotNewer-keep_recent e fs h.1)
  ]

  pub keep_recent-IsDescending :
      (es : List IndexedCode) → IsDescending es → IsDescending (keep_recent retention now es)
  unfolding keep_recent
  keep_recent-IsDescending [] d = tt
  keep_recent-IsDescending (e ∷ es) d = elim (Bool-cases (is_kept retention now e)) [
    | inl y ↦ rw y (NotNewer-keep_recent e es d.0, keep_recent-IsDescending es d.1)
    | inr o ↦ rw o (keep_recent-IsDescending es d.1)
  ]
