-- ===== src/Mailbox/Index/Kept.antt =====
-- What a bucket still knows of an entry once it is sorted, cut or pruned: the entry itself, or as many
-- entries that are not older.
use icloud_code_gateway.Base.{
  ℕ, zero, suc, ◌+◌, ◌≤◌, ◌≡◌, ◌⊎◌, inl, inr, refl, true, false, List, [], ◌∷◌, ◌++◌, take, length,
  count_if, Bool-cases, arith,
}
use icloud_code_gateway.Mailbox.Index.{IndexedCode, key_le, insert, sort, keep_recent, is_kept}
use icloud_code_gateway.Mailbox.Index.Order.{
  In, NotNewer, IsDescending, All-In, key_le_trans, key_le-received,
}

-- How many entries are not older than `e`.
abbrev pub not_older : IndexedCode → List IndexedCode → ℕ
not_older e es = count_if (key_le e) es

In-insert_self : (e : IndexedCode) (es : List IndexedCode) → In e (insert e es)
unfolding insert
In-insert_self e [] = inl refl
In-insert_self e (g ∷ gs) = elim (Bool-cases (key_le g e)) [
  | inl y ↦ rw y (inl refl)
  | inr o ↦ rw o (inr (In-insert_self e gs))
]

In-insert : (e f : IndexedCode) (es : List IndexedCode) → In f es → In f (insert e es)
unfolding insert
In-insert e f [] i = elim i [ ]
In-insert e f (g ∷ gs) i = elim (Bool-cases (key_le g e)) [
  | inl y ↦ rw y (inr i)
  | inr o ↦ rw o (elim i [ inl same ↦ inl same | inr rest ↦ inr (In-insert e f gs rest) ])
]

pub In-sort : (f : IndexedCode) (es : List IndexedCode) → In f es → In f (sort es)
unfolding sort
In-sort f [] i = i
In-sort f (e ∷ es) i = elim i [
  | inl same ↦ rw same (In-insert_self e (sort es))
  | inr rest ↦ In-insert e f (sort es) (In-sort f es rest)
]

insert-In : (e f : IndexedCode) (es : List IndexedCode) → In f (insert e es) → (f ≡ e) ⊎ In f es
unfolding insert
insert-In e f [] = λ i. i
insert-In e f (g ∷ gs) = elim (Bool-cases (key_le g e)) [
  | inl y ↦ rw y (λ i. i)
  | inr o ↦ rw o (λ i. elim i [
    | inl same ↦ inr (inl same)
    | inr rest ↦ elim (insert-In e f gs rest) [ inl same ↦ inl same | inr old ↦ inr (inr old) ]
  ])
]

pub sort-In : (f : IndexedCode) (es : List IndexedCode) → In f (sort es) → In f es
unfolding sort
sort-In f [] i = i
sort-In f (e ∷ es) i = elim (insert-In e f (sort es) i) [
  | inl same ↦ inl same
  | inr rest ↦ inr (sort-In f es rest)
]

not_older-insert :
    (a e : IndexedCode) (es : List IndexedCode) → not_older a (insert e es) ≡ not_older a (e ∷ es)
unfolding insert
not_older-insert a e [] = refl
not_older-insert a e (g ∷ gs) = ground (arith, not_older-insert a e gs)

pub not_older-sort :
    (a : IndexedCode) (es : List IndexedCode) → not_older a (sort es) ≡ not_older a es
unfolding sort
not_older-sort a [] = refl
not_older-sort a (e ∷ es) = omega (arith, not_older-insert a e (sort es), not_older-sort a es)

pub not_older-append :
    (a : IndexedCode) (es fs : List IndexedCode)
    → not_older a (es ++ fs) ≡ not_older a es + not_older a fs
not_older-append a [] fs = omega arith
not_older-append a (e ∷ es) fs = omega (arith, not_older-append a es fs)

pub In-append_left : (a : IndexedCode) (es fs : List IndexedCode) → In a es → In a (es ++ fs)
In-append_left a [] fs i = elim i [ ]
In-append_left a (e ∷ es) fs i = elim i [
  | inl same ↦ inl same
  | inr rest ↦ inr (In-append_left a es fs rest)
]

pub In-append_last : (a : IndexedCode) (es : List IndexedCode) → In a (es ++ a ∷ [])
In-append_last a [] = inl refl
In-append_last a (e ∷ es) = inr (In-append_last a es)

pub append-In :
    (a b : IndexedCode) (es : List IndexedCode) → In a (es ++ b ∷ []) → (a ≡ b) ⊎ In a es
append-In a b [] i = elim i [ inl same ↦ inl same | inr rest ↦ inr rest ]
append-In a b (e ∷ es) i = elim i [
  | inl same ↦ inr (inl same)
  | inr rest ↦ elim (append-In a b es rest) [ inl same ↦ inl same | inr old ↦ inr (inr old) ]
]

-- An entry of a descending list is among the first, or the first are not older.
pub In-take :
    (n : ℕ) (a : IndexedCode) (es : List IndexedCode)
    → IsDescending es
    → In a es
    → In a (take n es) ⊎ (n ≤ not_older a (take n es))
In-take zero a es d i = inr (omega arith)
In-take (suc n) a [] d i = elim i [ ]
In-take (suc n) a (e ∷ es) d i = elim i [
  | inl same ↦ inl (inl same)
  | inr rest ↦
      let newer = All-In (λ f. key_le f e ≡ true) es a d.0 rest in
      elim (In-take n a es d.1 rest) [
        | inl early ↦ inl (inr early)
        | inr full ↦ inr (rw newer (omega arith))
      ]
]

none_after :
    (a e : IndexedCode) (es : List IndexedCode)
    → key_le a e ≡ false
    → NotNewer e es
    → not_older a es ≡ 0
none_after a e [] h n = refl
none_after a e (f ∷ fs) h n = ground (arith, none_after a e fs, key_le_trans a f e)

pub not_older-take :
    (n : ℕ) (a : IndexedCode) (es : List IndexedCode)
    → IsDescending es
    → n ≤ not_older a es
    → n ≤ not_older a (take n es)
not_older-take zero a es d h = omega arith
not_older-take (suc n) a [] d h = h
not_older-take (suc n) a (e ∷ es) d h = elim (Bool-cases (key_le a e)) [
  | inl y ↦
      let h' : suc n ≤ 1 + not_older a es = rw y at h in
      let rest = not_older-take n a es d.1 (omega arith) in rw y (omega arith)
  | inr o ↦
      let gone = none_after a e es o d.0 in
      let h' : suc n ≤ 0 + not_older a es = rw o at h in absurd (omega arith)
]

pub take-In : (n : ℕ) (a : IndexedCode) (es : List IndexedCode) → In a (take n es) → In a es
take-In zero a es i = elim i [ ]
take-In (suc n) a [] i = elim i [ ]
take-In (suc n) a (e ∷ es) i = elim i [ inl same ↦ inl same | inr rest ↦ inr (take-In n a es rest) ]

pub length-take-le : (n : ℕ) (es : List IndexedCode) → length (take n es) ≤ n
length-take-le zero es = omega arith
length-take-le (suc n) [] = omega arith
length-take-le (suc n) (e ∷ es) = omega (arith, length-take-le n es)

module _ (retention now : ℕ) where
  pub keep_recent-In :
      (a : IndexedCode) (es : List IndexedCode) → In a (keep_recent retention now es) → In a es
  unfolding keep_recent
  keep_recent-In a [] = λ i. i
  keep_recent-In a (e ∷ es) = elim (Bool-cases (is_kept retention now e)) [
    | inl y ↦ rw y (λ i. elim i [ inl same ↦ inl same | inr rest ↦ inr (keep_recent-In a es rest) ])
    | inr o ↦ rw o (λ i. inr (keep_recent-In a es i))
  ]

  pub In-keep_recent :
      (a : IndexedCode) (es : List IndexedCode)
      → now ≤ a.received_at + retention
      → In a es
      → In a (keep_recent retention now es)
  unfolding keep_recent
  In-keep_recent a [] h i = i
  In-keep_recent a (e ∷ es) h i = elim (Bool-cases (is_kept retention now e)) [
    | inl y ↦ rw y (elim i [ inl same ↦ inl same | inr rest ↦ inr (In-keep_recent a es h rest) ])
    | inr o ↦
        rw o (elim i [ inl same ↦ absurd (ground arith) | inr rest ↦ In-keep_recent a es h rest ])
  ]

  pub not_older-keep_recent :
      (a : IndexedCode) (es : List IndexedCode)
      → now ≤ a.received_at + retention
      → not_older a (keep_recent retention now es) ≡ not_older a es
  unfolding keep_recent
  not_older-keep_recent a [] h = refl
  not_older-keep_recent a (e ∷ es) h =
      ground (arith, not_older-keep_recent a es, key_le-received a e)

  pub length-keep_recent-le :
      (es : List IndexedCode) → length (keep_recent retention now es) ≤ length es
  unfolding keep_recent
  length-keep_recent-le [] = omega arith
  length-keep_recent-le (e ∷ es) = ground (arith, length-keep_recent-le es)
