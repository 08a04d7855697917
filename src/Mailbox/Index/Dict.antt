-- ===== src/Mailbox/Index/Dict.antt =====
-- The index as a dict: distinct keys, and the bucket of a recipient after each operation.
use icloud_code_gateway.Base.{
  ℕ, ◌≡◌, inl, inr, refl, ◌∙◌, String, Bool, false, ◌||◌, List, [], ◌∷◌, str_eq, Bool-cases, arith,
  if◌then◌else◌, eq_iff,
}
use icloud_code_gateway.Mailbox.Index.{
  IndexedCode, Index, add_to, store_for, bucket_of, keep_recent, with_bucket, prune,
}

unfoldable pub has_key : String → Index → Bool
has_key r [] = false
has_key r ((s, bucket) ∷ index) = str_eq s r || has_key r index

-- The keys of the index are distinct, as those of a dict are.
abbrev pub IsDict : Index → Type 0
IsDict [] = Unit
IsDict ((s, bucket) ∷ index) = (has_key s index ≡ false) × IsDict index

bucket_of_absent : (r : String) (index : Index) → has_key r index ≡ false → bucket_of r index ≡ []
unfolding bucket_of has_key
bucket_of_absent r [] h = refl
bucket_of_absent r ((s, bucket) ∷ index) h = ground (arith, bucket_of_absent r index)

pub bucket_of-store_for :
    (entry : IndexedCode) (r s : String) (index : Index)
    → bucket_of r (store_for entry s index)
      ≡ (if str_eq s r then add_to entry (bucket_of r index) else bucket_of r index)
unfolding bucket_of store_for
bucket_of-store_for entry r s [] = refl
bucket_of-store_for entry r s ((k, bucket) ∷ index) =
    ground (arith, eq_iff s r, eq_iff k s, eq_iff k r, bucket_of-store_for entry r s index)

has_key-store_for :
    (entry : IndexedCode) (r s : String) (index : Index)
    → has_key r (store_for entry s index) ≡ (str_eq s r || has_key r index)
unfolding has_key store_for
has_key-store_for entry r s [] = refl
has_key-store_for entry r s ((k, bucket) ∷ index) =
    ground (arith, eq_iff s r, eq_iff k s, eq_iff k r, has_key-store_for entry r s index)

pub store_for-IsDict :
    (entry : IndexedCode) (s : String) (index : Index)
    → IsDict index
    → IsDict (store_for entry s index)
unfolding store_for has_key
store_for-IsDict entry s [] h = (refl, tt)
store_for-IsDict entry s ((k, bucket) ∷ index) h = elim (Bool-cases (str_eq k s)) [
  | inl same ↦ rw same h
  | inr differs ↦
      let same_keys = has_key-store_for entry k s index in
      rw differs (ground (arith, eq_iff k s, eq_iff s k), store_for-IsDict entry s index h.1)
]

bucket_of-with_bucket :
    (r s : String) (es : List IndexedCode) (index : Index)
    → has_key s index ≡ false
    → bucket_of r (with_bucket s es index) ≡ (if str_eq s r then es else bucket_of r index)
unfolding bucket_of
bucket_of-with_bucket r s [] index h = elim (Bool-cases (str_eq s r)) [
  | inl same ↦ let e : s ≡ r = (eq_iff s r).0 same in rw same (bucket_of_absent r index (rw e at h))
  | inr differs ↦ rw differs
]
bucket_of-with_bucket r s (e ∷ es) index h = refl

module _ (retention now : ℕ) where
  has_key-prune :
      (r : String) (index : Index)
      → has_key r index ≡ false
      → has_key r (prune retention now index) ≡ false
  unfolding has_key prune
  has_key-prune r [] h = refl
  has_key-prune r ((s, bucket) ∷ index) h = ground (arith, has_key-prune r index)

  pub prune-IsDict : (index : Index) → IsDict index → IsDict (prune retention now index)
  unfolding prune
  prune-IsDict [] h = tt
  prune-IsDict ((s, bucket) ∷ index) h =
      put_back (keep_recent retention now bucket) (has_key-prune s index h.0)
        (prune-IsDict index h.1)
    where
      put_back :
          (es : List IndexedCode)
          → has_key s (prune retention now index) ≡ false
          → IsDict (prune retention now index)
          → IsDict (with_bucket s es (prune retention now index))
      put_back [] k d = d
      put_back (e ∷ es) k d = (k, d)

  pub bucket_of-prune :
      (r : String) (index : Index)
      → IsDict index
      → bucket_of r (prune retention now index) ≡ keep_recent retention now (bucket_of r index)
  unfolding bucket_of prune has_key
  bucket_of-prune r [] h = refl
  bucket_of-prune r ((s, bucket) ∷ index) h =
      let absent = has_key-prune s index h.0 in
      let split =
        bucket_of-with_bucket r s (keep_recent retention now bucket) (prune retention now index)
          absent in
      split ∙ ground (arith, bucket_of-prune r index)
