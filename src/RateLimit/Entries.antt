-- ===== src/RateLimit/Entries.antt =====
-- What the operations on the table of rate_limit.py do to the entry of an identifier.
use icloud_code_gateway.Base.{
  ℕ, ◌+◌, ◌*◌, ◌≤◌, ◌<◌, max, ◌≡◌, refl, Bool, true, false, ◌&&◌, List, [], ◌∷◌, ◌++◌, leb, ltb,
  length, count_if, arith, eq_iff, eq_refl,
}
use icloud_code_gateway.RateLimit.{
  Identifier, Events, second, same, events_of, store, drop_expired, is_stale, drop_stale,
  purge_empty,
}

-- An event counts at time `n` while it is at most a window old.
abbrev pub live_at : ℕ → ℕ → ℕ → Bool
live_at window n e = leb e n && ltb n (e + window)

abbrev pub count_live : ℕ → ℕ → List ℕ → ℕ
count_live window n es = count_if (live_at window n) es

pub count_live-le-length : (window n : ℕ) (es : List ℕ) → count_live window n es ≤ length es
count_live-le-length window n [] = omega arith
count_live-le-length window n (e ∷ es) = ground (arith, count_live-le-length window n es)

pub count_live-append :
    (window n : ℕ) (es fs : List ℕ)
    → count_live window n (es ++ fs) ≡ count_live window n es + count_live window n fs
count_live-append window n [] fs = omega arith
count_live-append window n (e ∷ es) fs = omega (arith, count_live-append window n es fs)

-- What `check` pops is out of the window now and at any later time.
pub count_live-drop_expired :
    (window now n : ℕ) (es : List ℕ)
    → now ≤ n
    → count_live window n (drop_expired window now es) ≡ count_live window n es
unfolding drop_expired
count_live-drop_expired window now n [] h = refl
count_live-drop_expired window now n (e ∷ es) h =
    ground (arith, count_live-drop_expired window now n es)

pub count_live-drop_expired_le :
    (window now n : ℕ) (es : List ℕ)
    → count_live window n (drop_expired window now es) ≤ count_live window n es
unfolding drop_expired
count_live-drop_expired_le window now n [] = omega arith
count_live-drop_expired_le window now n (e ∷ es) =
    ground (arith, count_live-drop_expired_le window now n es)

pub same_refl : (i : Identifier) → same i i ≡ true
same_refl i = ground (arith, eq_refl i.bucket, eq_refl i.key)

pub same_eq : (i j k : Identifier) → same i j ≡ true → same i k ≡ same j k
same_eq i j k h = ground (
  arith,
  eq_iff i.bucket j.bucket,
  eq_iff i.key j.key,
  eq_iff i.bucket k.bucket,
  eq_iff i.key k.key,
  eq_iff j.bucket k.bucket,
  eq_iff j.key k.key,
)

pub events_of-store : (i : Identifier) (es : List ℕ) (t : Events) → events_of i (store i es t) ≡ es
unfolding events_of store
events_of-store i es [] = ground (arith, same_refl i)
events_of-store i es ((j, fs) ∷ t) = ground (arith, events_of-store i es t)

pub events_of-store_ne :
    (i j : Identifier) (es : List ℕ) (t : Events)
    → same i j ≡ false
    → events_of j (store i es t) ≡ events_of j t
unfolding events_of store
events_of-store_ne i j es [] h = ground arith
events_of-store_ne i j es ((k, fs) ∷ t) h =
    ground (arith, events_of-store_ne i j es t, same_eq k i j)

pub events_of-drop_stale :
    (i : Identifier) (window now : ℕ) (t : Events)
    → is_stale window now (events_of i t) ≡ false
    → events_of i (drop_stale window now t) ≡ events_of i t
unfolding events_of drop_stale
events_of-drop_stale i window now [] h = refl
events_of-drop_stale i window now ((j, es) ∷ t) h =
    ground (arith, events_of-drop_stale i window now t)

pub events_of-purge_empty :
    (i : Identifier) (now window : ℕ) (t : Events)
    → is_stale (max window (3600 * second)) now (events_of i t) ≡ false
    → events_of i (purge_empty now window t) ≡ events_of i t
unfolding purge_empty
events_of-purge_empty i now window t h =
    ground (arith, events_of-drop_stale i (max window (3600 * second)) now t)

pub is_stale-append_now :
    (window now : ℕ) (es : List ℕ) → 0 < window → is_stale window now (es ++ now ∷ []) ≡ false
unfolding is_stale
is_stale-append_now window now [] h = ground arith
is_stale-append_now window now (e ∷ []) h = ground arith
is_stale-append_now window now (e ∷ f ∷ es) h = is_stale-append_now window now (f ∷ es) h
