-- ===== src/Mailbox/Index/History.antt =====
-- The index after any history of messages and prunings, against the log of all messages.
use icloud_code_gateway.Base.{
  ℕ, ◌+◌, ◌≤◌, ◌≡◌, String, List, [], ◌∷◌, str_eq, All, Bool-cases, inl, inr, true, if◌then◌else◌,
  eq_iff, arith,
}
use icloud_code_gateway.Mailbox.Index.{
  IndexedCode, Index, is_same, store_for, store, bucket_of, prune,
}
use icloud_code_gateway.Mailbox.Index.Order.{All-In}
use icloud_code_gateway.Mailbox.Index.Dict.{
  IsDict, bucket_of-store_for, store_for-IsDict, prune-IsDict, bucket_of-prune,
}
use icloud_code_gateway.Mailbox.Index.Knows.{Knows, add_to-Knows, keep_recent-Knows}

-- What the thread of the watcher does to the index: a message for its recipients, or a pruning at a time.
pub data Event : Type 0 where
  stored : List String → IndexedCode → Event
  pruned : ℕ → Event

-- The index after a history, whose newest event comes first.
unfoldable pub run : ℕ → List Event → Index
run retention [] = []
run retention (stored rs e ∷ events) = (store rs e (run retention events)).1
run retention (pruned now ∷ events) = prune retention now (run retention events)

-- Every message that named a recipient, with nothing left out.
unfoldable pub offered : String → List String → IndexedCode → List IndexedCode → List IndexedCode
offered r [] e log = log
offered r (s ∷ rs) e log = offered r rs e (if str_eq s r then e ∷ log else log)

unfoldable pub log_of : String → List Event → List IndexedCode
unfolding offered
log_of r [] = []
log_of r (stored rs e ∷ events) = offered r rs e (log_of r events)
log_of r (pruned now ∷ events) = log_of r events

module _ (mail : (uid folder : String) → IndexedCode) where
  abbrev pub IsMail : IndexedCode → Type 0
  IsMail e = e ≡ mail e.uid e.folder

  -- A uid names one message of its folder, and no pruning is later than `now`.
  abbrev pub IsUpTo : ℕ → Event → Type 0
  IsUpTo now (stored rs e) = IsMail e
  IsUpTo now (pruned at) = at ≤ now

  IsMail-names : (e x : IndexedCode) → IsMail e → IsMail x → is_same e x ≡ true → e ≡ x
  IsMail-names e x me mx h =
      let u : e.uid ≡ x.uid = (eq_iff e.uid x.uid).0 (ground arith) in
      let f : e.folder ≡ x.folder = (eq_iff e.folder x.folder).0 (ground arith) in cc (me, mx, u, f)

  abbrev IsTracked : ℕ → String → List IndexedCode → Index → Type 0
  IsTracked since r log index = IsDict index × All IsMail log × Knows since log (bucket_of r index)

  module _ (since retention : ℕ) (r : String) where
    store_for-IsTracked :
        (s : String) (x : IndexedCode) (log : List IndexedCode) (index : Index)
        → IsMail x
        → IsTracked since r log index
        → IsTracked since r (if str_eq s r then x ∷ log else log) (store_for x s index)
    store_for-IsTracked s x log index m t = elim (Bool-cases (str_eq s r)) [
      | inl same ↦ rw same (
        store_for-IsDict x s index t.0,
        (m, t.1),
        rw (bucket_of-store_for x r s index) (
            rw same (
              add_to-Knows since log _ x (λ e i. IsMail-names e x (All-In IsMail log e t.1 i) m)
                t.2)),
      )
      | inr differs ↦ rw differs (
        store_for-IsDict x s index t.0,
        t.1,
        rw (bucket_of-store_for x r s index) (rw differs t.2),
      )
    ]

    store-IsTracked :
        (rs : List String) (x : IndexedCode) (log : List IndexedCode) (index : Index)
        → IsMail x
        → IsTracked since r log index
        → IsTracked since r (offered r rs x log) (store rs x index).1
    unfolding store offered
    store-IsTracked [] x log index m t = t
    store-IsTracked (s ∷ rs) x log index m t =
        store-IsTracked rs x _ _ m (store_for-IsTracked s x log index m t)

    pub run-IsTracked :
        (now : ℕ) (events : List Event)
        → now ≤ since + retention
        → All (IsUpTo now) events
        → IsTracked since r (log_of r events) (run retention events)
    unfolding run log_of bucket_of
    run-IsTracked now [] h a = (
      tt,
      tt,
      record {
        descending = tt;
        bounded = omega arith;
        sound = λ e i. i;
        covers = λ e s i. elim i [ ];
      },
    )
    run-IsTracked now (stored rs x ∷ events) h a =
        store-IsTracked rs x _ _ a.0 (run-IsTracked now events h a.1)
    run-IsTracked now (pruned at ∷ events) h a =
        let t = run-IsTracked now events h a.1 in
        (
          prune-IsDict retention at _ t.0,
          t.1,
          rw (bucket_of-prune retention at r (run retention events) t.0)
              (keep_recent-Knows since _ _ retention at (omega (arith, a.0)) t.2),
        )
