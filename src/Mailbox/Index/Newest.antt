-- ===== src/Mailbox/Index/Newest.antt =====
-- `latest`, against the log of all messages: the index forgets, and the answer is still the newest code.
use icloud_code_gateway.Base.{
  ℕ, ◌+◌, ◌-◌, ◌*◌, ◌≤◌, max, ◌≡◌, ◌⊎◌, inl, inr, refl, String, Option, none, some, List, [], ◌∷◌,
  str_eq, strip, All, Bool-cases, true, false, returned, arith,
}
use icloud_code_gateway.Mailbox.Senders.{Headers, sender_matches_filter, sender_matches_policy}
use icloud_code_gateway.Mailbox.Index.{
  IndexedCode, second, Query, key_le, in_window, better, is_accepted, best_of, latest, bucket_of,
}
use icloud_code_gateway.Mailbox.Index.Order.{
  In, All-In, key_le_total, key_le_trans, key_le_refl, key_le-received,
}
use icloud_code_gateway.Mailbox.Index.Kept.{not_older}
use icloud_code_gateway.Mailbox.Index.Knows.{Knows}
use icloud_code_gateway.Mailbox.Index.History.{Event, IsUpTo, run, log_of, run-IsTracked}

-- What the newest entry in a query's window is: none if there is none in it.
abbrev pub IsNewest : Query → List IndexedCode → Option IndexedCode → Type 0
IsNewest q log none = (e : IndexedCode) → In e log → in_window q e ≡ false
IsNewest q log (some b) =
    In b log
    × (in_window q b ≡ true)
    × ((e : IndexedCode) → In e log → in_window q e ≡ true → key_le e b ≡ true)

-- Entries that have been read, the last first.
read : List IndexedCode → List IndexedCode → List IndexedCode
read [] seen = seen
read (e ∷ es) seen = read es (e ∷ seen)

In-read : (a : IndexedCode) (es seen : List IndexedCode) → In a es ⊎ In a seen → In a (read es seen)
unfolding read
In-read a [] seen i = elim i [ inl never ↦ elim never [ ] | inr old ↦ old ]
In-read a (e ∷ es) seen i = In-read a es (e ∷ seen) (elim i [
  | inl new ↦ elim new [ inl same ↦ inr (inl same) | inr later ↦ inl later ]
  | inr old ↦ inr (inr old)
])

read-In : (a : IndexedCode) (es seen : List IndexedCode) → In a (read es seen) → In a es ⊎ In a seen
unfolding read
read-In a [] seen i = inr i
read-In a (e ∷ es) seen i = elim (read-In a es (e ∷ seen) i) [
  | inl later ↦ inl (inr later)
  | inr old ↦ elim old [ inl same ↦ inl (inl same) | inr older ↦ inr older ]
]

module _ (q : Query) (e : IndexedCode) (seen : List IndexedCode) where
  better-IsNewest :
      (best : Option IndexedCode)
      → in_window q e ≡ true
      → IsNewest q seen best
      → IsNewest q (e ∷ seen) (better best e)
  better-IsNewest none w n = (
    inl refl,
    w,
    λ a i v. elim i [ inl same ↦ rw same (key_le_refl e) | inr old ↦ absurd (cc (n a old, v)) ],
  )
  better-IsNewest (some b) w n = elim (Bool-cases (key_le e b)) [
    | inl older ↦
        rw older
          (inr n.0, n.1, λ a i v. elim i [ inl same ↦ rw same older | inr old ↦ n.2 a old v ])
    | inr newer ↦ rw newer (
      inl refl,
      w,
      λ a i v. elim i [
        | inl same ↦ rw same (key_le_refl e)
        | inr old ↦ key_le_trans a b e (n.2 a old v) (key_le_total e b newer)
      ],
    )
  ]

  out-IsNewest :
      (best : Option IndexedCode)
      → in_window q e ≡ false
      → IsNewest q seen best
      → IsNewest q (e ∷ seen) best
  out-IsNewest none o n = λ a i. elim i [ inl same ↦ rw same o | inr old ↦ n a old ]
  out-IsNewest (some b) o n = (
    inr n.0,
    n.1,
    λ a i v. elim i [
      | inl same ↦ let v' : in_window q e ≡ true = rw same at v in absurd (cc (o, v'))
      | inr old ↦ n.2 a old v
    ],
  )

module _ (h : Headers) (q : Query) where
  -- Its sender is accepted.
  abbrev pub IsFromAccepted : IndexedCode → Type 0
  IsFromAccepted e =
      (sender_matches_filter h e.from_header q.sender_filter ≡ true)
      × (sender_matches_policy h e.from_header q.sender_policy ≡ returned true)

  best_of-IsNewest :
      (best : Option IndexedCode) (es seen : List IndexedCode)
      → All IsFromAccepted es
      → IsNewest q seen best
      → (o : Option IndexedCode) × (best_of h q best es ≡ returned o) × IsNewest q (read es seen) o
  unfolding best_of is_accepted read
  best_of-IsNewest best [] seen a n = (best, refl, n)
  best_of-IsNewest best (e ∷ es) seen a n = elim (Bool-cases (in_window q e)) [
    | inl w ↦
        let (o, run, newest) =
          best_of-IsNewest (better best e) es (e ∷ seen) a.1 (better-IsNewest q e seen best w n) in
        (o, rw w (rw (a.0).0 (rw (a.0).1 run)), newest)
    | inr out ↦
        let (o, run, newest) =
          best_of-IsNewest best es (e ∷ seen) a.1 (out-IsNewest q e seen best out n) in
        (o, rw out run, newest)
  ]

a_not_older :
    (e : IndexedCode) (es : List IndexedCode)
    → 1 ≤ not_older e es
    → (f : IndexedCode) × In f es × (key_le e f ≡ true)
a_not_older e [] h = absurd (omega arith)
a_not_older e (f ∷ fs) h = elim (Bool-cases (key_le e f)) [
  | inl y ↦ (f, inl refl, y)
  | inr o ↦
      let h' : 1 ≤ 0 + not_older e fs = rw o at h in
      let (g, i, y) = a_not_older e fs (omega arith) in (g, inr i, y)
]

-- The window of a query begins here.
window_start : Query → ℕ
window_start q = q.now_ts - max 1 q.max_age_seconds * second

in_window-start :
    (q : Query) (e : IndexedCode) → in_window q e ≡ true → window_start q ≤ e.received_at
unfolding window_start
in_window-start q e w = ground arith

-- An entry that is not older, and not in the future, is in the window too.
in_window-not_older :
    (q : Query) (e f : IndexedCode)
    → in_window q e ≡ true
    → f.received_at ≤ q.now_ts + q.future_skew_seconds * second
    → e.received_at ≤ f.received_at
    → in_window q f ≡ true
in_window-not_older q e f w future later = ground arith

-- What a bucket says of the log.
module _ (q : Query) (log bucket : List IndexedCode) (k : Knows (window_start q) log bucket)
    (past : All (λ e. e.received_at ≤ q.now_ts + q.future_skew_seconds * second) log) where
  at_least :
      (e : IndexedCode)
      → In e log
      → in_window q e ≡ true
      → (f : IndexedCode) × In f bucket × (in_window q f ≡ true) × (key_le e f ≡ true)
  at_least e i w = elim (k.covers e (in_window-start q e w) i) [
    | inl held ↦ (e, held, w, key_le_refl e)
    | inr full ↦
        let (f, held, y) = a_not_older e bucket (omega arith) in
        let p =
          All-In (λ e. e.received_at ≤ q.now_ts + q.future_skew_seconds * second) log f past
            (k.sound f held) in
        (f, held, in_window-not_older q e f w p (key_le-received e f y), y)
  ]

  log-IsNewest : (o : Option IndexedCode) → IsNewest q (read bucket []) o → IsNewest q log o
  log-IsNewest none n = λ e i. elim (Bool-cases (in_window q e)) [
    | inl w ↦
        let (f, held, v, y) = at_least e i w in
        absurd (cc (n f (In-read f bucket [] (inl held)), v))
    | inr out ↦ out
  ]
  log-IsNewest (some b) n = (
    elim (read-In b bucket [] n.0) [ inl held ↦ k.sound b held | inr never ↦ elim never [ ] ],
    n.1,
    λ e i w.
        let (f, held, v, y) = at_least e i w in
        key_le_trans e f b y (n.2 f (In-read f bucket [] (inl held)) v),
  )

All-of-In :
    (P : IndexedCode → Type 0) (log : List IndexedCode) (es : List IndexedCode)
    → All P log
    → ((e : IndexedCode) → In e es → In e log)
    → All P es
All-of-In P log [] a sub = tt
All-of-In P log (e ∷ es) a sub =
    (All-In P log e a (sub e (inl refl)), All-of-In P log es a (λ f i. sub f (inr i)))

-- The index keeps five codes of an address and prunes them, and still a lookup answers as if every
-- message had been kept: it returns the newest one in its window, and none only if there is none. The
-- window must not reach back beyond the retention, the history up to the lookup must be that of a
-- mailbox whose uids name one message each, and the messages for the address must be from accepted
-- senders and not further in the future than the allowed skew.
pub latest-IsNewest :
    (h : Headers) (mail : (uid folder : String) → IndexedCode) (retention : ℕ) (email : String)
    (q : Query) (events : List Event)
    → str_eq (h.casefold (strip email)) "" ≡ false
    → max 1 q.max_age_seconds * second ≤ retention
    → All (IsUpTo mail q.now_ts) events
    → All (IsFromAccepted h q) (log_of (h.casefold (strip email)) events)
    → All
        (λ e. e.received_at ≤ q.now_ts + q.future_skew_seconds * second)
        (log_of (h.casefold (strip email)) events)
    → (o : Option IndexedCode) × (latest h email q (run retention events) ≡ returned o)
      × IsNewest q (log_of (h.casefold (strip email)) events) o
unfolding latest window_start read
latest-IsNewest h mail retention email q events some_text window up_to accepted past =
    let r = h.casefold (strip email) in
    let tracked =
      run-IsTracked mail (window_start q) retention r q.now_ts events (omega arith) up_to in
    let k = tracked.2 in
    let bucket = bucket_of r (run retention events) in
    let senders = All-of-In (IsFromAccepted h q) (log_of r events) bucket accepted k.sound in
    let (o, found, newest) = best_of-IsNewest h q none bucket [] senders (λ e i. elim i [ ]) in
    (o, rw some_text found, log-IsNewest q (log_of r events) bucket k past o newest)
