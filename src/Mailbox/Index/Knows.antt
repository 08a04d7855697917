-- ===== src/Mailbox/Index/Knows.antt =====
-- What one bucket of the index knows of the messages that were offered to it.
use icloud_code_gateway.Base.{
  ℕ, ◌+◌, ◌≤◌, ◌≡◌, ◌⊎◌, inl, inr, refl, Bool, true, List, [], ◌∷◌, ◌++◌, any, take, length,
  Bool-cases, arith,
}
use icloud_code_gateway.Mailbox.Index.{
  IndexedCode, is_same, sort, add_to, keep_recent, max_codes_per_alias,
}
use icloud_code_gateway.Mailbox.Index.Order.{
  In, IsDescending, sort-IsDescending, take-IsDescending, keep_recent-IsDescending,
}
use icloud_code_gateway.Mailbox.Index.Kept.{
  not_older, In-sort, sort-In, In-append_left, In-append_last, append-In, In-take, take-In,
  not_older-sort, not_older-append, not_older-take, length-take-le, keep_recent-In, In-keep_recent,
  not_older-keep_recent, length-keep_recent-le,
}

-- What a bucket knows of a log of messages for its recipient, the newest offer first, if nothing that
-- was received at `since` or later has been pruned.
pub record Knows (since : ℕ) (log bucket : List IndexedCode) : Type 0 where
  pub descending : IsDescending bucket
  pub bounded : length bucket ≤ max_codes_per_alias
  pub sound : (e : IndexedCode) → In e bucket → In e log
  pub covers :
      (e : IndexedCode)
      → since ≤ e.received_at
      → In e log
      → In e bucket ⊎ (max_codes_per_alias ≤ not_older e bucket)

any-In :
    (p : IndexedCode → Bool) (es : List IndexedCode)
    → any p es ≡ true
    → (a : IndexedCode) × In a es × (p a ≡ true)
any-In p [] h = cc
any-In p (e ∷ es) h = elim (Bool-cases (p e)) [
  | inl hit ↦ (e, inl refl, hit)
  | inr miss ↦ let (a, i, hit) = any-In p es (rw miss at h) in (a, inr i, hit)
]

-- Sorting and cutting what a bucket holds, with one entry more, keeps what it knows.
module _ (since : ℕ) (log bucket : List IndexedCode) (x : IndexedCode)
    (k : Knows since log bucket) where
  cut : List IndexedCode
  cut = take max_codes_per_alias (sort (bucket ++ x ∷ []))

  cut_sound : (e : IndexedCode) → In e cut → In e (x ∷ log)
  unfolding cut
  cut_sound e i =
      elim (append-In e x bucket (
        sort-In e (bucket ++ x ∷ []) (take-In max_codes_per_alias e (sort (bucket ++ x ∷ [])) i))) [
          | inl new ↦ inl new
          | inr old ↦ inr (k.sound e old)
        ]

  cut_keeps :
      (e : IndexedCode)
      → In e (bucket ++ x ∷ []) ⊎ (max_codes_per_alias ≤ not_older e bucket)
      → In e cut ⊎ (max_codes_per_alias ≤ not_older e cut)
  unfolding cut
  cut_keeps e c =
      let sorted = sort-IsDescending (bucket ++ x ∷ []) in
      elim c [
        | inl i ↦ In-take max_codes_per_alias e _ sorted (In-sort e (bucket ++ x ∷ []) i)
        | inr full ↦
            let all = not_older-sort e (bucket ++ x ∷ []) in
            let more = not_older-append e bucket (x ∷ []) in
            inr (not_older-take max_codes_per_alias e _ sorted (omega arith))
      ]

  cut-Knows : Knows since (x ∷ log) cut
  unfolding cut
  cut-Knows = record {
    descending = take-IsDescending max_codes_per_alias _ (sort-IsDescending (bucket ++ x ∷ []));
    bounded = length-take-le max_codes_per_alias (sort (bucket ++ x ∷ []));
    sound = cut_sound;
    covers = λ e s i. cut_keeps e (elim i [
      | inl new ↦ inl (rw new (In-append_last x bucket))
      | inr rest ↦ elim (k.covers e s rest) [
        | inl held ↦ inl (In-append_left e bucket (x ∷ []) held)
        | inr full ↦ inr full
      ]
    ]);
  }

-- A message that is offered again is the one that the bucket holds.
pub add_to-Knows :
    (since : ℕ) (log bucket : List IndexedCode) (x : IndexedCode)
    → ((e : IndexedCode) → In e log → is_same e x ≡ true → e ≡ x)
    → Knows since log bucket
    → Knows since (x ∷ log) (add_to x bucket)
unfolding add_to cut
add_to-Knows since log bucket x names k = elim (Bool-cases (any (λ item. is_same item x) bucket)) [
  | inl old ↦
      let (y, held, same) = any-In (λ item. is_same item x) bucket old in
      let y_is_x = names y (k.sound y held) same in
      rw old (record {
        descending = k.descending;
        bounded = k.bounded;
        sound = λ e i. inr (k.sound e i);
        covers = λ e s i. elim i [
          | inl new ↦ inl (rw new (rw y_is_x at held))
          | inr rest ↦ k.covers e s rest
        ];
      })
  | inr new ↦ rw new (cut-Knows since log bucket x k)
]

pub keep_recent-Knows :
    (since : ℕ) (log bucket : List IndexedCode) (retention now : ℕ)
    → now ≤ since + retention
    → Knows since log bucket
    → Knows since log (keep_recent retention now bucket)
keep_recent-Knows since log bucket retention now h k = record {
  descending = keep_recent-IsDescending retention now bucket k.descending;
  bounded = omega (arith, length-keep_recent-le retention now bucket, k.bounded);
  sound = λ e i. k.sound e (keep_recent-In retention now e bucket i);
  covers = λ e s i. elim (k.covers e s i) [
    | inl held ↦ inl (In-keep_recent retention now e bucket (omega arith) held)
    | inr full ↦ inr (omega (arith, not_older-keep_recent retention now e bucket (omega arith)))
  ];
}
