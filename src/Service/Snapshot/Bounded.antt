-- ===== src/Service/Snapshot/Bounded.antt =====
-- How many aliases a reconciliation can take for deleted at Apple.
use icloud_code_gateway.Base.{
  ℕ, ◌-◌, ◌≤◌, String, ◌≡◌, ◌⊎◌, inl, inr, refl, List, [], ◌∷◌, map, length, count_if, All, ltb,
  arith, Ensures, Ensures->>=, Ensures-returned, Bool-cases, returned, raised,
}
use icloud_code_gateway.Errors.{Result}
use icloud_code_gateway.Columns.{normalize_email}
use icloud_code_gateway.Aliases.Table.{Aliases}
use icloud_code_gateway.Aliases.Sync.{
  sync_remote_alias, digests_of, is_unseen, deactivate_unseen, finish_remote_sync,
  count_remote_aliases,
}
use icloud_code_gateway.Aliases.Sync.Seen.{Has, IsSeen, sync-IsSeen, AreDistinct, unseen-le}
use icloud_code_gateway.Service.Snapshot.{
  Tables, Turn, email_of, then_sync, sync_all, shrink_limit, finish_or_refuse, then_finish,
  reconcile_remote_aliases,
}

module _ (casefold digest : String → String) (synced_at : ℕ) where
  abbrev emails : List Turn → List String
  emails xs = map (λ x. email_of casefold x.listed) xs

  -- The emails of the entries are in the table after the loop.
  record IsSynced (xs : List Turn) (before after : Aliases) : Type 0 where
    pub digests : List String
    pub read : digests_of casefold digest (emails xs) ≡ returned digests
    pub held : All (λ d. Has d after) digests
    pub kept : (d : String) → Has d before → Has d after

  IsSynced-cons :
      (x : Turn) (xs : List Turn) (before mid after : Aliases)
      → IsSeen casefold digest (email_of casefold x.listed) before mid
      → IsSynced xs mid after
      → IsSynced (x ∷ xs) before after
  unfolding digests_of
  IsSynced-cons x xs before mid after (address, clean, has, kept) s = record {
    digests = digest address ∷ s.digests;
    read = rw clean (rw s.read);
    held = (s.kept (digest address) has, s.held);
    kept = λ d h. s.kept d (kept d h);
  }

  sync_all-IsSynced :
      (xs : List Turn) (t : Tables)
      → (sync_all casefold digest synced_at xs t).0 ≡ returned tt
      → IsSynced xs t.aliases (sync_all casefold digest synced_at xs t).1.aliases
  unfolding sync_all digests_of
  sync_all-IsSynced [] t = λ r. record { digests = []; read = refl; held = tt; kept = λ d h. h }
  sync_all-IsSynced (x ∷ xs) t =
      after_one
        (sync_remote_alias casefold digest x.fresh_id x.now synced_at (email_of casefold x.listed)
          x.listed t.aliases)
        (sync-IsSeen casefold digest x.fresh_id x.now synced_at (email_of casefold x.listed)
          x.listed t.aliases)
        (λ u. sync_all-IsSynced xs u)
    where
      after_one :
          (one : Result Aliases)
          → Ensures (IsSeen casefold digest (email_of casefold x.listed) t.aliases) one
          → ((u : Tables)
              → (sync_all casefold digest synced_at xs u).0 ≡ returned tt
              → IsSynced xs u.aliases (sync_all casefold digest synced_at xs u).1.aliases)
          → (then_sync casefold one t (λ u. sync_all casefold digest synced_at xs u)).0
            ≡ returned tt
          → IsSynced
              (x ∷ xs)
              t.aliases
              (then_sync casefold one t (λ u. sync_all casefold digest synced_at xs u)).1.aliases
      after_one (raised e) s rest r = absurd (cc r)
      after_one (returned rows) s rest r =
          IsSynced-cons x xs t.aliases rows _ s (rest (record t { aliases = rows }) r)

  digests_of-length :
      (seen : List String)
      → Ensures (λ ds. length ds ≡ length seen) (digests_of casefold digest seen)
  unfolding digests_of
  digests_of-length [] = refl
  digests_of-length (s ∷ ss) =
      Ensures->>= (λ ds. length ds ≡ length (s ∷ ss)) (normalize_email casefold s) _
        λ address _.
          Ensures->>= (λ ds. length ds ≡ length (s ∷ ss)) (digests_of casefold digest ss) _
            λ ds e.
              let same =
                Ensures-returned (λ ds. length ds ≡ length ss) (digests_of casefold digest ss) ds
                  (digests_of-length ss) e in
              omega arith

  -- What a reconciliation does with the aliases that it has not seen.
  abbrev pub IsBounded : List String → ℕ → (mid after : Aliases) → Type 0
  IsBounded ds now mid after =
      (after ≡ mid)
      ⊎ ((after ≡ deactivate_unseen now synced_at ds mid)
          × (count_if (is_unseen ds) mid ≤ shrink_limit (count_remote_aliases mid)))

  finish-IsBounded :
      (seen ds : List String) (now : ℕ) (t : Tables)
      → digests_of casefold digest seen ≡ returned ds
      → AreDistinct ds
      → All (λ d. Has d t.aliases) ds
      → IsBounded ds now t.aliases (finish_or_refuse casefold digest synced_at seen now t).1.aliases
  unfolding finish_or_refuse finish_remote_sync
  finish-IsBounded seen ds now t e a h =
      let known = count_remote_aliases t.aliases in
      elim (Bool-cases (ltb (shrink_limit known) (known - length seen))) [
        | inl refused ↦ rw refused (inl refl)
        | inr believed ↦
            let same =
              Ensures-returned (λ ds. length ds ≡ length seen) (digests_of casefold digest seen) ds
                (digests_of-length seen) e in
            let few = unseen-le ds t.aliases a h in rw believed (rw e (inr (refl, ground arith)))
      ]

  then_finish-IsBounded :
      (seen ds : List String) (now : ℕ) (done : Result (Unit {0}) × Tables)
      → done.0 ≡ returned tt
      → digests_of casefold digest seen ≡ returned ds
      → AreDistinct ds
      → All (λ d. Has d done.1.aliases) ds
      → IsBounded ds now done.1.aliases
          (then_finish casefold digest synced_at seen now done).1.aliases
  then_finish-IsBounded seen ds now (raised e, t) ended = absurd (cc ended)
  then_finish-IsBounded seen ds now (returned _, t) ended = finish-IsBounded seen ds now t

  -- A list that Apple gives too short does not close the door on the operator's aliases. When the loop
  -- over the entries has ended well, and the emails have different digests, then either nothing more
  -- happens to the table, or exactly the remote aliases that are not in the list become inactive without
  -- a key, and these are at most a tenth of all remote aliases, or five.
  pub reconcile-IsBounded :
      (xs : List Turn) (now : ℕ) (t : Tables) (ds : List String)
      → (sync_all casefold digest synced_at xs t).0 ≡ returned tt
      → digests_of casefold digest (map (λ x. email_of casefold x.listed) xs) ≡ returned ds
      → AreDistinct ds
      → IsBounded ds now
          (sync_all casefold digest synced_at xs t).1.aliases
          (reconcile_remote_aliases casefold digest synced_at xs now t).1.aliases
  unfolding reconcile_remote_aliases
  reconcile-IsBounded xs now t ds ended read a =
      let synced = sync_all-IsSynced xs t ended in
      let same : synced.digests ≡ ds = cc (synced.read, read) in
      then_finish-IsBounded (map (λ x. email_of casefold x.listed) xs) ds now
        (sync_all casefold digest synced_at xs t) ended read a (rw same at synced.held)
