-- ===== src/Service/Lookup/Answers.antt =====
-- Where the code that a lookup answers with comes from.
use icloud_code_gateway.Base.{
  ℕ, String, ◌≡◌, refl, ap, ◌∙◌, ◌⊎◌, inl, inr, Bool, true, false, Option, none, some, Outcome,
  returned, raised,
}
use mathlib.Core.Path.{subst}
use icloud_code_gateway.Mailbox.Index.{IndexedCode, Index, latest}
use icloud_code_gateway.Mailbox.Config.{ImapConfig}
use icloud_code_gateway.Service.Lookup.Calls.{
  ScanFault, imap_credentials_error, imap_error, other, PreparedLookup, Status, CodeLookupResult,
  OtpResult, State, Environment, pure, ◌>>=◌, ask, audit_lookup, imap_config,
}
use icloud_code_gateway.Service.Lookup.{
  found_result, without_code, watcher_ready, query_of, latest_indexed, found_indexed,
  read_indexed_code, note_lookup_exhausted, after_scan, scan, scan_in_slot, scan_with,
  read_if_ready, give_up_or_scan, read_scanned_code, after_index, lookup_prepared, lookup_or_refuse,
  lookup_code,
}
use icloud_code_gateway.Service.Lookup.Prepare.{prepare_lookup}
use icloud_code_gateway.Service.Lookup.Found.{
  continue-returned, lifted-returned, IsFor, prepare_lookup-IsFor,
}
use icloud_code_gateway.Service.Lookup.Kept.{prepare_lookup-Keeps}

module _ {W : Type 0} (env : Environment W) where
  -- The newest code of the index for this address and its sender filter, at some time.
  abbrev pub IsIndexed : Index → PreparedLookup → CodeLookupResult → Type 0
  IsIndexed index p r =
      (now : ℕ) × (e : IndexedCode) × (latest env.headers p.email (query_of env now p) index
        ≡ returned (some e))
      × (r ≡ found_result env e.code e.received_at)

  -- What a scan of the mailbox for this address and its sender filter finds, at some time.
  abbrev pub IsScanned : PreparedLookup → CodeLookupResult → Type 0
  IsScanned p r =
      (config : ImapConfig) × (now : ℕ) × (w : W) × (o : OtpResult) × ((env.find_latest_code config
          p.email p.sender_filter now w).0
        ≡ returned (some o))
      × (r ≡ found_result env o.code o.received_at)

  not_found :
      (status : Status) (retry_after : Option ℕ) (s : State W) {r : CodeLookupResult}
      → (pure {W = W} (without_code env status retry_after) s).0 ≡ returned r
      → r.status ≡ Status.found
      → (status ≡ Status.found → ⊥)
      → ⊥
  not_found status retry_after s e is differs =
      let status-is : status ≡ Status.found = cc in differs status-is

  after_scan-found :
      (p : PreparedLookup) (o : Outcome ScanFault (Option OtpResult)) (s : State W)
      {r : CodeLookupResult}
      → (after_scan env p o s).0 ≡ returned r
      → r.status ≡ Status.found
      → (c : OtpResult) × (o ≡ returned (some c)) × (r ≡ found_result env c.code c.received_at)
  unfolding ◌>>=◌ audit_lookup note_lookup_exhausted
  after_scan-found p (raised imap_credentials_error) s h is = absurd (cc h)
  after_scan-found p (raised imap_error) s h is = absurd (cc h)
  after_scan-found p (raised (other e)) s h is = absurd (cc h)
  after_scan-found p (returned none) s h is =
      absurd (not_found Status.waiting (some 5) s h is (λ e. absurd (cc e)))
  after_scan-found p (returned (some c)) s h is = (c, refl, cc h)

  scan_in_slot-found :
      (p : PreparedLookup) (config : ImapConfig) (free : Bool) (s : State W) {r : CodeLookupResult}
      → (scan_in_slot env p config free s).0 ≡ returned r
      → r.status ≡ Status.found
      → IsScanned p r
  unfolding scan
  scan_in_slot-found p config false s h is = absurd (cc h)
  scan_in_slot-found p config true s h is =
      let now = env.clock s.world in
      let got = env.find_latest_code config p.email p.sender_filter now.0 now.1 in
      let (o, got-is, r-is) =
        after_scan-found p got.0 (record s { world = env.release_slot got.1 }) h is in
      (config, now.0, now.1, o, got-is, r-is)

  scan_with-found :
      (p : PreparedLookup) (config : Option ImapConfig) (s : State W) {r : CodeLookupResult}
      → (scan_with env p config s).0 ≡ returned r
      → r.status ≡ Status.found
      → IsScanned p r
  unfolding ◌>>=◌ audit_lookup ask
  scan_with-found p none s h is = absurd (cc h)
  scan_with-found p (some config) s h is =
      let free = ask env env.acquire_slot s in
      scan_in_slot-found p config (env.acquire_slot s.world).0 free.1 h is

  read_scanned_code-found :
      (p : PreparedLookup) (s : State W) {r : CodeLookupResult}
      → (read_scanned_code env p s).0 ≡ returned r
      → r.status ≡ Status.found
      → IsScanned p r
  unfolding read_scanned_code ◌>>=◌
  read_scanned_code-found p s h is =
      let got = imap_config env s in
      let (config, _, rest) = continue-returned got.0 (scan_with env p) got.1 h in
      scan_with-found p config got.1 rest is

  found_indexed-returned :
      (p : PreparedLookup) (found : Option IndexedCode) (s : State W) {r : CodeLookupResult}
      → (found_indexed env p found s).0 ≡ returned (some r)
      → (e : IndexedCode) × (found ≡ some e) × (r ≡ found_result env e.code e.received_at)
  unfolding ◌>>=◌ audit_lookup
  found_indexed-returned p none s h = absurd (cc h)
  found_indexed-returned p (some e) s h = (e, refl, cc h)

  read_if_ready-returned :
      (p : PreparedLookup) (warm : Bool) (s : State W) {r : CodeLookupResult}
      → (read_if_ready env p warm s).0 ≡ returned (some r)
      → IsIndexed s.thread.watcher.index p r
  unfolding ◌>>=◌ latest_indexed
  read_if_ready-returned p false s h = absurd (cc h)
  read_if_ready-returned p true s h =
      let got = latest_indexed env p s in
      let (found, found-is, rest) = continue-returned got.0 (found_indexed env p) got.1 h in
      let (e, e-is, r-is) = found_indexed-returned p found got.1 rest in
      ((env.clock s.world).0, e, lifted-returned _ found-is ∙ ap (λ x. returned x) e-is, r-is)

  read_indexed_code-returned :
      (p : PreparedLookup) (s : State W) {r : CodeLookupResult}
      → (read_indexed_code env p s).0 ≡ returned (some r)
      → IsIndexed s.thread.watcher.index p r
  unfolding read_indexed_code ◌>>=◌ watcher_ready ask
  read_indexed_code-returned p s h =
      let warm = watcher_ready env s in
      let (b, _, rest) = continue-returned warm.0 (read_if_ready env p) warm.1 h in
      read_if_ready-returned p b warm.1 rest

  give_up_or_scan-found :
      (p : PreparedLookup) (warm : Bool) (s : State W) {r : CodeLookupResult}
      → (give_up_or_scan env p warm s).0 ≡ returned r
      → r.status ≡ Status.found
      → IsScanned p r
  unfolding ◌>>=◌ audit_lookup note_lookup_exhausted
  give_up_or_scan-found p false s h is = read_scanned_code-found p s h is
  give_up_or_scan-found p true s h is =
      absurd (not_found Status.waiting (some 5) s h is (λ e. absurd (cc e)))

  after_index-found :
      (p : PreparedLookup) (indexed : Option CodeLookupResult) (s : State W) {r : CodeLookupResult}
      → (after_index env p indexed s).0 ≡ returned r
      → r.status ≡ Status.found
      → (indexed ≡ some r) ⊎ IsScanned p r
  unfolding ◌>>=◌
  after_index-found p (some q) s h is = inl (cc h)
  after_index-found p none s h is =
      let warm = watcher_ready env s in
      let (b, _, rest) = continue-returned warm.0 (give_up_or_scan env p) warm.1 h in
      inr (give_up_or_scan-found p b warm.1 rest is)

  lookup_prepared-found :
      (p : PreparedLookup) (s : State W) {r : CodeLookupResult}
      → (lookup_prepared env p s).0 ≡ returned r
      → r.status ≡ Status.found
      → IsIndexed s.thread.watcher.index p r ⊎ IsScanned p r
  unfolding lookup_prepared ◌>>=◌
  lookup_prepared-found p s h is =
      let got = read_indexed_code env p s in
      let (indexed, got-is, rest) = continue-returned got.0 (after_index env p) got.1 h in
      elim (after_index-found p indexed got.1 rest is) [
        | inl e ↦ inl (read_indexed_code-returned p s (got-is ∙ ap (λ x. returned x) e))
        | inr scanned ↦ inr scanned
      ]

  lookup_or_refuse-found :
      (prepared : Option PreparedLookup) (s : State W) {r : CodeLookupResult}
      → (lookup_or_refuse env prepared s).0 ≡ returned r
      → r.status ≡ Status.found
      → (p : PreparedLookup) × (prepared ≡ some p)
        × (IsIndexed s.thread.watcher.index p r ⊎ IsScanned p r)
  lookup_or_refuse-found none s h is =
      absurd (not_found Status.invalid_key none s h is (λ e. absurd (cc e)))
  lookup_or_refuse-found (some p) s h is = (p, refl, lookup_prepared-found p s h is)

  -- When a lookup answers with a code, the access key is that of a row of the alias table, and the code is
  -- either the newest of the watcher's index for the address and the sender filter of that alias at some
  -- time, or what the scan of the mailbox for that address and that filter has found.
  pub lookup_code-found :
      (access_key client_ip : String) (s : State W) {r : CodeLookupResult}
      → (lookup_code env access_key client_ip s).0 ≡ returned r
      → r.status ≡ Status.found
      → (p : PreparedLookup) × IsFor env access_key s.aliases p
        × (IsIndexed s.thread.watcher.index p r ⊎ IsScanned p r)
  unfolding lookup_code ◌>>=◌
  lookup_code-found access_key client_ip s {r} h is =
      let got = prepare_lookup env access_key client_ip s in
      let (prepared, got-is, rest) = continue-returned got.0 (lookup_or_refuse env) got.1 h in
      let (p, p-is, answer) = lookup_or_refuse-found prepared got.1 rest is in
      let same : got.1.thread ≡ s.thread = prepare_lookup-Keeps env access_key client_ip s in
      (
        p,
        prepare_lookup-IsFor env access_key client_ip s (got-is ∙ ap (λ x. returned x) p-is),
        subst (λ t. IsIndexed t.watcher.index p r ⊎ IsScanned p r) same answer,
      )
