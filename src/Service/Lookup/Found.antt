-- ===== src/Service/Lookup/Found.antt =====
-- Whose code a lookup gives away.
use icloud_code_gateway.Base.{
  sym, ap, ◌∙◌, String, ◌≡◌, refl, Option, none, some, Outcome, returned, raised,
}
use icloud_code_gateway.Errors.{Result}
use icloud_code_gateway.Security.{hash_access_key}
use icloud_code_gateway.Aliases.Rows.{AliasView}
use icloud_code_gateway.Aliases.Table.{Aliases, find_alias_by_access_key_hash}
use icloud_code_gateway.Mailbox.Config.{ImapConfig}
use icloud_code_gateway.Service.Lookup.Calls.{
  LookupFault, PreparedLookup, State, Environment, Lookup, continue, ◌>>=◌, lifted, audit_lookup,
  charge, imap_config, find_by_key, require_public_otp,
}
use icloud_code_gateway.Service.Lookup.Prepare.{
  prepared, prepare_configured, prepare_found, prepare_hashed, prepare_alias, invalid_key_for,
  ip_key_of, prepare_digest, prepare_malformed, prepare_lookup,
}

pub continue-returned :
    {W A B : Type 0} (o : Outcome LookupFault A) (f : A → Lookup W B) (s : State W) {b : B}
    → (continue o f s).0 ≡ returned b
    → (a : A) × (o ≡ returned a) × ((f a s).0 ≡ returned b)
continue-returned (returned a) f s h = (a, refl, h)
continue-returned (raised e) f s h = absurd (cc h)

pub lifted-returned : {A : Type 0} (o : Result A) {a : A} → lifted o ≡ returned a → o ≡ returned a
lifted-returned (returned a) h = cc h
lifted-returned (raised e) h = absurd (cc h)

module _ {W : Type 0} (env : Environment W) where
  -- The lookup is for the alias that answers to the key.
  abbrev pub IsFor : String → Aliases → PreparedLookup → Type 0
  IsFor access_key rows p =
      (digest : String) × (hash_access_key env.sha256 access_key ≡ returned digest)
      × (a : AliasView) × (find_alias_by_access_key_hash digest rows ≡ returned (some a))
      × (p.alias_id ≡ a.id)
      × (p.email ≡ a.email)
      × (p.sender_filter ≡ a.sender_filter)

  pub invalid_key_for-returned :
      (ip_key : String) (s : State W) {p : PreparedLookup}
      → (invalid_key_for env ip_key s).0 ≡ returned (some p)
      → ⊥
  unfolding invalid_key_for ◌>>=◌ audit_lookup
  invalid_key_for-returned ip_key s h = cc h

  prepare_configured-returned :
      (ip_key : String) (a : AliasView) (config : Option ImapConfig) (s : State W)
      {p : PreparedLookup}
      → (prepare_configured env ip_key a config s).0 ≡ returned (some p)
      → prepared env ip_key a ≡ p
  unfolding ◌>>=◌ audit_lookup
  prepare_configured-returned ip_key a none s h = absurd (cc h)
  prepare_configured-returned ip_key a (some c) s h = cc h

  pub prepare_alias-returned :
      (ip_key : String) (a : AliasView) (s : State W) {p : PreparedLookup}
      → (prepare_alias env ip_key a s).0 ≡ returned (some p)
      → prepared env ip_key a ≡ p
  unfolding prepare_alias ◌>>=◌
  prepare_alias-returned ip_key a s h =
      let got = imap_config env s in
      let (config, _, rest) = continue-returned got.0 (prepare_configured env ip_key a) got.1 h in
      prepare_configured-returned ip_key a config got.1 rest

  prepare_found-returned :
      (ip_key : String) (found : Option AliasView) (s : State W) {p : PreparedLookup}
      → (prepare_found env ip_key found s).0 ≡ returned (some p)
      → (a : AliasView) × (found ≡ some a) × (prepared env ip_key a ≡ p)
  prepare_found-returned ip_key none s h = absurd (invalid_key_for-returned ip_key s h)
  prepare_found-returned ip_key (some a) s h = (a, refl, prepare_alias-returned ip_key a s h)

  prepare_digest-returned :
      (ip_key digest : String) (s : State W) {p : PreparedLookup}
      → (prepare_digest env ip_key digest s).0 ≡ returned (some p)
      → (a : AliasView) × (find_alias_by_access_key_hash digest s.aliases ≡ returned (some a))
        × (prepared env ip_key a ≡ p)
  unfolding prepare_digest ◌>>=◌ charge find_by_key
  prepare_digest-returned ip_key digest s h =
      let charged = charge env "code-key" digest 12 60 s in
      let (_, _, rest) =
        continue-returned charged.0 (λ _. find_by_key env digest >>= prepare_found env ip_key)
          charged.1 h in
      let (found, found-is, end) =
        continue-returned (find_by_key env digest charged.1).0 (prepare_found env ip_key) charged.1
          rest in
      let (a, a-is, p-is) = prepare_found-returned ip_key found charged.1 end in
      (a, lifted-returned _ found-is ∙ ap (λ x. returned x) a-is, p-is)

  prepare_hashed-IsFor :
      (ip_key access_key : String) (digest : Result String) (s : State W) {p : PreparedLookup}
      → hash_access_key env.sha256 access_key ≡ digest
      → (prepare_hashed env ip_key digest s).0 ≡ returned (some p)
      → IsFor access_key s.aliases p
  unfolding prepare_malformed ◌>>=◌ charge
  prepare_hashed-IsFor ip_key access_key (raised e) s hashed h =
      let charged = charge env "invalid-key-ip" ip_key 10 300 s in
      let (_, _, rest) =
        continue-returned charged.0 (λ _. invalid_key_for env ip_key) charged.1 h in
      absurd (invalid_key_for-returned ip_key charged.1 rest)
  prepare_hashed-IsFor ip_key access_key (returned digest) s hashed h =
      let (a, a-is, p-is) = prepare_digest-returned ip_key digest s h in
      (
        digest,
        hashed,
        a,
        a-is,
        ap (λ q. q.alias_id) (sym p-is),
        ap (λ q. q.email) (sym p-is),
        ap (λ q. q.sender_filter) (sym p-is),
      )

  pub prepare_lookup-IsFor :
      (access_key client_ip : String) (s : State W) {p : PreparedLookup}
      → (prepare_lookup env access_key client_ip s).0 ≡ returned (some p)
      → IsFor access_key s.aliases p
  unfolding prepare_lookup ◌>>=◌ charge require_public_otp
  prepare_lookup-IsFor access_key client_ip s h =
      let ip_key = ip_key_of env client_ip in
      let hashed = hash_access_key env.sha256 access_key in
      let (_, _, rest) =
        continue-returned (require_public_otp env s).0
          (λ _. charge env "code-ip" ip_key 30 60 >>= λ _. prepare_hashed env ip_key hashed) s h in
      let charged = charge env "code-ip" ip_key 30 60 s in
      let (_, _, end) =
        continue-returned charged.0 (λ _. prepare_hashed env ip_key hashed) charged.1 rest in
      prepare_hashed-IsFor ip_key access_key hashed charged.1 refl end
