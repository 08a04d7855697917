-- ===== src/Service/Lookup/Kept.antt =====
-- What a lookup leaves alone: the index of the watcher.
use icloud_code_gateway.Base.{
  ℕ, String, ◌≡◌, refl, ◌∙◌, Option, none, some, Outcome, returned, raised,
}
use icloud_code_gateway.Errors.{Result}
use icloud_code_gateway.Security.{hash_access_key}
use icloud_code_gateway.Aliases.Rows.{AliasView}
use icloud_code_gateway.Mailbox.Config.{ImapConfig}
use icloud_code_gateway.Service.Lookup.Calls.{
  LookupFault, State, Environment, Lookup, continue, ◌>>=◌, audit_lookup, charge, imap_config,
  find_by_key, require_public_otp,
}
use icloud_code_gateway.Service.Lookup.Prepare.{
  ip_key_of, prepare_alias, prepare_configured, prepare_found, prepare_hashed, invalid_key_for,
  prepare_digest, prepare_malformed, prepare_lookup,
}

module _ {W : Type 0} where
  abbrev pub Keeps : {A : Type 0} → Lookup W A → Type 0
  Keeps m = (s : State W) → (m s).1.thread ≡ s.thread

  continue-Keeps :
      {A B : Type 0} (o : Outcome LookupFault A) (f : A → Lookup W B) (s : State W)
      → ((a : A) → Keeps (f a))
      → (continue o f s).1.thread ≡ s.thread
  continue-Keeps (returned a) f s kept = kept a s
  continue-Keeps (raised e) f s kept = refl

  bind-Keeps :
      {A B : Type 0} (m : Lookup W A) (f : A → Lookup W B)
      → Keeps m
      → ((a : A) → Keeps (f a))
      → Keeps (m >>= f)
  unfolding ◌>>=◌
  bind-Keeps m f first rest s = continue-Keeps (m s).0 f (m s).1 rest ∙ first s

module _ {W : Type 0} (env : Environment W) where
  invalid_key_for-Keeps : (ip_key : String) → Keeps (invalid_key_for env ip_key)
  unfolding invalid_key_for ◌>>=◌ audit_lookup
  invalid_key_for-Keeps ip_key s = refl

  prepare_configured-Keeps :
      (ip_key : String) (a : AliasView) (config : Option ImapConfig)
      → Keeps (prepare_configured env ip_key a config)
  unfolding ◌>>=◌ audit_lookup
  prepare_configured-Keeps ip_key a none s = refl
  prepare_configured-Keeps ip_key a (some _) s = refl

  prepare_found-Keeps :
      (ip_key : String) (found : Option AliasView) → Keeps (prepare_found env ip_key found)
  unfolding prepare_alias imap_config
  prepare_found-Keeps ip_key none = invalid_key_for-Keeps ip_key
  prepare_found-Keeps ip_key (some a) =
      bind-Keeps (imap_config env) _ (λ s. refl) (prepare_configured-Keeps ip_key a)

  charge-Keeps :
      (bucket key : String) (limit window : ℕ) → Keeps (charge env bucket key limit window)
  unfolding charge
  charge-Keeps bucket key limit window s = refl

  prepare_hashed-Keeps :
      (ip_key : String) (digest : Result String) → Keeps (prepare_hashed env ip_key digest)
  unfolding prepare_malformed prepare_digest find_by_key
  prepare_hashed-Keeps ip_key (raised e) =
      bind-Keeps (charge env "invalid-key-ip" ip_key 10 300) _
        (charge-Keeps "invalid-key-ip" ip_key 10 300) (λ _. invalid_key_for-Keeps ip_key)
  prepare_hashed-Keeps ip_key (returned digest) =
      bind-Keeps (charge env "code-key" digest 12 60) _ (charge-Keeps "code-key" digest 12 60)
        (λ _. bind-Keeps (find_by_key env digest) _ (λ s. refl) (prepare_found-Keeps ip_key))

  pub prepare_lookup-Keeps :
      (access_key client_ip : String) → Keeps (prepare_lookup env access_key client_ip)
  unfolding prepare_lookup require_public_otp
  prepare_lookup-Keeps access_key client_ip =
      let ip_key = ip_key_of env client_ip in
      bind-Keeps (require_public_otp env) _ (λ s. refl)
        (λ _.
          bind-Keeps (charge env "code-ip" ip_key 30 60) _ (charge-Keeps "code-ip" ip_key 30 60)
            (λ _. prepare_hashed-Keeps ip_key (hash_access_key env.sha256 access_key)))
