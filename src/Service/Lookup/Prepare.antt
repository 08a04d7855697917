-- ===== src/Service/Lookup/Prepare.antt =====
-- Whose code a lookup asks for, in service.py: `prepare_lookup` and `prepare_lookup_for_email`.
use icloud_code_gateway.Service.Lookup.Calls.{
  not_configured, PreparedLookup, Environment, Lookup, pure, raise, ◌>>=◌, ◌>>◌, lifted,
  audit_lookup, charge, imap_config, find_by_key, require_public_otp,
}
use icloud_code_gateway.Base.{
  String, Bool, true, false, not, ◌&&◌, Option, none, some, find, str_eq, strip, if◌then◌else◌,
  returned, raised,
}
use icloud_code_gateway.Errors.{Result}
use icloud_code_gateway.Columns.{normalize_email, clean_candidate}
use icloud_code_gateway.Security.{hash_access_key}
use icloud_code_gateway.Aliases.Rows.{active, inactive, AliasView, alias_from_row}
use icloud_code_gateway.Aliases.Table.{Aliases}
use icloud_code_gateway.Mailbox.Config.{ImapConfig}

module _ {W : Type 0} (env : Environment W) where
  abbrev pub prepared : String → AliasView → PreparedLookup
  prepared ip_key alias = record {
    alias_id = alias.id;
    email = alias.email;
    sender_filter = alias.sender_filter;
    client_ip = ip_key;
  }

  abbrev pub prepare_configured :
      String → AliasView → Option ImapConfig → Lookup W (Option PreparedLookup)
  prepare_configured ip_key alias none =
      audit_lookup env "not_configured" ip_key (some alias.id) >> raise not_configured
  prepare_configured ip_key alias (some _) = pure (some (prepared ip_key alias))

  -- What both ways of preparing do with the alias that they have found.
  unfoldable pub prepare_alias : String → AliasView → Lookup W (Option PreparedLookup)
  unfolding imap_config audit_lookup
  prepare_alias ip_key alias = imap_config env >>= prepare_configured ip_key alias

  unfoldable pub invalid_key_for : String → Lookup W (Option PreparedLookup)
  unfolding audit_lookup
  invalid_key_for ip_key = audit_lookup env "invalid_key" ip_key none >> pure none

  -- `str(client_ip or "unknown")`
  abbrev pub ip_key_of : String → String
  ip_key_of client_ip = if str_eq client_ip "" then "unknown" else client_ip

  abbrev pub prepare_found : String → Option AliasView → Lookup W (Option PreparedLookup)
  prepare_found ip_key none = invalid_key_for ip_key
  prepare_found ip_key (some a) = prepare_alias ip_key a

  -- A key that has the form of one.
  unfoldable pub prepare_digest : String → String → Lookup W (Option PreparedLookup)
  unfolding charge find_by_key prepare_alias invalid_key_for
  prepare_digest ip_key digest = do
    charge env "code-key" digest 12 60
    alias ← find_by_key env digest
    prepare_found ip_key alias

  -- A key that has not.
  unfoldable pub prepare_malformed : String → Lookup W (Option PreparedLookup)
  unfolding charge invalid_key_for
  prepare_malformed ip_key = charge env "invalid-key-ip" ip_key 10 300 >> invalid_key_for ip_key

  abbrev pub prepare_hashed : String → Result String → Lookup W (Option PreparedLookup)
  prepare_hashed ip_key (raised _) = prepare_malformed ip_key
  prepare_hashed ip_key (returned digest) = prepare_digest ip_key digest

  unfoldable pub prepare_lookup : (access_key client_ip : String) → Lookup W (Option PreparedLookup)
  unfolding require_public_otp charge prepare_digest prepare_malformed
  prepare_lookup access_key client_ip = do
    require_public_otp env
    let ip_key = ip_key_of client_ip
    charge env "code-ip" ip_key 30 60
    prepare_hashed ip_key (hash_access_key env.sha256 access_key)

  -- `find_alias_by_email`
  unfoldable pub find_alias_by_email : String → Aliases → Result (Option AliasView)
  find_alias_by_email email rows = elim (normalize_email env.headers.casefold email) [
    | raised e ↦ raised e
    | returned address ↦ elim (find (λ a. str_eq a.email_hash (env.digest address)) rows) [
      | none ↦ returned none
      | some a ↦ elim (alias_from_row a) [
        | raised e ↦ raised e
        | returned view ↦ returned (some view)
      ]
    ]
  ]

  unfoldable pub find_by_email : String → Lookup W (Option AliasView)
  find_by_email email s = (lifted (find_alias_by_email email s.aliases), s)

  abbrev pub is_active_view : AliasView → Bool
  is_active_view a = elim a.state [ active ↦ true | inactive ↦ false ]

  abbrev pub prepare_active : String → Option AliasView → Lookup W (Option PreparedLookup)
  prepare_active ip_key none = invalid_key_for ip_key
  prepare_active ip_key (some a) =
      if is_active_view a then prepare_alias ip_key a else invalid_key_for ip_key

  -- The mailbox password in place of a key.
  unfoldable pub prepare_with_password :
      (email client_ip : String) → Lookup W (Option PreparedLookup)
  unfolding require_public_otp charge find_by_email prepare_alias invalid_key_for
  prepare_with_password email client_ip = do
    require_public_otp env
    let ip_key = ip_key_of client_ip
    charge env "code-ip" ip_key 30 60
    alias ← find_by_email email
    prepare_active ip_key alias

  -- The key belongs to the mailbox that is asked for.
  abbrev pub bind_to : String → Option PreparedLookup → Lookup W (Option PreparedLookup)
  bind_to email none = pure none
  bind_to email (some p) =
      if str_eq (clean_candidate env.headers.casefold email) p.email
      then pure (some p)
      else invalid_key_for p.client_ip

  -- The mailbox password is set, and given; `secrets_equal` compares SHA-256 digests.
  unfoldable pub is_mailbox_password : String → Bool
  unfolding strip
  is_mailbox_password access_key =
      let shared = strip env.mailbox_api_password in
      not (str_eq shared "") && str_eq (env.sha256 shared) (env.sha256 access_key)

  -- `prepare_lookup_for_email`
  unfoldable pub prepare_lookup_for_email :
      (email access_key client_ip : String) → Lookup W (Option PreparedLookup)
  unfolding prepare_with_password prepare_lookup invalid_key_for clean_candidate is_mailbox_password
  prepare_lookup_for_email email access_key client_ip =
      if is_mailbox_password access_key
      then prepare_with_password email client_ip
      else prepare_lookup access_key client_ip >>= bind_to email
