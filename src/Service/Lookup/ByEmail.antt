-- ===== src/Service/Lookup/ByEmail.antt =====
-- Whose mailbox a lookup by email opens.
use icloud_code_gateway.Base.{
  String, str_eq, ◌≡◌, refl, sym, ap, ◌∙◌, ◌⊎◌, inl, inr, Bool, true, false, Option, none, some,
  if◌then◌else◌, returned,
}
use icloud_code_gateway.Columns.{clean_candidate}
use icloud_code_gateway.Aliases.Rows.{AliasView}
use icloud_code_gateway.Aliases.Table.{Aliases}
use icloud_code_gateway.Service.Lookup.Calls.{
  PreparedLookup, State, Environment, pure, ◌>>=◌, charge, require_public_otp,
}
use icloud_code_gateway.Service.Lookup.Prepare.{
  prepared, ip_key_of, prepare_alias, invalid_key_for, find_alias_by_email, find_by_email,
  is_active_view, prepare_active, prepare_with_password, prepare_lookup, bind_to,
  is_mailbox_password, prepare_lookup_for_email,
}
use icloud_code_gateway.Service.Lookup.Found.{
  continue-returned, lifted-returned, IsFor, invalid_key_for-returned, prepare_alias-returned,
  prepare_lookup-IsFor,
}

module _ {W : Type 0} (env : Environment W) where
  -- The lookup is for the active alias with this email.
  abbrev pub IsOfActive : String → Aliases → PreparedLookup → Type 0
  IsOfActive email rows p =
      (a : AliasView) × (find_alias_by_email env email rows ≡ returned (some a))
      × (is_active_view env a ≡ true)
      × (p.alias_id ≡ a.id)
      × (p.email ≡ a.email)
      × (p.sender_filter ≡ a.sender_filter)

  prepare_active-returned :
      (ip_key : String) (found : Option AliasView) (s : State W) {p : PreparedLookup}
      → (prepare_active env ip_key found s).0 ≡ returned (some p)
      → (a : AliasView) × (found ≡ some a)
        × (is_active_view env a ≡ true)
        × (prepared env ip_key a ≡ p)
  prepare_active-returned ip_key none s h = absurd (invalid_key_for-returned env ip_key s h)
  prepare_active-returned ip_key (some a) s {p} h = by_state (is_active_view env a) refl h
    where
      by_state :
          (b : Bool)
          → is_active_view env a ≡ b
          → ((if b then prepare_alias env ip_key a else invalid_key_for env ip_key) s).0
            ≡ returned (some p)
          → (c : AliasView) × (some a ≡ some c)
            × (is_active_view env c ≡ true)
            × (prepared env ip_key c ≡ p)
      by_state true e h = (a, refl, e, prepare_alias-returned env ip_key a s h)
      by_state false e h = absurd (invalid_key_for-returned env ip_key s h)

  prepare_with_password-IsOfActive :
      (email client_ip : String) (s : State W) {p : PreparedLookup}
      → (prepare_with_password env email client_ip s).0 ≡ returned (some p)
      → IsOfActive email s.aliases p
  unfolding prepare_with_password ◌>>=◌ charge require_public_otp find_by_email
  prepare_with_password-IsOfActive email client_ip s h =
      let ip_key = ip_key_of env client_ip in
      let (_, _, rest) =
        continue-returned (require_public_otp env s).0
          (λ _. charge env "code-ip" ip_key 30 60 >>= λ _.
            find_by_email env email >>= prepare_active env ip_key)
          s h in
      let charged = charge env "code-ip" ip_key 30 60 s in
      let (_, _, last) =
        continue-returned charged.0 (λ _. find_by_email env email >>= prepare_active env ip_key)
          charged.1 rest in
      let (found, found-is, end) =
        continue-returned (find_by_email env email charged.1).0 (prepare_active env ip_key)
          charged.1 last in
      let (a, a-is, is_active, p-is) = prepare_active-returned ip_key found charged.1 end in
      (
        a,
        lifted-returned _ found-is ∙ ap (λ x. returned x) a-is,
        is_active,
        ap (λ q. q.alias_id) (sym p-is),
        ap (λ q. q.email) (sym p-is),
        ap (λ q. q.sender_filter) (sym p-is),
      )

  bind_to-returned :
      (email : String) (found : Option PreparedLookup) (s : State W) {p : PreparedLookup}
      → (bind_to env email found s).0 ≡ returned (some p)
      → (found ≡ some p) × (str_eq (clean_candidate env.headers.casefold email) p.email ≡ true)
  bind_to-returned email none s h = absurd (cc h)
  bind_to-returned email (some q) s {p} h =
      by_email (str_eq (clean_candidate env.headers.casefold email) q.email) refl h
    where
      by_email :
          (b : Bool)
          → str_eq (clean_candidate env.headers.casefold email) q.email ≡ b
          → ((if b then pure (some q) else invalid_key_for env q.client_ip) s).0 ≡ returned (some p)
          → (some q ≡ some p) × (str_eq (clean_candidate env.headers.casefold email) p.email ≡ true)
      by_email true e h = let same : q ≡ p = cc h in (ap (λ x. some x) same, rw same at e)
      by_email false e h = absurd (invalid_key_for-returned env q.client_ip s h)

  -- A lookup by email is prepared in two cases only. Either the mailbox password is configured and was
  -- given, and the lookup is for the active alias with that email; or the access key is that of a row of
  -- the alias table, and the email that was asked for is the email of that row.
  pub prepare_lookup_for_email-IsBound :
      (email access_key client_ip : String) (s : State W) {p : PreparedLookup}
      → (prepare_lookup_for_email env email access_key client_ip s).0 ≡ returned (some p)
      → ((is_mailbox_password env access_key ≡ true) × IsOfActive email s.aliases p)
        ⊎ (IsFor env access_key s.aliases p
            × (str_eq (clean_candidate env.headers.casefold email) p.email ≡ true))
  unfolding prepare_lookup_for_email ◌>>=◌
  prepare_lookup_for_email-IsBound email access_key client_ip s {p} h =
      by_password (is_mailbox_password env access_key) refl h
    where
      by_password :
          (b : Bool)
          → is_mailbox_password env access_key ≡ b
          → ((if b
                then prepare_with_password env email client_ip
                else prepare_lookup env access_key client_ip >>= bind_to env email)
              s).0
            ≡ returned (some p)
          → ((is_mailbox_password env access_key ≡ true) × IsOfActive email s.aliases p)
            ⊎ (IsFor env access_key s.aliases p
                × (str_eq (clean_candidate env.headers.casefold email) p.email ≡ true))
      by_password true e h = inl (e, prepare_with_password-IsOfActive email client_ip s h)
      by_password false e h =
          let got = prepare_lookup env access_key client_ip s in
          let (found, found-is, rest) = continue-returned got.0 (bind_to env email) got.1 h in
          let (p-is, same) = bind_to-returned email found got.1 rest in
          inr (
            prepare_lookup-IsFor env access_key client_ip s (found-is ∙ ap (λ x. returned x) p-is),
            same,
          )
