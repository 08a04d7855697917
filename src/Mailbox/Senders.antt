-- ===== src/Mailbox/Senders.antt =====
-- Who sent a message: the filter of an alias and the policy of the public lookup (imap_otp.py).
-- `getaddresses` and the regular expressions for senders are parameters.
use Prim.Native.Char.{code}
use Prim.Native.String
use icloud_code_gateway.Base.{
  String, Bool, true, false, not, ◌&&◌, ◌||◌, List, none, some, any, map, ◌==◌, str_eq,
  if◌then◌else◌, strip, strip_prefix, any_char, or_else, returned, raised,
}
use icloud_code_gateway.Errors.{Result, value_error}

-- `str.endswith`
unfoldable pub ends_with : String → String → Bool
ends_with suffix String.[] = str_eq suffix ""
ends_with suffix (String.◌∷◌ c s) = str_eq suffix (String.◌∷◌ c s) || ends_with suffix s

-- `sender.rsplit("@", 1)[-1]`
unfoldable pub domain_of : String → String
unfolding any_char
domain_of String.[] = String.[]
domain_of (String.◌∷◌ c s) =
    let rest = domain_of s in
    if any_char (λ d. d == b'@') s then rest else if code c == b'@' then s else String.◌∷◌ c s

abbrev pub has_at : String → Bool
has_at s = any_char (λ c. c == b'@') s

-- `expected.startswith("@")`
abbrev pub starts_with_at : String → Bool
starts_with_at s = elim (strip_prefix "@" s) [ none ↦ false | some _ ↦ true ]

-- The sender's domain is the expected one, or below it.
unfoldable pub in_domain : String → String → Bool
unfolding ends_with domain_of any_char
in_domain domain sender =
    has_at sender
    && (str_eq (domain_of sender) domain || ends_with (String.◌++◌ "." domain) (domain_of sender))

-- `"gpt_grok"`
abbrev pub public_otp_sender_policy : String
public_otp_sender_policy = "gpt_grok"

-- The senders that a header names, in the standard library's reading, and whether `_GPT_SENDER_RE` or
-- `_GROK_SENDER_RE` finds something in it.
pub record Headers : Type 0 where
  pub getaddresses : String → List String
  pub is_gpt_sender : String → Bool
  pub is_grok_sender : String → Bool
  pub casefold : String → String

module _ (h : Headers) where
  abbrev pub clean : String → String
  clean s = h.casefold (strip s)

  unfoldable pub sender_matches_policy : String → String → Result Bool
  unfolding strip
  sender_matches_policy from_header sender_policy =
      let policy = clean sender_policy in
      if str_eq policy "" || str_eq policy "any" || str_eq policy "all"
      then returned true
      else if str_eq policy public_otp_sender_policy
      then returned (h.is_gpt_sender from_header || h.is_grok_sender from_header)
      else raised value_error

  -- An address that is blank matches neither an address nor a domain.
  unfoldable pub sender_matches_filter : String → String → Bool
  unfolding strip strip_prefix in_domain any_char
  sender_matches_filter from_header sender_filter =
      let expected = clean sender_filter in
      let senders = map (λ s. clean s) (h.getaddresses from_header) in
      if str_eq expected ""
      then true
      else if has_at expected && not (starts_with_at expected)
      then any (λ s. str_eq s expected) senders
      else any (in_domain (or_else (strip_prefix "@" expected) expected)) senders
