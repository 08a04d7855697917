-- ===== src/Mailbox/Config.antt =====
-- `ImapConfig` of imap_otp.py: the mailbox that the watcher reads.
use icloud_code_gateway.Base.{
  ℕ, String, Bool, true, false, not, ◌&&◌, ◌||◌, List, [], ◌∷◌, leb, ◌==◌, str_eq, strip_prefix,
  any_char, is_space, count_char, is_some, if◌then◌else◌, raise_if, ◌>>◌, returned,
}
use icloud_code_gateway.Errors.{Result, value_error}

pub record ImapConfig : Type 0 where
  pub forwarding_email : String
  pub host : String
  pub port : ℕ
  pub username : String
  pub password : String
  pub folder : String
  pub junk_folder : String
  pub proxy : String

-- `any(character in value for character in "\r\n\x00")`
unfoldable pub has_break : String → Bool
unfolding any_char
has_break = any_char (λ c. c == 13 || c == 10 || c == 0)

unfoldable pub is_bad_text : String → Bool
unfolding has_break
is_bad_text value = str_eq value "" || has_break value

-- `part in s`
unfoldable pub contains : String → String → Bool
unfolding strip_prefix
contains part String.[] = str_eq part ""
contains part (String.◌∷◌ c s) = is_some (strip_prefix part (String.◌∷◌ c s)) || contains part s

-- `_proxy_spec` raises what `check_proxy` raises.
unfoldable pub validate : (String → Result (Unit {0})) → ImapConfig → Result (Unit {0})
unfolding is_bad_text has_break count_char any_char is_space
validate check_proxy c = do
  raise_if (is_bad_text c.forwarding_email) value_error
  raise_if (is_bad_text c.host) value_error
  raise_if (is_bad_text c.username) value_error
  raise_if (is_bad_text c.password) value_error
  raise_if (is_bad_text c.folder) value_error
  raise_if (has_break c.junk_folder) value_error
  raise_if (not (count_char b'@' c.forwarding_email == 1)) value_error
  raise_if (not (leb 1 c.port && leb c.port 65535)) value_error
  raise_if (any_char is_space c.host) value_error
  if str_eq c.proxy "" then returned tt else check_proxy c.proxy

unfoldable pub folders : ImapConfig → List String
folders c =
    if not (str_eq c.junk_folder "") && not (str_eq c.junk_folder c.folder)
    then c.folder ∷ c.junk_folder ∷ []
    else c.folder ∷ []

unfoldable pub scan_folders : (String → String) → ImapConfig → List String
unfolding folders contains
scan_folders casefold c =
    if not (str_eq c.junk_folder "") || not (contains "qq.com" (casefold c.host))
    then folders c
    else c.folder ∷ "Junk" ∷ []

abbrev same_texts : List String → List String → Bool
same_texts [] [] = true
same_texts [] (t ∷ ts) = false
same_texts (s ∷ ss) [] = false
same_texts (s ∷ ss) (t ∷ ts) = str_eq s t && same_texts ss ts

-- `MailboxWatcher._config_key(a) == MailboxWatcher._config_key(b)`
unfoldable pub has_same_key : (String → String) → ImapConfig → ImapConfig → Bool
unfolding scan_folders
has_same_key casefold a b =
    str_eq a.host b.host
    && a.port == b.port
    && str_eq a.username b.username
    && str_eq a.password b.password
    && str_eq a.proxy b.proxy
    && same_texts (scan_folders casefold a) (scan_folders casefold b)
