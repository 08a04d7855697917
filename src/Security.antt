-- ===== src/Security.antt =====
-- security.py: the shape of access keys. SHA-256 is Python's `hashlib`, a parameter here.
use icloud_code_gateway.Base.{
  ℕ, String, Bool, false, ◌&&◌, ◌||◌, none, some, leb, ◌==◌, if◌then◌else◌, strip, strip_prefix,
  chars, all_chars, ◌>>=◌, returned, raised,
}
use icloud_code_gateway.Errors.{Result, security_error}

-- `[A-Za-z0-9_-]`
unfoldable pub is_key_char : ℕ → Bool
is_key_char c =
    (leb b'A' c && leb c b'Z')
    || (leb b'a' c && leb c b'z')
    || (leb b'0' c && leb c b'9')
    || c == b'_'
    || c == b'-'

-- `_ACCESS_KEY_RE.fullmatch`
unfoldable pub is_access_key : String → Bool
unfolding strip_prefix chars all_chars is_key_char
is_access_key key = elim (strip_prefix "icg_" key) [
  | none ↦ false
  | some body ↦ chars body == 43 && all_chars is_key_char body
]

unfoldable pub validate_access_key : String → Result String
unfolding strip is_access_key
validate_access_key value =
    let key = strip value in if is_access_key key then returned key else raised security_error

unfoldable pub hash_access_key : (String → String) → String → Result String
unfolding validate_access_key
hash_access_key sha256 value = validate_access_key value >>= λ key. returned (sha256 key)
