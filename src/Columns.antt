-- ===== src/Columns.antt =====
-- The text rules of database.py: what a column accepts.
use icloud_code_gateway.Base.{
  ℕ, String, Bool, not, ◌||◌, ltb, ◌==◌, str_eq, strip, count_char, chars, any_char, is_space,
  before_char, after_char, ◌>>◌, returned, raise_if,
}
use icloud_code_gateway.Errors.{Result, value_error}

abbrev at_sign : ℕ
at_sign = b'@'

-- `_clean_text`; the argument is a `str`.
unfoldable pub clean_text : String → ℕ → Result String
unfolding strip chars any_char
clean_text value limit = do
  let text = strip value
  raise_if (ltb limit (chars text) || any_char (λ c. c == 13 || c == 10) text) value_error
  returned text

module _ (casefold : String → String) where
  -- `_normalize_email`. There is one `@`, so `rsplit("@", 1)` splits at the first.
  unfoldable pub normalize_email : String → Result String
  unfolding strip count_char any_char is_space before_char after_char
  normalize_email value = do
    let email = casefold (strip value)
    raise_if (not (count_char at_sign email == 1) || any_char is_space email) value_error
    let local_part = before_char at_sign email
    let domain = after_char at_sign email
    raise_if (str_eq local_part "" || str_eq domain "" || not (any_char (λ c. c == b'.') domain))
        value_error
    returned email

  -- `str(value or "").strip().casefold()` and `count("@") == 1`: how a saved candidate is read.
  unfoldable pub clean_candidate : String → String
  unfolding strip
  clean_candidate value = casefold (strip value)

unfoldable pub has_one_at : String → Bool
unfolding count_char
has_one_at value = count_char at_sign value == 1
