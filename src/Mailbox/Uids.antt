-- ===== src/Mailbox/Uids.antt =====
-- IMAP uids, as imap_otp.py orders them: by their number, then as texts. Texts of a uid are ASCII.
use Prim.Native.Char.{code}
use icloud_code_gateway.Base.{
  ℕ, suc, ◌+◌, ◌-◌, ◌*◌, String, ◌≡◌, refl, Bool, true, false, not, ◌&&◌, ◌||◌, leb, ltb, ◌==◌,
  str_eq, all_chars, if◌then◌else◌, arith,
}

abbrev pub is_digit : ℕ → Bool
is_digit c = leb b'0' c && leb c b'9'

-- `value.isdigit()`
unfoldable pub isdigit : String → Bool
unfolding all_chars
isdigit value = not (str_eq value "") && all_chars is_digit value

int_from : ℕ → String → ℕ
int_from n String.[] = n
int_from n (String.◌∷◌ c s) = int_from (n * 10 + (code c - b'0')) s

-- `int(value)` of digits.
unfoldable pub int_of : String → ℕ
unfolding int_from
int_of value = int_from 0 value

-- Python's `<=` on texts: by code points, a prefix first.
unfoldable pub text_le : String → String → Bool
text_le String.[] t = true
text_le (String.◌∷◌ c s) String.[] = false
text_le (String.◌∷◌ c s) (String.◌∷◌ d t) =
    if code c == code d then text_le s t else ltb (code c) (code d)

-- The first part of `_uid_sort_key`, one higher: -1 is 0.
unfoldable pub uid_rank : String → ℕ
unfolding isdigit int_of
uid_rank value = if isdigit value then suc (int_of value) else 0

-- `_uid_sort_key(u) <= _uid_sort_key(v)`, on pairs.
unfoldable pub uid_le : String → String → Bool
unfolding uid_rank text_le
uid_le u v = ltb (uid_rank u) (uid_rank v) || (uid_rank u == uid_rank v && text_le u v)

text_le_total : (s t : String) → text_le s t ≡ false → text_le t s ≡ true
unfolding text_le
text_le_total String.[] t h = cc h
text_le_total (String.◌∷◌ c s) String.[] h = refl
text_le_total (String.◌∷◌ c s) (String.◌∷◌ d t) h = ground (arith, text_le_total s t)

text_le_trans : (s t u : String) → text_le s t ≡ true → text_le t u ≡ true → text_le s u ≡ true
unfolding text_le
text_le_trans String.[] t u h k = refl
text_le_trans (String.◌∷◌ c s) String.[] u h k = cc h
text_le_trans (String.◌∷◌ c s) (String.◌∷◌ d t) String.[] h k = cc k
text_le_trans (String.◌∷◌ c s) (String.◌∷◌ d t) (String.◌∷◌ e u) h k =
    ground (arith, text_le_trans s t u)

pub uid_le_total : (u v : String) → uid_le u v ≡ false → uid_le v u ≡ true
unfolding uid_le
uid_le_total u v h = ground (arith, text_le_total u v)

pub uid_le_trans : (u v w : String) → uid_le u v ≡ true → uid_le v w ≡ true → uid_le u w ≡ true
unfolding uid_le
uid_le_trans u v w h k = ground (arith, text_le_trans u v w)
