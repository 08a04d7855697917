-- ===== src/Base/Strip.antt =====
-- Stripping a stripped text changes nothing.
use Prim.Native.Char.{code}
use Prim.Native.String.{String}
use mathlib.Core.Path.{◌≡◌, refl, ap, ◌∙◌}
use mathlib.Core.Bool.{◌&&◌}
use mathlib.Core.Logic.{inl, inr}
use icloud_code_gateway.Base.Tests.{str_eq, Bool-cases}
use icloud_code_gateway.Base.Text.{is_space, lstrip, rstrip, strip}

rstrip-rstrip : (s : String) → rstrip (rstrip s) ≡ rstrip s
unfolding rstrip
rstrip-rstrip String.[] = refl
rstrip-rstrip (String.◌∷◌ c s) = elim (Bool-cases (str_eq (rstrip s) "" && is_space (code c))) [
  | inl gone ↦ rw gone
  | inr stays ↦ rw stays (rw (rstrip-rstrip s) (rw stays))
]

lstrip-rstrip-lstrip : (s : String) → lstrip (rstrip (lstrip s)) ≡ rstrip (lstrip s)
unfolding lstrip rstrip
lstrip-rstrip-lstrip String.[] = refl
lstrip-rstrip-lstrip (String.◌∷◌ c s) = elim (Bool-cases (is_space (code c))) [
  | inl space ↦ rw space (lstrip-rstrip-lstrip s)
  | inr other ↦ rw other (elim (Bool-cases (str_eq (rstrip s) "")) [
    | inl e ↦ rw (e, other) (rw other)
    | inr e ↦ rw e (rw other)
  ])
]

pub strip-strip : (s : String) → strip (strip s) ≡ strip s
unfolding strip
strip-strip s = ap rstrip (lstrip-rstrip-lstrip s) ∙ rstrip-rstrip (lstrip s)
