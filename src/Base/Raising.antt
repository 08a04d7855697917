-- ===== src/Base/Raising.antt =====
-- Exceptions as values: what a function of the program returns or raises.
use mathlib.Core.Bool.{Bool, true, false}
use mathlib.Core.Option.{Option, none, some}
use icloud_code_gateway.Base.Tests.{if◌then◌else◌}
use mathlib.Core.Path.{◌≡◌, refl}

pub data Outcome {ℓ κ} (E : Type ℓ) (A : Type κ) : Type (ℓ ⊔ κ) where
  returned : A → Outcome E A
  raised : E → Outcome E A

infixl 5 ◌>>=◌ ◌>>◌
abbrev pub ◌>>=◌ {ℓ κ μ} :
    {E : Type ℓ} {A : Type κ} {B : Type μ} → Outcome E A → (A → Outcome E B) → Outcome E B
returned a >>= f = f a
raised e >>= f = raised e

abbrev pub ◌>>◌ {ℓ μ} : {E : Type ℓ} {B : Type μ} → Outcome E (Unit {0}) → Outcome E B → Outcome E B
m >> k = m >>= λ _. k

-- `if bad: raise e`
abbrev pub raise_if {ℓ} : {E : Type ℓ} → Bool → E → Outcome E (Unit {0})
raise_if true e = raised e
raise_if false e = returned tt

-- If the call returns, its value satisfies `P`.
abbrev pub Ensures {ℓ κ μ} : {E : Type ℓ} {A : Type κ} → (A → Type μ) → Outcome E A → Type μ
Ensures P (returned a) = P a
Ensures P (raised e) = Unit

module _ {ℓ κ μ} {E : Type ℓ} {A : Type κ} (P : A → Type μ) where
  pub Ensures-if :
      (b : Bool) (m n : Outcome E A) → Ensures P m → Ensures P n → Ensures P (if b then m else n)
  Ensures-if true m n hm hn = hm
  Ensures-if false m n hm hn = hn

  pub Ensures-returned : (m : Outcome E A) (a : A) → Ensures P m → m ≡ returned a → P a
  Ensures-returned m a h e = rw e at h

module _ {ℓ κ ν μ} {E : Type ℓ} {A : Type κ} {B : Type ν} (P : B → Type μ) where
  pub Ensures->>= :
      (m : Outcome E A) (f : A → Outcome E B)
      → ((a : A) → m ≡ returned a → Ensures P (f a))
      → Ensures P (m >>= f)
  Ensures->>= (returned a) f h = h a refl
  Ensures->>= (raised e) f h = tt

  pub Ensures-elim_option :
      (o : Option A) (n : Outcome E B) (f : A → Outcome E B)
      → (o ≡ none → Ensures P n)
      → ((a : A) → o ≡ some a → Ensures P (f a))
      → Ensures P (elim o [ none ↦ n | some a ↦ f a ])
  Ensures-elim_option none n f hn hf = hn refl
  Ensures-elim_option (some a) n f hn hf = hf a refl
