-- ===== src/Worker/Triples.antt =====
-- What a method of the worker has done when it returns, from a state that satisfies an invariant.
use icloud_code_gateway.Base.{Bool, true, false, if◌then◌else◌, returned, raised}
use icloud_code_gateway.Errors.{Exception, Result}
use icloud_code_gateway.Worker.Environment.{Method}
use icloud_code_gateway.Worker.Environment.Actions.{
  ◌>>=◌, continue, pure, raise, attempt, try_except, handle_result,
}

abbrev pub Upon : {S A : Type 0} → (A → S → Type 0) → Result A → S → Type 0
Upon Q (returned a) s = Q a s
Upon Q (raised e) s = Unit

-- `I` holds after every run from a state where it held, exceptions included; and if the run returns
-- from a state where also `P` held, its value and its state satisfy `Q`.
pub record Triple {S A : Type 0} (I P : S → Type 0) (m : Method S A) (Q : A → S → Type 0)
    : Type 0 where
  pub run : (s : S) → I s → P s → I (m s).1 × Upon Q (m s).0 (m s).1

abbrev pub Anything : {S : Type 0} → S → Type 0
Anything s = Unit

abbrev pub AnyResult : {S A : Type 0} → A → S → Type 0
AnyResult a s = Unit

module _ {S : Type 0} (I : S → Type 0) where
  pub Triple->>= :
      {A B : Type 0} {P : S → Type 0} (R : A → S → Type 0) {Q : B → S → Type 0} {m : Method S A}
      {k : A → Method S B}
      → Triple I P m R
      → ((a : A) → Triple I (R a) (k a) Q)
      → Triple I P (m >>= k) Q
  unfolding ◌>>=◌
  Triple->>= {A = A} R {Q} {m} {k} hm hk = record {
    run = λ s i p. rest (m s).0 (m s).1 (hm.run s i p);
  }
    where
      rest :
          (r : Result A) (t : S)
          → I t × Upon R r t
          → I (continue r k t).1 × Upon Q (continue r k t).0 (continue r k t).1
      rest (returned a) t (i, q) = (hk a).run t i q
      rest (raised e) t (i, q) = (i, tt)

  -- The last part establishes the result, whatever the first does.
  pub Triple-last :
      {A B : Type 0} {Q : B → S → Type 0} {m : Method S A} {k : A → Method S B}
      → Triple I Anything m AnyResult
      → ((a : A) → Triple I Anything (k a) Q)
      → Triple I Anything (m >>= k) Q
  Triple-last hm hk = Triple->>= AnyResult hm hk

  -- The first part establishes a property of the state that the rest starts from.
  pub Triple-first :
      {A B : Type 0} {P : S → Type 0} (R : S → Type 0) {Q : B → S → Type 0} {m : Method S A}
      {k : A → Method S B}
      → Triple I P m (λ _. R)
      → ((a : A) → Triple I R (k a) Q)
      → Triple I P (m >>= k) Q
  Triple-first R hm hk = Triple->>= (λ _. R) hm hk

  pub Triple-if :
      {A : Type 0} {P : S → Type 0} {Q : A → S → Type 0} (b : Bool) {m n : Method S A}
      → Triple I P m Q
      → Triple I P n Q
      → Triple I P (if b then m else n) Q
  Triple-if true hm hn = hm
  Triple-if false hm hn = hn

  pub Triple-pure :
      {A : Type 0} {P : S → Type 0} {Q : A → S → Type 0} {a : A}
      → ((s : S) → P s → Q a s)
      → Triple I P (pure a) Q
  Triple-pure h = record { run = λ s i p. (i, h s p) }

  pub Triple-raise :
      {A : Type 0} {P : S → Type 0} {Q : A → S → Type 0} {e : Exception} → Triple I P (raise e) Q
  Triple-raise = record { run = λ s i p. (i, tt) }

  any_result : {A : Type 0} (r : Result A) (s : S) → Upon AnyResult r s
  any_result (returned a) s = tt
  any_result (raised e) s = tt

  -- A method of which only the invariant is known.
  pub Triple-any :
      {A : Type 0} {P : S → Type 0} {m : Method S A}
      → ((s : S) → I s → I (m s).1)
      → Triple I P m AnyResult
  Triple-any {m = m} h = record { run = λ s i p. (h s i, any_result (m s).0 (m s).1) }

  pub Triple-attempt :
      {A : Type 0} {P : S → Type 0} (Q : A → S → Type 0) {m : Method S A}
      → Triple I P m Q
      → Triple I P (attempt m) (λ r s. Upon Q r s)
  unfolding attempt
  Triple-attempt Q h = record { run = h.run }

  pub Triple-try_except :
      {A : Type 0} {Q : A → S → Type 0} {m : Method S A} {h : Exception → Method S A}
      → Triple I Anything m Q
      → ((e : Exception) → Triple I Anything (h e) Q)
      → Triple I Anything (try_except m h) Q
  unfolding try_except
  Triple-try_except {A} {Q} {m} {h} hm hh = record {
    run = λ s i p. rest (m s).0 (m s).1 (hm.run s i p);
  }
    where
      rest :
          (r : Result A) (t : S)
          → I t × Upon Q r t
          → I (handle_result r h t).1 × Upon Q (handle_result r h t).0 (handle_result r h t).1
      rest (returned a) t (i, q) = (i, q)
      rest (raised e) t (i, q) = (hh e).run t i tt

  -- Two results of the same method.
  pub Triple-and :
      {A : Type 0} {P : S → Type 0} {Q R : A → S → Type 0} {m : Method S A}
      → Triple I P m Q
      → Triple I P m R
      → Triple I P m (λ a s. Q a s × R a s)
  Triple-and {A} {P} {Q} {R} {m} hq hr = record {
    run = λ s i p. ((hq.run s i p).0, pair (m s).0 (m s).1 (hq.run s i p).1 (hr.run s i p).1);
  }
    where
      pair : (r : Result A) (t : S) → Upon Q r t → Upon R r t → Upon (λ a s. Q a s × R a s) r t
      pair (returned a) t q r = (q, r)
      pair (raised e) t q r = tt

-- A method of which nothing needs to be known.
pub Triple-free : {S A : Type 0} {P : S → Type 0} {m : Method S A} → Triple Anything P m AnyResult
Triple-free = Triple-any Anything (λ s i. tt)
