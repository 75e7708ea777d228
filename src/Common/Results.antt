-- ===== src/Common/Results.antt =====
-- Go's (value, error) pairs: a result or an error.
use mathlib.Core.Path.{◌≡◌, refl, subst}
use mathlib.Core.Bool.{Bool, true, false}
use sdsyslog.Common.Tests.{if◌then◌else◌}

pub data Result {ℓ κ} (E : Type ℓ) (A : Type κ) : Type (ℓ ⊔ κ) where
  ok : A → Result E A
  err : E → Result E A

infixl 5 ◌>>=◌ ◌>>◌
abbrev pub ◌>>=◌ {ε ℓ κ} :
    {E : Type ε} {A : Type ℓ} {B : Type κ} → Result E A → (A → Result E B) → Result E B
ok a >>= f = f a
err e >>= f = err e

abbrev pub ◌>>◌ {ε κ} : {E : Type ε} {B : Type κ} → Result E (Unit {0}) → Result E B → Result E B
m >> k = m >>= λ _. k

-- `if !test { err = e; return }`.
abbrev pub guard {ε} : {E : Type ε} → Bool → E → Result E (Unit {0})
guard true e = ok tt
guard false e = err e

-- If the result is a value, it meets `P`: a postcondition with a rule for each step of a chain.
pub data Yields {ε ℓ κ} {E : Type ε} {A : Type ℓ} (P : A → Type κ)
    : Result E A → Type (ε ⊔ ℓ ⊔ κ) where
  good : {a : A} → P a → Yields P (ok a)
  bad : {e : E} → Yields P (err e)

module _ {ε ℓ} {E : Type ε} {A : Type ℓ} where
  pub ok_injective : {a b : A} → ◌≡◌ {A = Result E A} (ok a) (ok b) → a ≡ b
  ok_injective h = cc

  pub Yields-intro {κ} : {P : A → Type κ} (r : Result E A) → ((a : A) → r ≡ ok a → P a) → Yields P r
  Yields-intro (ok a) h = good (h a refl)
  Yields-intro (err e) h = bad

  pub Yields-if {κ} :
      {P : A → Type κ} {x y : Result E A} (b : Bool)
      → (b ≡ true → Yields P x)
      → (b ≡ false → Yields P y)
      → Yields P (if b then x else y)
  Yields-if true h k = h refl
  Yields-if false h k = k refl

module _ {ε ℓ κ} {E : Type ε} {A : Type ℓ} {P : A → Type κ} where
  pub Yields-eq_ok : {r : Result E A} {a : A} → Yields P r → r ≡ ok a → P a
  Yields-eq_ok (good p) e = subst P (ok_injective e) p
  Yields-eq_ok bad e = cc

  pub Yields-bind {μ ν} :
      {B : Type μ} {Q : B → Type ν} {m : Result E A} {f : A → Result E B}
      → Yields P m
      → ((a : A) → P a → Yields Q (f a))
      → Yields Q (m >>= f)
  Yields-bind (good p) k = k _ p
  Yields-bind bad k = bad

pub Yields-guard {ε} : {E : Type ε} (b : Bool) (e : E) → Yields (λ _. b ≡ true) (guard b e)
Yields-guard true e = good refl
Yields-guard false e = bad
