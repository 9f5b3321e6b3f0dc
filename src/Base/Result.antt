-- ===== src/Base/Result.antt =====
-- Calls that may raise.
use mathlib.Core.Bool.{Bool, true, false}
use mathlib.Core.Option.{Option, none, some}
use mathlib.Core.Path.{◌≡◌, refl}

-- The value that a call returns, or the error that it raises.
pub data Result {ℓ κ} (E : Type κ) (A : Type ℓ) : Type (ℓ ⊔ κ) where
  ok : A → Result E A
  err : E → Result E A

infixl 5 ◌>>=◌ ◌>>◌
abbrev pub ◌>>=◌ {ℓ κ ι} :
    {E : Type ι} {A : Type ℓ} {B : Type κ} → Result E A → (A → Result E B) → Result E B
ok a >>= f = f a
err e >>= f = err e

abbrev pub ◌>>◌ {κ ι} : {E : Type ι} {B : Type κ} → Result E (Unit {0}) → Result E B → Result E B
m >> k = m >>= λ _. k

abbrev pub raise_if {ι} : {E : Type ι} → Bool → E → Result E (Unit {0})
raise_if true e = err e
raise_if false e = ok tt

-- A value, or the error for its lack.
abbrev pub need {ℓ ι} : {E : Type ι} {A : Type ℓ} → E → Option A → Result E A
need e none = err e
need e (some a) = ok a

module _ {ℓ ι} {E : Type ι} {A : Type ℓ} where
  pub ok_cancel : (a b : A) → ◌≡◌ {A = Result E A} (ok a) (ok b) → a ≡ b
  ok_cancel a b h = cc

  pub after_check :
      (b : Bool) (e : E) (k : Result E A) (a : A)
      → ◌≡◌ {A = Result E A} (raise_if b e >> k) (ok a)
      → (b ≡ false) × (k ≡ ok a)
  after_check true e k a h = cc
  after_check false e k a h = (refl, h)

  pub after_need {κ} :
      {B : Type κ} (e : E) (o : Option B) (k : B → Result E A) (a : A)
      → ◌≡◌ {A = Result E A} (need e o >>= k) (ok a)
      → (b : B) × (o ≡ some b) × (k b ≡ ok a)
  after_need e none k a h = cc
  after_need e (some b) k a h = (b, refl, h)
