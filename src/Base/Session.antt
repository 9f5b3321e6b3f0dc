-- ===== src/Base/Session.antt =====
-- Methods that write to a store and may raise. What was written before a raise stays written, so
-- the store comes back beside the error too.
use mathlib.Core.Bool.{Bool, true, false}
use mathlib.Core.Path.{◌≡◌, refl}
use creditlens.Base.Tests.{if◌then◌else◌}
use creditlens.Base.Result.{Result, ok, err}

abbrev pub Exec : Type 0 → Type 0 → Type 0 → Type 0
Exec E S A = S → Result E A × S

module _ {E S A B : Type 0} where
  abbrev pub resume_with : Result E A → (A → Exec E S B) → Exec E S B
  resume_with (ok a) f s = f a s
  resume_with (err e) f s = (err e, s)

  infixl 5 ◌>>=◌ ◌>>◌
  abbrev pub ◌>>=◌ : Exec E S A → (A → Exec E S B) → Exec E S B
  ◌>>=◌ m f s = let (r, s') = m s in resume_with r f s'

  abbrev pub ◌>>◌ : Exec E S A → Exec E S B → Exec E S B
  m >> k = m >>= λ _. k

module _ {E S A : Type 0} where
  abbrev pub pure : A → Exec E S A
  pure a s = (ok a, s)

  abbrev pub raise : E → Exec E S A
  raise e s = (err e, s)

  abbrev pub lift : Result E A → Exec E S A
  lift r s = (r, s)

  abbrev pub gets : (S → A) → Exec E S A
  gets f s = (ok (f s), s)

abbrev pub require : {E S : Type 0} → Bool → E → Exec E S (Unit {0})
require true e s = (ok tt, s)
require false e s = (err e, s)

abbrev pub modify : {E S : Type 0} → (S → S) → Exec E S (Unit {0})
modify f s = (ok tt, f s)

-- What holds of the value and the store of a call that returns, and of the error and the store of
-- one that raises.
abbrev pub Ends {ℓ} :
    {E S A : Type 0} → (A → S → Type ℓ) → (E → S → Type ℓ) → Result E A × S → Type ℓ
Ends P Q (ok a, s) = P a s
Ends P Q (err e, s) = Q e s

-- A chain of two calls, from what the first one ends in.
module _ {ℓ} {E S A B : Type 0} (R : A → S → Type ℓ) (P : B → S → Type ℓ) (Q : E → S → Type ℓ) where
  after_first :
      (f : A → Exec E S B) (r : Result E A × S)
      → Ends R Q r
      → ((a : A) (s' : S) → R a s' → Ends P Q (f a s'))
      → Ends P Q (resume_with r.0 f r.1)
  after_first f (ok a, s') h k = k a s' h
  after_first f (err e, s') h k = h

  pub Ends-bind :
      (m : Exec E S A) (f : A → Exec E S B) (s : S)
      → Ends R Q (m s)
      → ((a : A) (s' : S) → R a s' → Ends P Q (f a s'))
      → Ends P Q ((m >>= f) s)
  Ends-bind m f s h k = after_first f (m s) h k

-- A weaker claim of a call that returns.
module _ {ℓ} {E S A : Type 0} (P R : A → S → Type ℓ) (Q : E → S → Type ℓ) where
  pub Ends-imp : (r : Result E A × S) → ((a : A) (s : S) → P a s → R a s) → Ends P Q r → Ends R Q r
  Ends-imp (ok a, s) k h = k a s h
  Ends-imp (err e, s) k h = h

module _ {ℓ κ} {E S A : Type 0} (P : A → S → Type ℓ) (Q : E → S → Type ℓ) (R : A → S → Type κ)
    (T : E → S → Type κ) where
  pub Ends-map :
      (r : Result E A × S)
      → ((a : A) (s : S) → P a s → R a s)
      → ((e : E) (s : S) → Q e s → T e s)
      → Ends P Q r
      → Ends R T r
  Ends-map (ok a, s) k l h = k a s h
  Ends-map (err e, s) k l h = l e s h

-- `try: a ← m; f a` with `except: g e`, where g takes the errors of m.
module _ {E S A B : Type 0} where
  abbrev pub handle_with : Result E A → (A → Exec E S B) → (E → Exec E S B) → Exec E S B
  handle_with (ok a) f g s = f a s
  handle_with (err e) f g s = g e s

  abbrev pub handle : Exec E S A → (A → Exec E S B) → (E → Exec E S B) → Exec E S B
  handle m f g s = let (r, s') = m s in handle_with r f g s'

-- A branch, from what each side ends in.
module _ {ℓ} {E S A : Type 0} (P : A → S → Type ℓ) (Q : E → S → Type ℓ) where
  pub Ends-if :
      (b : Bool) (m k : Exec E S A) (s : S)
      → (b ≡ true → Ends P Q (m s))
      → (b ≡ false → Ends P Q (k s))
      → Ends P Q ((if b then m else k) s)
  Ends-if true m k s h l = h refl
  Ends-if false m k s h l = l refl

-- A call whose errors are taken, from what it ends in.
module _ {ℓ} {E S A B : Type 0} (R : A → S → Type ℓ) (T : E → S → Type ℓ) (P : B → S → Type ℓ)
    (Q : E → S → Type ℓ) where
  after_handled :
      (f : A → Exec E S B) (g : E → Exec E S B) (r : Result E A × S)
      → Ends R T r
      → ((a : A) (s' : S) → R a s' → Ends P Q (f a s'))
      → ((e : E) (s' : S) → T e s' → Ends P Q (g e s'))
      → Ends P Q (handle_with r.0 f g r.1)
  after_handled f g (ok a, s') h k l = k a s' h
  after_handled f g (err e, s') h k l = l e s' h

  pub Ends-handle :
      (m : Exec E S A) (f : A → Exec E S B) (g : E → Exec E S B) (s : S)
      → Ends R T (m s)
      → ((a : A) (s' : S) → R a s' → Ends P Q (f a s'))
      → ((e : E) (s' : S) → T e s' → Ends P Q (g e s'))
      → Ends P Q (handle m f g s)
  Ends-handle m f g s h k l = after_handled f g (m s) h k l

module _ {ℓ} {E S A : Type 0} (P R : A → S → Type ℓ) (Q : E → S → Type ℓ) where
  pub Ends-both : (r : Result E A × S) → Ends P Q r → Ends R Q r → Ends (λ a s. P a s × R a s) Q r
  Ends-both (ok a, s) h k = (h, k)
  Ends-both (err e, s) h k = h
