-- ===== src/Base/Search.antt =====
-- Tables as lists of rows: the first row that passes a test, and updates in place.
use mathlib.Core.Path.{◌≡◌}
use mathlib.Core.Logic.{inl, inr}
use mathlib.Core.Bool.{Bool, true}
use mathlib.Core.Option.{Option, none, some}
use mathlib.Core.List.{List, [], ◌∷◌}
use native.Mathlib.Omega.{arith}
use creditlens.Base.Tests.{if◌then◌else◌, is_some, Bool-cases}
use creditlens.Base.Lists.{All, filter, Exists, here, there}

module _ {ℓ} {A : Type ℓ} where
  -- `select … where p`, read by `scalar`: the first row, if there is one.
  abbrev pub find : (A → Bool) → List A → Option A
  find p [] = none
  find p (x ∷ xs) = if p x then some x else find p xs

  -- Assignments to the fields of every row that passes the test.
  abbrev pub update_where : (A → Bool) → (A → A) → List A → List A
  update_where p f [] = []
  update_where p f (x ∷ xs) = (if p x then f x else x) ∷ update_where p f xs

  pub find-holds : (p : A → Bool) (xs : List A) (a : A) → find p xs ≡ some a → p a ≡ true
  find-holds p [] a h = cc
  find-holds p (x ∷ xs) a h = ground (arith, find-holds p xs a)

module _ {ℓ κ} {A : Type ℓ} (P : A → Type κ) where
  pub All-find : (p : A → Bool) (xs : List A) (a : A) → All P xs → find p xs ≡ some a → P a
  All-find p [] a h e = cc
  All-find p (x ∷ xs) a h e = ground (arith, All-find p xs a h.1)

  pub All-filter : (p : A → Bool) (xs : List A) → All P xs → All P (filter p xs)
  All-filter p [] h = tt
  All-filter p (x ∷ xs) h = ground (arith, All-filter p xs h.1)

  pub All-update_where :
      (p : A → Bool) (f : A → A) (xs : List A)
      → ((x : A) → p x ≡ true → P x → P (f x))
      → All P xs
      → All P (update_where p f xs)
  All-update_where p f [] k h = tt
  All-update_where p f (x ∷ xs) k h = ground (arith, k x, All-update_where p f xs k h.1)

-- The same, where a second predicate holds of the rows before the update.
module _ {ℓ κ ι} {A : Type ℓ} (G : A → Type ι) (P : A → Type κ) where
  pub All-update_where_with :
      (p : A → Bool) (f : A → A) (xs : List A)
      → ((x : A) → p x ≡ true → G x → P x → P (f x))
      → All G xs
      → All P xs
      → All P (update_where p f xs)
  All-update_where_with p f [] k g h = tt
  All-update_where_with p f (x ∷ xs) k g h =
      ground (arith, k x, All-update_where_with p f xs k g.1 h.1)

pub find-Exists {ℓ} :
    {A : Type ℓ} (p : A → Bool) (xs : List A)
    → is_some (find p xs) ≡ true
    → Exists (λ x. p x ≡ true) xs
find-Exists p [] h = cc
find-Exists p (x ∷ xs) h = elim (Bool-cases (p x)) [
  | inl passes ↦ here passes
  | inr fails ↦ there (find-Exists p xs (ground (arith, fails)))
]
