-- ===== src/Base/Lists.antt =====
-- Lists measured by native numbers, and predicates on their elements.
use Prim.Native.Nat.{ℕ, zero, suc, ◌+◌, ◌≤◌}
use mathlib.Core.Path.{◌≡◌, refl, sym, ap}
use mathlib.Core.Logic.{inl, inr}
use mathlib.Core.Bool.{Bool, true, false, ◌&&◌, ◌||◌}
use mathlib.Core.List.{List, [], ◌∷◌, ◌++◌, map}
use native.Mathlib.Omega.{arith}
use creditlens.Base.Tests.{if◌then◌else◌, ◌==◌, ==_iff, Bool-cases, ||_false}

module _ {ℓ} {A : Type ℓ} where
  abbrev pub length : List A → ℕ
  length [] = 0
  length (x ∷ xs) = suc (length xs)

  abbrev pub take : ℕ → List A → List A
  take zero xs = []
  take (suc n) [] = []
  take (suc n) (x ∷ xs) = x ∷ take n xs

  abbrev pub is_empty : List A → Bool
  is_empty [] = true
  is_empty (x ∷ xs) = false

  abbrev pub filter : (A → Bool) → List A → List A
  filter p [] = []
  filter p (x ∷ xs) = let rest = filter p xs in if p x then x ∷ rest else rest

  abbrev pub any : (A → Bool) → List A → Bool
  any p [] = false
  any p (x ∷ xs) = p x || any p xs

  abbrev pub all : (A → Bool) → List A → Bool
  all p [] = true
  all p (x ∷ xs) = p x && all p xs

  pub length-append : (xs ys : List A) → length (xs ++ ys) ≡ length xs + length ys
  length-append [] ys = omega arith
  length-append (x ∷ xs) ys = omega (arith, length-append xs ys)

  pub length-take_le : (n : ℕ) (xs : List A) → length (take n xs) ≤ n
  length-take_le zero xs = omega arith
  length-take_le (suc n) [] = omega arith
  length-take_le (suc n) (x ∷ xs) = omega (arith, length-take_le n xs)

abbrev pub All {ℓ κ} : {A : Type ℓ} → (A → Type κ) → List A → Type κ
All P [] = Unit
All P (x ∷ xs) = P x × All P xs

abbrev pub contains : ℕ → List ℕ → Bool
contains a [] = false
contains a (x ∷ xs) = a == x || contains a xs

module _ {ℓ κ} {A : Type ℓ} (P : A → Type κ) where
  pub All-append : (xs ys : List A) → All P xs → All P ys → All P (xs ++ ys)
  All-append [] ys h k = k
  All-append (x ∷ xs) ys h k = (h.0, All-append xs ys h.1 k)

  pub All-take : (n : ℕ) (xs : List A) → All P xs → All P (take n xs)
  All-take zero xs h = tt
  All-take (suc n) [] h = tt
  All-take (suc n) (x ∷ xs) h = (h.0, All-take n xs h.1)

  pub All-map_same :
      (f : A → A) (xs : List A) → ((x : A) → P x → P (f x)) → All P xs → All P (map f xs)
  All-map_same f [] k h = tt
  All-map_same f (x ∷ xs) k h = (k x h.0, All-map_same f xs k h.1)

module _ {ℓ κ} {A : Type ℓ} (P Q : A → Type κ) where
  pub All-imp : (xs : List A) → ((x : A) → P x → Q x) → All P xs → All Q xs
  All-imp [] k h = tt
  All-imp (x ∷ xs) k h = (k x h.0, All-imp xs k h.1)

-- Some element satisfies the predicate.
pub data Exists {ℓ κ} {A : Type ℓ} (P : A → Type κ) : List A → Type (ℓ ⊔ κ) where
  here : {x : A} {xs : List A} → P x → Exists P (x ∷ xs)
  there : {x : A} {xs : List A} → Exists P xs → Exists P (x ∷ xs)

module _ {ℓ κ ι} {A : Type ℓ} (P : A → Type κ) (Q : A → Type ι) where
  pub Exists-imp : (xs : List A) → ((x : A) → P x → Q x) → Exists P xs → Exists Q xs
  Exists-imp [] k h = elim h [ ]
  Exists-imp (x ∷ xs) k (here h) = here (k x h)
  Exists-imp (x ∷ xs) k (there h) = there (Exists-imp xs k h)

  pub Exists-All : (xs : List A) → All P xs → Exists Q xs → Exists (λ x. P x × Q x) xs
  Exists-All [] h q = elim q [ ]
  Exists-All (x ∷ xs) h (here q) = here (h.0, q)
  Exists-All (x ∷ xs) h (there q) = there (Exists-All xs h.1 q)

pub contains-Exists {ℓ} :
    {A : Type ℓ} (f : A → ℕ) (i : ℕ) (xs : List A)
    → contains i (map f xs) ≡ true
    → Exists (λ x. f x ≡ i) xs
contains-Exists f i [] h = cc
contains-Exists f i (x ∷ xs) h = elim (Bool-cases (i == f x)) [
  | inl same ↦ here (sym ((==_iff i (f x)).0 same))
  | inr other ↦ there (contains-Exists f i xs (ground (arith, other)))
]

pub append_nil-parts {ℓ} : {A : Type ℓ} (xs ys : List A) → xs ++ ys ≡ [] → (xs ≡ []) × (ys ≡ [])
append_nil-parts [] ys h = (refl, h)
append_nil-parts (x ∷ xs) ys h = cc

-- How often the number stands in the list.
abbrev pub count : ℕ → List ℕ → ℕ
count a [] = 0
count a (x ∷ xs) = (if a == x then 1 else 0) + count a xs

pub count-append : (a : ℕ) (xs ys : List ℕ) → count a (xs ++ ys) ≡ count a xs + count a ys
count-append a [] ys = omega arith
count-append a (x ∷ xs) ys = ground (arith, count-append a xs ys)

pub any-All {ℓ} :
    {A : Type ℓ} (p : A → Bool) (xs : List A) → any p xs ≡ false → All (λ x. p x ≡ false) xs
any-All p [] h = tt
any-All p (x ∷ xs) h = let parts = ||_false (p x) (any p xs) h in (parts.0, any-All p xs parts.1)

pub any-append {ℓ} :
    {A : Type ℓ} (p : A → Bool) (xs ys : List A) → any p (xs ++ ys) ≡ (any p xs || any p ys)
any-append p [] ys = refl
any-append p (x ∷ xs) ys = ground (arith, any-append p xs ys)

-- Of every element, what it satisfies is satisfied by some element.
pub each-Exists {ℓ κ ι} :
    {A : Type ℓ} {B : Type ι} (P : B → A → Type κ) (xs : List A)
    → All (λ x. (b : B) → P b x → Exists (P b) xs) xs
each-Exists P [] = tt
each-Exists {B = B} P (x ∷ xs) = (
  λ b h. here h,
  All-imp (λ y. (b : B) → P b y → Exists (P b) xs) (λ y. (b : B) → P b y → Exists (P b) (x ∷ xs)) xs
      (λ y k b h. there (k b h)) (each-Exists P xs),
)

module _ {ℓ κ ι υ} {A : Type ℓ} (P : A → Type κ) (Q : A → Type ι) (R : A → Type υ) where
  pub All-zip : (xs : List A) → ((x : A) → P x → Q x → R x) → All P xs → All Q xs → All R xs
  All-zip [] k p q = tt
  All-zip (x ∷ xs) k p q = (k x p.0 q.0, All-zip xs k p.1 q.1)

pub All-append_parts {ℓ κ} :
    {A : Type ℓ} (P : A → Type κ) (xs ys : List A) → All P (xs ++ ys) → All P xs × All P ys
All-append_parts P [] ys h = (tt, h)
All-append_parts P (x ∷ xs) ys h =
    let (first, rest) = All-append_parts P xs ys h.1 in ((h.0, first), rest)

pub append_nil {ℓ} : {A : Type ℓ} (xs : List A) → xs ++ [] ≡ xs
append_nil [] = refl
append_nil (x ∷ xs) = ap (λ zs. x ∷ zs) (append_nil xs)

module _ {ℓ} {A : Type ℓ} (p : A → Bool) where
  pub filter-append : (xs ys : List A) → filter p (xs ++ ys) ≡ filter p xs ++ filter p ys
  filter-append [] ys = refl
  filter-append (x ∷ xs) ys = ground (arith, filter-append xs ys)

  pub filter_none : (xs : List A) → All (λ x. p x ≡ false) xs → filter p xs ≡ []
  filter_none [] h = refl
  filter_none (x ∷ xs) h = ground (arith, h.0, filter_none xs h.1)

  pub filter_all : (xs : List A) → All (λ x. p x ≡ true) xs → filter p xs ≡ xs
  filter_all [] h = refl
  filter_all (x ∷ xs) h = ground (arith, h.0, filter_all xs h.1)

  pub filter_new :
      (old new : List A)
      → All (λ x. p x ≡ false) old
      → All (λ x. p x ≡ true) new
      → filter p (old ++ new) ≡ new
  filter_new old new h k =
      ground (arith, filter-append old new, filter_none old h, filter_all new k)

  pub filter_old :
      (old new : List A) → All (λ x. p x ≡ false) new → filter p (old ++ new) ≡ filter p old
  filter_old old new h =
      ground (arith, filter-append old new, filter_none new h, append_nil (filter p old))

  pub filter-All : (xs : List A) → All (λ x. p x ≡ true) (filter p xs)
  filter-All [] = tt
  filter-All (x ∷ xs) = ground (arith, filter-All xs)

module _ {ℓ κ} {A : Type ℓ} {B : Type κ} (make : A → B) where
  pub All-made {ι} : (P : B → Type ι) → ((a : A) → P (make a)) → (xs : List A) → All P (map make xs)
  All-made P k [] = tt
  All-made P k (x ∷ xs) = (k x, All-made P k xs)

  pub All-unmap {ι} :
      (P : B → Type ι) (xs : List A) → All P (map make xs) → All (λ a. P (make a)) xs
  All-unmap P [] h = tt
  All-unmap P (x ∷ xs) h = (h.0, All-unmap P xs h.1)

  pub map-made {ι} :
      {C : Type ι} (read : B → C) (value : A → C)
      → ((a : A) → read (make a) ≡ value a)
      → (xs : List A) → map read (map make xs) ≡ map value xs
  map-made read value k [] = refl
  map-made read value k (x ∷ xs) = ground (arith, k x, map-made read value k xs)

module _ {ℓ κ} {A : Type ℓ} (P : A → Type κ) where
  pub Exists-append_left : (xs ys : List A) → Exists P xs → Exists P (xs ++ ys)
  Exists-append_left [] ys e = elim e [ ]
  Exists-append_left (x ∷ xs) ys e = elim e [
    | here h ↦ here h
    | there later ↦ there (Exists-append_left xs ys later)
  ]

  pub Exists-append_right : (xs ys : List A) → Exists P ys → Exists P (xs ++ ys)
  Exists-append_right [] ys e = e
  Exists-append_right (x ∷ xs) ys e = there (Exists-append_right xs ys e)
