-- ===== src/Formulas/Agreeing.antt =====
-- When the inputs of a formula agree (formulas/engine.py, `compute_metric`).
use creditlens.Base.{
  true_not_false, ◌≡◌, ◌≢◌, refl, sym, ◌∙◌, ap, Bool, true, false, List, [], ◌∷◌, ◌&&◌, not, ◌==◌,
  ==_iff, ==_refl, map, filter, any, All, All-imp, any-All, Bool-cases, inl, inr, if-cases, arith,
  not-false,
}
use creditlens.Base.Text.{Text, codes, text_eq, text_eq_sound, text_eq_refl}
use creditlens.Formulas.Decimal.{Decimal}
use creditlens.Formulas.Engine.{
  FormulaDefinition, Inputs, PeriodRule, same_instant, same_period, other_rule, is_one_period,
  differ, has_period_conflict, has_source_conflict,
}

-- All of the list are the same.
abbrev pub AllEqual {ℓ} : {A : Type ℓ} → List A → Type ℓ
AllEqual xs = All (λ x. All (λ y. x ≡ y) xs) xs

-- All of the list are the same, but for those that are not counted.
abbrev pub AllEqualBut {ℓ} : {A : Type ℓ} → A → List A → Type ℓ
AllEqualBut unknown xs = All (λ x. All (λ y. x ≢ unknown → y ≢ unknown → x ≡ y) xs) xs

any-holds {ℓ} :
    {A : Type ℓ} (p : A → Bool) (xs : List A) → All (λ x. p x ≡ false) xs → any p xs ≡ false
any-holds p [] h = refl
any-holds p (x ∷ xs) h = ground (arith, h.0, any-holds p xs h.1)

equals {ℓ} : {A : Type ℓ} (x : A) (xs : List A) → All (λ y. x ≡ y) xs → AllEqual (x ∷ xs)
equals x xs h = (
  (refl, h),
  All-imp (λ y. x ≡ y) (λ y. All (λ z. y ≡ z) (x ∷ xs)) xs
      (λ y e. (sym e, All-imp (λ z. x ≡ z) (λ z. y ≡ z) xs (λ z f. sym e ∙ f) h)) h,
)

module _ {ℓ κ} {A : Type ℓ} (P : A → Type κ) (p : A → Bool) where
  unfiltered : (xs : List A) → All P (filter p xs) → All (λ x. p x ≡ true → P x) xs
  unfiltered [] h = tt
  unfiltered (x ∷ xs) h = elim (Bool-cases (p x)) [
    | inl kept ↦
        let (own, rest) : P x × All P (filter p xs) = rw kept at h in
        ((λ _. own), unfiltered xs rest)
    | inr left ↦
        let rest : All P (filter p xs) = rw left at h in
        ((λ k. absurd (true_not_false (sym k ∙ left))), unfiltered xs rest)
  ]

  refiltered : (xs : List A) → All (λ x. p x ≡ true → P x) xs → All P (filter p xs)
  refiltered [] h = tt
  refiltered (x ∷ xs) h =
      if-cases (All P) (p x) (x ∷ filter p xs) (filter p xs) (λ kept. (h.0 kept, refiltered xs h.1))
        (λ left. refiltered xs h.1)

module _ (dec : Decimal) {A : Type 0} (same : A → A → Bool)
    (sound : (a b : A) → same a b ≡ true → a ≡ b) (reflexive : (a : A) → same a a ≡ true) where
  differ-false : (xs : List A) → differ dec same xs ≡ false → AllEqual xs
  unfolding differ
  differ-false [] h = tt
  differ-false (x ∷ xs) h = equals x xs (
      All-imp (λ y. not (same x y) ≡ false) (λ y. x ≡ y) xs (λ y k. sound x y (not-false _ k))
        (any-All _ xs h))

  AllEqual-differ : (xs : List A) → AllEqual xs → differ dec same xs ≡ false
  unfolding differ
  AllEqual-differ [] h = refl
  AllEqual-differ (x ∷ xs) h = any-holds _ xs (
      All-imp (λ y. x ≡ y) (λ y. not (same x y) ≡ false) xs
        (λ y e. ap (λ z. not (same x z)) (sym e) ∙ ap not (reflexive x)) h.0.1)

always {ℓ κ} : {A : Type ℓ} {P : A → Type κ} (xs : List A) → ((x : A) → P x) → All P xs
always [] h = tt
always (x ∷ xs) h = (h x, always xs h)

-- Whether a scope is counted.
abbrev is_known : Text → Bool
is_known s = not (text_eq s (codes "UNKNOWN"))

known : (s : Text) → s ≢ codes "UNKNOWN" → is_known s ≡ true
known s h = elim (Bool-cases (text_eq s (codes "UNKNOWN"))) [
  | inl same ↦ absurd (h (text_eq_sound s (codes "UNKNOWN") same))
  | inr other ↦ ap not other
]

is_known-differs : (s : Text) → is_known s ≡ true → s ≢ codes "UNKNOWN"
is_known-differs s h e = true_not_false (sym h ∙ ap is_known e)

known-AllEqualBut :
    (xs : List Text) → AllEqual (filter is_known xs) → AllEqualBut (codes "UNKNOWN") xs
known-AllEqualBut xs h =
    All-imp (λ x. is_known x ≡ true → All (λ y. x ≡ y) (filter is_known xs))
      (λ x. All (λ y. x ≢ codes "UNKNOWN" → y ≢ codes "UNKNOWN" → x ≡ y) xs) xs
      (λ x rest. spread x rest)
      (unfiltered (λ x. All (λ y. x ≡ y) (filter is_known xs)) is_known xs h)
  where
    spread :
        (x : Text)
        → (is_known x ≡ true → All (λ y. x ≡ y) (filter is_known xs))
        → All (λ y. x ≢ codes "UNKNOWN" → y ≢ codes "UNKNOWN" → x ≡ y) xs
    spread x rest = elim (Bool-cases (is_known x)) [
      | inl counted ↦
          All-imp (λ y. is_known y ≡ true → x ≡ y)
            (λ y. x ≢ codes "UNKNOWN" → y ≢ codes "UNKNOWN" → x ≡ y) xs
            (λ y k _ other. k (known y other)) (unfiltered (λ y. x ≡ y) is_known xs (rest counted))
      | inr left ↦ always xs (λ y other _. absurd (true_not_false (sym (known x other) ∙ left)))
    ]

AllEqualBut-known :
    (xs : List Text) → AllEqualBut (codes "UNKNOWN") xs → AllEqual (filter is_known xs)
AllEqualBut-known xs h =
    refiltered (λ x. All (λ y. x ≡ y) (filter is_known xs)) is_known xs
      (All-imp (λ x. All (λ y. x ≢ codes "UNKNOWN" → y ≢ codes "UNKNOWN" → x ≡ y) xs)
        (λ x. is_known x ≡ true → All (λ y. x ≡ y) (filter is_known xs)) xs
        (λ x row counted.
          refiltered (λ y. x ≡ y) is_known xs
            (All-imp (λ y. x ≢ codes "UNKNOWN" → y ≢ codes "UNKNOWN" → x ≡ y)
              (λ y. is_known y ≡ true → x ≡ y) xs
              (λ y k shown. k (is_known-differs x counted) (is_known-differs y shown)) row))
        h)

module _ (dec : Decimal) (d : FormulaDefinition dec) (es : Inputs dec) where
  -- The inputs of a formula of one instant or of one period end on one day.
  abbrev pub OnePeriod : PeriodRule → Type 0
  OnePeriod same_instant = AllEqual (map (λ e. e.1.period_end) es)
  OnePeriod same_period = AllEqual (map (λ e. e.1.period_end) es)
  OnePeriod other_rule = Unit

  -- The scopes of the inputs are the same, but for those that are unknown.
  abbrev pub OneScope : Type 0
  OneScope = AllEqualBut (codes "UNKNOWN") (map (λ e. e.1.consolidation_scope) es)

  period-OnePeriod :
      (rule : PeriodRule)
      → (is_one_period dec rule && differ dec (λ a b. a == b) (map (λ e. e.1.period_end) es))
        ≡ false
      → OnePeriod rule
  unfolding is_one_period
  period-OnePeriod same_instant h = differ-false dec ◌==◌ (λ a b. (==_iff a b).0) ==_refl _ h
  period-OnePeriod same_period h = differ-false dec ◌==◌ (λ a b. (==_iff a b).0) ==_refl _ h
  period-OnePeriod other_rule h = tt

  OnePeriod-period :
      (rule : PeriodRule)
      → OnePeriod rule
      → (is_one_period dec rule && differ dec (λ a b. a == b) (map (λ e. e.1.period_end) es))
        ≡ false
  unfolding is_one_period
  OnePeriod-period same_instant h = AllEqual-differ dec ◌==◌ (λ a b. (==_iff a b).0) ==_refl _ h
  OnePeriod-period same_period h = AllEqual-differ dec ◌==◌ (λ a b. (==_iff a b).0) ==_refl _ h
  OnePeriod-period other_rule h = refl

  pub no_conflict-OnePeriod : has_period_conflict dec d es ≡ false → OnePeriod d.period_rule
  unfolding has_period_conflict
  no_conflict-OnePeriod h = period-OnePeriod d.period_rule h

  pub OnePeriod-no_conflict : OnePeriod d.period_rule → has_period_conflict dec d es ≡ false
  unfolding has_period_conflict
  OnePeriod-no_conflict h = OnePeriod-period d.period_rule h

  pub no_conflict-OneScope : has_source_conflict dec es ≡ false → OneScope
  unfolding has_source_conflict
  no_conflict-OneScope h =
      known-AllEqualBut _ (differ-false dec text_eq text_eq_sound text_eq_refl _ h)

  pub OneScope-no_conflict : OneScope → has_source_conflict dec es ≡ false
  unfolding has_source_conflict
  OneScope-no_conflict h =
      AllEqual-differ dec text_eq text_eq_sound text_eq_refl _ (AllEqualBut-known _ h)
