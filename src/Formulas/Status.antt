-- ===== src/Formulas/Status.antt =====
-- What the status of a computed metric says of its inputs and its result.
use creditlens.Base.{
  ℕ, ◌≡◌, refl, subst, true, false, none, some, List, [], ◌∷◌, not, is_some, is_some_value, any,
  All, if-cases,
}
use native.Mathlib.Omega.{arith}
use creditlens.Base.Result.{Result, ok, err, ◌>>=◌}
use creditlens.Base.Text.{Text}
use creditlens.Formulas.Decimal.{Decimal, undefined, overflow}
use creditlens.Formulas.Engine.{
  CalculationStatus, calculated, missing_input, division_by_zero, period_conflict, source_conflict,
  FormulaDefinition, CalculationInput, CalculationArtifact, Inputs, EvalError, arithmetic,
  not_allowed, unknown_name, look_up, rounded, variables_of, evaluate, artifact, report,
  compute_metric, is_missing_input, has_period_conflict, has_source_conflict,
}
use creditlens.Formulas.Agreeing.{
  OnePeriod, OneScope, no_conflict-OnePeriod, OnePeriod-no_conflict, no_conflict-OneScope,
  OneScope-no_conflict,
}

module _ (dec : Decimal) (hash_trace : FormulaDefinition dec → Inputs dec → Text) where
  open dec use {D}

  -- Every required input is there, the inputs of a formula of one instant or of one period end on one
  -- day, and the known scopes are the same.
  pub record IsUsable (d : FormulaDefinition dec) (es : Inputs dec) : Type 0 where
    pub no_missing :
        All (λ n. (i : CalculationInput dec) × (look_up dec n es ≡ some i)) d.required_inputs
    pub one_period : OnePeriod dec d es d.period_rule
    pub one_scope : OneScope dec d es

  -- A calculated artifact has the rounded value of the expression as its result, from usable
  -- inputs; a division by zero is an error of the arithmetic on usable inputs; the others have
  -- unusable inputs. Only a calculated artifact has a result.
  abbrev pub Explains :
      FormulaDefinition dec → Inputs dec → CalculationArtifact dec → CalculationStatus → Type 0
  Explains d es a calculated =
      (raw : D) × (r : D) × IsUsable d es
      × (evaluate dec (variables_of dec d es) d.expression ≡ ok raw)
      × (rounded dec d raw ≡ ok r)
      × (a.result ≡ some r)
  Explains d es a division_by_zero =
      IsUsable d es
      × (evaluate dec (variables_of dec d es) d.expression ≡ err (arithmetic undefined))
      × (a.result ≡ none)
  Explains d es a missing_input = (¬ IsUsable d es) × (a.result ≡ none)
  Explains d es a period_conflict = (¬ IsUsable d es) × (a.result ≡ none)
  Explains d es a source_conflict = (¬ IsUsable d es) × (a.result ≡ none)

  abbrev IfReturned :
      FormulaDefinition dec → Inputs dec → Result EvalError (CalculationArtifact dec) → Type 0
  IfReturned d es (ok a) = Explains d es a a.status
  IfReturned d es (err e) = Unit

  none_missing :
      (es : Inputs dec) (ns : List Text)
      → any (λ n. not (is_some (look_up dec n es))) ns ≡ false
      → All (λ n. (i : CalculationInput dec) × (look_up dec n es ≡ some i)) ns
  none_missing es [] h = tt
  none_missing es (n ∷ ns) h =
      (is_some_value (look_up dec n es) (ground arith), none_missing es ns (ground arith))

  some_missing :
      (es : Inputs dec) (ns : List Text)
      → any (λ n. not (is_some (look_up dec n es))) ns ≡ true
      → ¬ All (λ n. (i : CalculationInput dec) × (look_up dec n es ≡ some i)) ns
  some_missing es [] h k = cc
  some_missing es (n ∷ ns) h k = some_missing es ns (ground (arith, k.0.1)) k.1

  result-IfReturned :
      (d : FormulaDefinition dec) (es : Inputs dec) (fresh : ℕ) (raw : D) (r : Result EvalError D)
      → IsUsable d es
      → evaluate dec (variables_of dec d es) d.expression ≡ ok raw
      → rounded dec d raw ≡ r
      → IfReturned d es (r >>= λ x. ok (artifact dec hash_trace d es fresh calculated (some x)))
  unfolding artifact
  result-IfReturned d es fresh raw (ok x) u e h = (raw, x, u, e, h, refl)
  result-IfReturned d es fresh raw (err x) u e h = tt

  report-IfReturned :
      (d : FormulaDefinition dec) (es : Inputs dec) (fresh : ℕ) (r : Result EvalError D)
      → IsUsable d es
      → evaluate dec (variables_of dec d es) d.expression ≡ r
      → IfReturned d es (report dec hash_trace d es fresh r)
  unfolding report artifact
  report-IfReturned d es fresh (ok raw) u e =
      result-IfReturned d es fresh raw (rounded dec d raw) u e refl
  report-IfReturned d es fresh (err (arithmetic undefined)) u e = (u, e, refl)
  report-IfReturned d es fresh (err (arithmetic overflow)) u e = tt
  report-IfReturned d es fresh (err not_allowed) u e = tt
  report-IfReturned d es fresh (err unknown_name) u e = tt

  returned :
      (d : FormulaDefinition dec) (es : Inputs dec) (fresh : ℕ)
      → IfReturned d es (compute_metric dec hash_trace d es fresh)
  unfolding compute_metric artifact is_missing_input
  returned d es fresh =
      if-cases (IfReturned d es) (is_missing_input dec d es) _ _
        (λ missing. (λ u. some_missing es d.required_inputs missing u.no_missing, refl))
        λ present.
          if-cases (IfReturned d es) (has_period_conflict dec d es) _ _
            (λ period.
              (λ u. ground (arith, OnePeriod-no_conflict dec d es u.one_period, period), refl))
            λ agreeing_ends.
              if-cases (IfReturned d es) (has_source_conflict dec es) _ _
                (λ source.
                  (λ u. ground (arith, OneScope-no_conflict dec d es u.one_scope, source), refl))
                λ agreeing_scopes.
                  report-IfReturned d es fresh _
                    (record {
                      no_missing = none_missing es d.required_inputs present;
                      one_period = no_conflict-OnePeriod dec d es agreeing_ends;
                      one_scope = no_conflict-OneScope dec d es agreeing_scopes;
                    })
                    refl

  -- The artifact of a metric that was computed explains itself: with the status calculated, every
  -- required input was there, the inputs of a formula of one instant or of one period end on one day,
  -- the known scopes are the same, and the result is the value of the expression after rounding; with a division by zero, the inputs were as good and
  -- the arithmetic of the expression failed; with any other status, the inputs were not; and
  -- without the status calculated there is no result.
  pub compute_metric-Explains :
      (d : FormulaDefinition dec) (es : Inputs dec) (fresh : ℕ) (a : CalculationArtifact dec)
      → compute_metric dec hash_trace d es fresh ≡ ok a
      → Explains d es a a.status
  compute_metric-Explains d es fresh a ran = subst (IfReturned d es) ran (returned d es fresh)
