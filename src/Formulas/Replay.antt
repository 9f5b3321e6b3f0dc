-- ===== src/Formulas/Replay.antt =====
-- A computed metric replays, and its status says whether it has a result.
use creditlens.Base.{
  ℕ, ◌≡◌, refl, sym, ◌∙◌, ap, subst, Bool, true, false, Bool-cases, inl, inr, Option, none, some,
  List, [], ◌∷◌, ◌++◌, append_nil, map, ==_refl, if◌then◌else◌, All,
}
use native.Mathlib.Omega.{arith}
use creditlens.Base.Result.{Result, ok, err, ◌>>=◌}
use creditlens.Base.Text.{Text, text_eq, text_eq_sym, text_eq_refl}
use creditlens.Formulas.Decimal.{Decimal, undefined, overflow}
use creditlens.Formulas.Engine.{
  CalculationStatus, calculated, missing_input, division_by_zero, period_conflict, source_conflict,
  status_code, FormulaDefinition, CalculationInput, CalculationArtifact, Inputs, EvalError,
  arithmetic, not_allowed, unknown_name, look_up, rounded, variables_of, evaluate, artifact, report,
  compute_metric, put_input, collect_inputs, same_result, is_consistent, get_definition,
  replay_calculation, is_missing_input, has_period_conflict, has_source_conflict,
}

module _ (dec : Decimal) (hash_trace : FormulaDefinition dec → Inputs dec → Text) where
  open dec use {D, equal}

  -- A dict of inputs, each under its own metric code.
  abbrev pub IsKeyed : Inputs dec → Type 0
  IsKeyed [] = Unit
  IsKeyed (e ∷ es) = (e.0 ≡ e.1.metric_code) × (look_up dec e.0 es ≡ none) × IsKeyed es

  -- No key of the second dict stands in the first.
  abbrev IsApart : Inputs dec → Inputs dec → Type 0
  IsApart m es = All (λ e. look_up dec e.0 m ≡ none) es

  put_input-append :
      (i : CalculationInput dec) (m : Inputs dec)
      → look_up dec i.metric_code m ≡ none
      → put_input dec hash_trace i m ≡ m ++ (i.metric_code, i) ∷ []
  unfolding put_input look_up
  put_input-append i [] h = refl
  put_input-append i (e ∷ es) h = ground (arith, put_input-append i es)

  look_up-append :
      (n : Text) (m : Inputs dec) (e : Text × CalculationInput dec)
      → look_up dec n m ≡ none
      → text_eq e.0 n ≡ false
      → look_up dec n (m ++ e ∷ []) ≡ none
  unfolding look_up
  look_up-append n [] e h k = ground (arith, k)
  look_up-append n (x ∷ xs) e h k = ground (arith, look_up-append n xs e)

  absent-All :
      (n : Text) (es : Inputs dec) → look_up dec n es ≡ none → All (λ e. text_eq n e.0 ≡ false) es
  unfolding look_up
  absent-All n [] h = tt
  absent-All n (e ∷ es) h = elim (Bool-cases (text_eq e.0 n)) [
    | inl same ↦ ground (arith, same)
    | inr other ↦ (text_eq_sym n e.0 ∙ other, absent-All n es (ground (arith, other)))
  ]

  IsApart-append :
      (m : Inputs dec) (e : Text × CalculationInput dec) (es : Inputs dec)
      → IsApart m es
      → All (λ x. text_eq e.0 x.0 ≡ false) es
      → IsApart (m ++ e ∷ []) es
  IsApart-append m e [] h k = tt
  IsApart-append m e (x ∷ xs) h k = (look_up-append x.0 m e h.0 k.0, IsApart-append m e xs h.1 k.1)

  append_assoc {ℓ} :
      {A : Type ℓ} (xs : List A) (y : A) (ys : List A) → (xs ++ y ∷ []) ++ ys ≡ xs ++ y ∷ ys
  append_assoc [] y ys = refl
  append_assoc (x ∷ xs) y ys = ap (λ zs. x ∷ zs) (append_assoc xs y ys)

  none-IsApart : (es : Inputs dec) → IsApart [] es
  unfolding look_up
  none-IsApart [] = tt
  none-IsApart (e ∷ es) = (refl, none-IsApart es)

  -- Collecting the inputs of an artifact gives back the dict that they were taken from.
  collect_inputs-append :
      (m es : Inputs dec)
      → IsKeyed es
      → IsApart m es
      → collect_inputs dec hash_trace (map (λ e. e.1) es) m ≡ m ++ es
  unfolding collect_inputs
  collect_inputs-append m [] k a = sym (append_nil m)
  collect_inputs-append m (e ∷ es) k a =
      let fresh = subst (λ n. look_up dec n m ≡ none) k.0 a.0 in
      let entry = ap (λ n. (n, e.1)) (sym k.0) in
      let m' = m ++ e ∷ [] in
      ap (λ z. collect_inputs dec hash_trace (map (λ x. x.1) es) z)
        (put_input-append e.1 m fresh ∙ ap (λ x. m ++ x ∷ []) entry)
      ∙ collect_inputs-append m' es k.2 (IsApart-append m e es a.1 (absent-All e.0 es k.1))
      ∙ append_assoc m e es

  -- The artifact under another `uuid4`.
  abbrev pub renumbered : ℕ → CalculationArtifact dec → CalculationArtifact dec
  renumbered fresh a = record a { calculation_id = fresh }

  abbrev renumbered_result :
      ℕ → Result EvalError (CalculationArtifact dec) → Result EvalError (CalculationArtifact dec)
  renumbered_result fresh r = r >>= λ a. ok (renumbered fresh a)

  -- What an artifact takes over from the definition and the inputs.
  pub record IsOf (d : FormulaDefinition dec) (es : Inputs dec) (a : CalculationArtifact dec)
      : Type 0 where
    pub of_inputs : a.inputs ≡ map (λ e. e.1) es
    pub of_metric : a.metric_code ≡ d.metric_code
    pub of_version : a.formula_version ≡ d.version

  -- The run that ends in this result, and its rerun under another number.
  abbrev Reruns :
      FormulaDefinition dec
      → Inputs dec
      → ℕ
      → Result EvalError (CalculationArtifact dec)
      → Result EvalError (CalculationArtifact dec)
      → Type 0
  Reruns d es fresh (ok a) r = IsOf d es a × (r ≡ ok (renumbered fresh a))
  Reruns d es fresh (err e) r = Unit

  artifact-Reruns :
      (d : FormulaDefinition dec) (es : Inputs dec) (fresh again : ℕ) (s : CalculationStatus)
      (o : Option D)
      → Reruns d es again
          (ok (artifact dec hash_trace d es fresh s o))
          (ok (artifact dec hash_trace d es again s o))
  unfolding artifact
  artifact-Reruns d es fresh again s o =
      (record { of_inputs = refl; of_metric = refl; of_version = refl }, refl)

  result-Reruns :
      (d : FormulaDefinition dec) (es : Inputs dec) (fresh again : ℕ) (r : Result EvalError D)
      → Reruns d es again
          (r >>= λ x. ok (artifact dec hash_trace d es fresh calculated (some x)))
          (r >>= λ x. ok (artifact dec hash_trace d es again calculated (some x)))
  result-Reruns d es fresh again (ok x) = artifact-Reruns d es fresh again calculated (some x)
  result-Reruns d es fresh again (err e) = tt

  report-Reruns :
      (d : FormulaDefinition dec) (es : Inputs dec) (fresh again : ℕ) (r : Result EvalError D)
      → Reruns d es again (report dec hash_trace d es fresh r) (report dec hash_trace d es again r)
  unfolding report
  report-Reruns d es fresh again (ok raw) = result-Reruns d es fresh again (rounded dec d raw)
  report-Reruns d es fresh again (err (arithmetic undefined)) =
      artifact-Reruns d es fresh again division_by_zero none
  report-Reruns d es fresh again (err (arithmetic overflow)) = tt
  report-Reruns d es fresh again (err not_allowed) = tt
  report-Reruns d es fresh again (err unknown_name) = tt

  Reruns-if :
      (d : FormulaDefinition dec) (es : Inputs dec) (again : ℕ) (b : Bool)
      (x y x' y' : Result EvalError (CalculationArtifact dec))
      → Reruns d es again x x'
      → Reruns d es again y y'
      → Reruns d es again (if b then x else y) (if b then x' else y')
  Reruns-if d es again true x y x' y' h k = h
  Reruns-if d es again false x y x' y' h k = k

  compute-Reruns :
      (d : FormulaDefinition dec) (es : Inputs dec) (fresh again : ℕ)
      → Reruns d es again
          (compute_metric dec hash_trace d es fresh)
          (compute_metric dec hash_trace d es again)
  unfolding compute_metric
  compute-Reruns d es fresh again =
      Reruns-if d es again (is_missing_input dec d es) _ _ _ _
        (artifact-Reruns d es fresh again missing_input none)
        (Reruns-if d es again (has_period_conflict dec d es) _ _ _ _
          (artifact-Reruns d es fresh again period_conflict none)
          (Reruns-if d es again (has_source_conflict dec es) _ _ _ _
            (artifact-Reruns d es fresh again source_conflict none)
            (report-Reruns d es fresh again (evaluate dec (variables_of dec d es) d.expression))))

  rerun-consistent :
      (again : ℕ) (a : CalculationArtifact dec)
      → same_result dec hash_trace a.result a.result ≡ true
      → is_consistent dec hash_trace (renumbered again a) a ≡ true
  unfolding is_consistent
  rerun-consistent again a h =
      ground (arith, h, text_eq_refl a.trace_hash, ==_refl (status_code a.status))

  -- A metric that was computed replays: from its artifact alone, where the registry has the
  -- definition under its code and version, where the inputs were a dict by their own metric codes
  -- and the result is equal to itself (no NaN), the replay is consistent and gives the artifact
  -- again under its own number.
  pub replay-compute_metric :
      (formulas : List (FormulaDefinition dec)) (d : FormulaDefinition dec) (es : Inputs dec)
      (fresh again : ℕ) (a : CalculationArtifact dec)
      → compute_metric dec hash_trace d es fresh ≡ ok a
      → get_definition dec hash_trace formulas d.metric_code d.version ≡ some d
      → IsKeyed es
      → same_result dec hash_trace a.result a.result ≡ true
      → replay_calculation dec hash_trace formulas a again ≡ ok (true, some (renumbered again a))
  unfolding replay_calculation
  replay-compute_metric formulas d es fresh again a ran known keyed same =
      let (of, rerun) =
        subst (λ r. Reruns d es again r (compute_metric dec hash_trace d es again)) ran
          (compute-Reruns d es fresh again) in
      let back = collect_inputs-append [] es keyed (none-IsApart es) in
      let found =
        ap (λ n. get_definition dec hash_trace formulas n a.formula_version) of.of_metric
        ∙ ap (λ n. get_definition dec hash_trace formulas d.metric_code n) of.of_version
        ∙ known in
      let collected = ap (λ is. collect_inputs dec hash_trace is []) of.of_inputs ∙ back in
      simp (replay_calculation, found, collected, rerun, rerun-consistent again a same)
