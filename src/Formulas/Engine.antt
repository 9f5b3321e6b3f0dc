-- ===== src/Formulas/Engine.antt =====
-- `_SafeEvaluator`, `compute_metric` and `replay_calculation` (formulas/engine.py). An expression is
-- its syntax tree, as `ast.parse` gives it. The JSON text and SHA-256 of a trace are a parameter.
use creditlens.Base.{
  ℕ, ◌++◌, Bool, true, false, Option, none, some, List, [], ◌∷◌, map, ◌&&◌, not, ◌==◌,
  if◌then◌else◌, length, filter, find, any, ◌++◌, is_some,
}
use creditlens.Base.Result.{Result, ok, err, ◌>>=◌}
use creditlens.Base.Text.{Text, codes, text_eq}
use creditlens.Formulas.Decimal.{Decimal, ArithmeticError, undefined}

pub data Operator : Type 0 where
  add sub mult div other_operator : Operator

mutual
  pub data Expr : Type 0 where
    binop : Operator → Expr → Expr → Expr
    name : Text → Expr
    -- A constant that is an `int` or a `float`, by its text.
    number : Text → Expr
    -- A call by its function's name, which another callee has not, and its positional arguments.
    call : Option Text → Exprs → Expr
    other_node : Expr

  pub data Exprs : Type 0 where
    no_args : Exprs
    arg : Expr → Exprs → Exprs

pub data EvalError : Type 0 where
  arithmetic : ArithmeticError → EvalError
  -- `ValueError`, for a node that is not allowed
  not_allowed : EvalError
  -- `KeyError`
  unknown_name : EvalError

-- An operation of the numbers, among the errors of an evaluation.
unfoldable pub calc {ℓ} : {A : Type ℓ} → Result ArithmeticError A → Result EvalError A
calc (ok a) = ok a
calc (err e) = err (arithmetic e)

pub data PeriodRule : Type 0 where
  same_instant same_period other_rule : PeriodRule

pub data CalculationStatus : Type 0 where
  calculated missing_input division_by_zero period_conflict source_conflict : CalculationStatus

unfoldable pub status_code : CalculationStatus → ℕ
status_code calculated = 0
status_code missing_input = 1
status_code division_by_zero = 2
status_code period_conflict = 3
status_code source_conflict = 4

module _ (dec : Decimal) where
  open dec use {D, plus, minus, times, divide, quantize, of_nat, of_literal, equal}

  pub record FormulaDefinition : Type 0 where
    pub metric_code : Text
    pub display_name : Text
    pub version : Text
    pub expression : Expr
    pub required_inputs : List Text
    pub period_rule : PeriodRule
    pub result_unit : Text
    pub rounding : D
    pub zero_policy : Text
    pub parameters : List (Text × D)

  pub record CalculationInput : Type 0 where
    pub fact_id : ℕ
    pub metric_code : Text
    pub raw_value : D
    pub canonical_value : D
    pub unit : Text
    pub period_start : Option ℕ
    pub period_end : ℕ
    pub consolidation_scope : Text

  pub record CalculationArtifact : Type 0 where
    pub calculation_id : ℕ
    pub metric_code : Text
    pub formula_version : Text
    pub expression : Expr
    pub inputs : List CalculationInput
    pub parameters : List (Text × D)
    pub result : Option D
    pub result_unit : Text
    pub status : CalculationStatus
    pub trace_hash : Text

  abbrev pub Variables : Type 0
  Variables = List (Text × D)

  -- A dict by name, at its first entry of that name.
  unfoldable pub look_up {ℓ} : {A : Type ℓ} → Text → List (Text × A) → Option A
  look_up n [] = none
  look_up n (e ∷ es) = if text_eq e.0 n then some e.1 else look_up n es

  unfoldable pub apply : Operator → D → D → Result EvalError D
  unfolding calc
  apply add a b = calc (plus a b)
  apply sub a b = calc (minus a b)
  apply mult a b = calc (times a b)
  apply div a b = calc (divide a b)
  apply other_operator a b = err not_allowed

  unfoldable pub variable : Option D → Result EvalError D
  variable none = err unknown_name
  variable (some d) = ok d

  -- `sum(values)`, which starts from 0.
  unfoldable pub sum_from : D → List D → Result EvalError D
  unfolding calc
  sum_from acc [] = ok acc
  sum_from acc (d ∷ ds) = do next ← calc (plus acc d); sum_from next ds

  unfoldable pub average : List D → Result EvalError D
  unfolding sum_from
  average ds = do total ← sum_from (of_nat 0) ds; calc (divide total (of_nat (length ds)))

  unfoldable pub is_average : Option Text → Bool
  is_average none = false
  is_average (some f) = text_eq f (codes "average")

  -- `_SafeEvaluator._eval`
  unfoldable mutual
    unfolding look_up apply variable average is_average calc

    pub evaluate : Variables → Expr → Result EvalError D
    evaluate vars (binop op l r) = do
      left ← evaluate vars l
      right ← evaluate vars r
      apply op left right
    evaluate vars (name n) = variable (look_up n vars)
    evaluate vars (number literal) = calc (of_literal literal)
    evaluate vars (call f args) =
        if is_average f then evaluate_all vars args >>= average else err not_allowed
    evaluate vars other_node = err not_allowed

    pub evaluate_all : Variables → Exprs → Result EvalError (List D)
    evaluate_all vars no_args = ok []
    evaluate_all vars (arg e rest) = do
      d ← evaluate vars e
      ds ← evaluate_all vars rest
      ok (d ∷ ds)

  abbrev pub Inputs : Type 0
  Inputs = List (Text × CalculationInput)

  -- Whether a set of numbers or texts has two members.
  unfoldable pub differ : {A : Type 0} → (A → A → Bool) → List A → Bool
  differ same [] = false
  differ same (x ∷ xs) = any (λ y. not (same x y)) xs

  unfoldable pub is_one_period : PeriodRule → Bool
  is_one_period same_instant = true
  is_one_period same_period = true
  is_one_period other_rule = false

  unfoldable pub is_missing_input : FormulaDefinition → Inputs → Bool
  unfolding look_up
  is_missing_input d inputs = any (λ n. not (is_some (look_up n inputs))) d.required_inputs

  unfoldable pub has_period_conflict : FormulaDefinition → Inputs → Bool
  unfolding differ is_one_period
  has_period_conflict d inputs =
      is_one_period d.period_rule && differ (λ a b. a == b) (map (λ e. e.1.period_end) inputs)

  unfoldable pub has_source_conflict : Inputs → Bool
  unfolding differ
  has_source_conflict inputs =
      differ text_eq (
        filter (λ s. not (text_eq s (codes "UNKNOWN"))) (map (λ e. e.1.consolidation_scope) inputs))

  -- `variables.update(definition.parameters)`: a parameter hides an input of its name.
  unfoldable pub variables_of : FormulaDefinition → Inputs → Variables
  variables_of d inputs = d.parameters ++ map (λ e. (e.0, e.1.canonical_value)) inputs

  unfoldable pub percentage : FormulaDefinition → D → Result EvalError D
  unfolding calc
  percentage d raw = do
    hundredfold ← calc (times raw (of_nat 100))
    calc (quantize hundredfold d.rounding)

  -- The number that is reported: of a percentage, a hundred times the raw one.
  unfoldable pub rounded : FormulaDefinition → D → Result EvalError D
  unfolding percentage
  rounded d raw = do
    result ← calc (quantize raw d.rounding)
    (if text_eq d.result_unit (codes "percent") then percentage d raw else ok result)

  module _ (hash_trace : FormulaDefinition → Inputs → Text) where
    unfoldable pub artifact :
        FormulaDefinition → Inputs → ℕ → CalculationStatus → Option D → CalculationArtifact
    artifact d inputs fresh status result = record {
      calculation_id = fresh;
      metric_code = d.metric_code;
      formula_version = d.version;
      expression = d.expression;
      inputs = map (λ e. e.1) inputs;
      parameters = d.parameters;
      result = result;
      result_unit = d.result_unit;
      status = status;
      trace_hash = hash_trace d inputs;
    }

    -- What the evaluation's end is reported as; errors that are not caught go on.
    unfoldable pub report :
        FormulaDefinition → Inputs → ℕ → Result EvalError D → Result EvalError CalculationArtifact
    unfolding artifact rounded
    report d inputs fresh (ok raw) = do
      result ← rounded d raw
      ok (artifact d inputs fresh calculated (some result))
    report d inputs fresh (err (arithmetic undefined)) =
        ok (artifact d inputs fresh division_by_zero none)
    report d inputs fresh (err e) = err e

    unfoldable pub compute_metric :
        FormulaDefinition → Inputs → ℕ → Result EvalError CalculationArtifact
    unfolding is_missing_input has_period_conflict has_source_conflict variables_of evaluate
        artifact report
    compute_metric d inputs fresh =
        if is_missing_input d inputs
        then ok (artifact d inputs fresh missing_input none)
        else if has_period_conflict d inputs
        then ok (artifact d inputs fresh period_conflict none)
        else if has_source_conflict inputs
        then ok (artifact d inputs fresh source_conflict none)
        else report d inputs fresh (evaluate (variables_of d inputs) d.expression)

    -- `inputs[item.metric_code] = item`: an entry of the name is replaced where it stands.
    unfoldable pub put_input : CalculationInput → Inputs → Inputs
    put_input i [] = (i.metric_code, i) ∷ []
    put_input i (e ∷ es) = if text_eq e.0 i.metric_code then (e.0, i) ∷ es else e ∷ put_input i es

    unfoldable pub collect_inputs : List CalculationInput → Inputs → Inputs
    unfolding put_input
    collect_inputs [] m = m
    collect_inputs (i ∷ is) m = collect_inputs is (put_input i m)

    unfoldable pub same_result : Option D → Option D → Bool
    same_result none none = true
    same_result (some a) (some b) = equal a b
    same_result _ _ = false

    unfoldable pub is_consistent : CalculationArtifact → CalculationArtifact → Bool
    unfolding status_code same_result
    is_consistent replayed original =
        text_eq replayed.trace_hash original.trace_hash
        && status_code replayed.status == status_code original.status
        && same_result replayed.result original.result

    -- `registry.get`, whose key joins the code and the version.
    unfoldable pub get_definition : List FormulaDefinition → Text → Text → Option FormulaDefinition
    get_definition formulas code version =
        find (λ d. text_eq (d.metric_code ++ codes "@" ++ d.version) (code ++ codes "@" ++ version))
          formulas

    unfoldable pub replay_calculation :
        List FormulaDefinition
        → CalculationArtifact
        → ℕ
        → Result EvalError (Bool × Option CalculationArtifact)
    unfolding get_definition collect_inputs compute_metric is_consistent
    replay_calculation formulas original fresh =
        elim (get_definition formulas original.metric_code original.formula_version) [
          | none ↦ ok (false, none)
          | some d ↦ do
            replayed ← compute_metric d (collect_inputs original.inputs []) fresh
            ok (is_consistent replayed original, some replayed)
        ]
