-- ===== src/Formulas/Tests.antt =====
-- A leverage ratio over whole numbers, computed and replayed.
use creditlens.Base.{
  ℕ, zero, suc, ◌+◌, ◌-◌, ◌*◌, ◌/◌, ◌≡◌, refl, true, false, none, some, [], ◌∷◌, ◌==◌,
}
use creditlens.Base.Result.{Result, ok, err}
use creditlens.Base.Text.{Text, codes}
use creditlens.Formulas.Decimal.{Decimal, ArithmeticError, undefined}
use creditlens.Formulas.Engine.{
  binop, name, number, call, arg, no_args, div, FormulaDefinition, CalculationInput,
  CalculationArtifact, Inputs, same_instant, calculated, missing_input, compute_metric,
  replay_calculation, artifact, is_average, evaluate, get_definition, look_up, same_result,
}
use creditlens.Formulas.Evaluation.{evaluate-is_fault, is_fault, is_allowed, is_allowed_operator}
use creditlens.Formulas.Replay.{replay-compute_metric, renumbered, IsKeyed}
use creditlens.Formulas.Status.{compute_metric-Explains, Explains}

abbrev divided : ℕ → ℕ → Result ArithmeticError ℕ
divided a zero = err undefined
divided a (suc b) = ok (a / suc b)

abbrev digits : ℕ → Text → ℕ
digits acc [] = acc
digits acc (c ∷ cs) = digits (acc * 10 + (c - 48)) cs

abbrev pub whole : Decimal
whole = record {
  D = ℕ;
  plus = λ a b. ok (a + b);
  minus = λ a b. ok (a - b);
  times = λ a b. ok (a * b);
  divide = divided;
  quantize = λ a r. ok a;
  of_nat = λ n. n;
  of_literal = λ t. ok (digits 0 t);
  equal = ◌==◌;
}

abbrev pub hash : FormulaDefinition whole → Inputs whole → Text
hash d es = d.metric_code

abbrev pub leverage : FormulaDefinition whole
leverage = record {
  metric_code = codes "leverage";
  display_name = codes "Leverage";
  version = codes "1";
  expression = binop div (name (codes "debt")) (
      call (some (codes "average"))
        (arg (name (codes "equity")) (arg (number (codes "20")) no_args)));
  required_inputs = codes "debt" ∷ codes "equity" ∷ [];
  period_rule = same_instant;
  result_unit = codes "percent";
  rounding = 1;
  zero_policy = codes "error";
  parameters = [];
}

abbrev pub input : Text → ℕ → CalculationInput whole
input code value = record {
  fact_id = value;
  metric_code = code;
  raw_value = value;
  canonical_value = value;
  unit = codes "CNY";
  period_start = none;
  period_end = 2024;
  consolidation_scope = codes "CONSOLIDATED";
}

abbrev pub balance : Inputs whole
balance =
    (codes "debt", input (codes "debt") 100) ∷ (codes "equity", input (codes "equity") 30) ∷ []

abbrev pub computed : CalculationArtifact whole
computed = record {
  calculation_id = 7;
  metric_code = codes "leverage";
  formula_version = codes "1";
  expression = leverage.expression;
  inputs = input (codes "debt") 100 ∷ input (codes "equity") 30 ∷ [];
  parameters = [];
  result = some 400;
  result_unit = codes "percent";
  status = calculated;
  trace_hash = codes "leverage";
}

leverage-computed : compute_metric whole hash leverage balance 7 ≡ ok computed
unfolding compute_metric artifact
leverage-computed = refl

without_equity : Inputs whole → CalculationArtifact whole
without_equity es = artifact whole hash leverage es 8 missing_input none

half_computed :
    compute_metric whole hash leverage ((codes "debt", input (codes "debt") 100) ∷ []) 8
    ≡ ok (without_equity ((codes "debt", input (codes "debt") 100) ∷ []))
unfolding compute_metric without_equity
half_computed = refl

leverage_allowed :
    is_allowed whole ((codes "debt", 100) ∷ (codes "equity", 30) ∷ []) leverage.expression ≡ true
unfolding is_allowed is_allowed_operator look_up is_average
leverage_allowed = refl

leverage_known :
    get_definition whole hash (leverage ∷ []) (codes "leverage") (codes "1") ≡ some leverage
unfolding get_definition
leverage_known = refl

balance-IsKeyed : IsKeyed whole hash balance
unfolding look_up
balance-IsKeyed = (refl, refl, (refl, refl, tt))

computed_same : same_result whole hash (some 400) (some 400) ≡ true
unfolding same_result
computed_same = refl

evaluate-is_fault_example :
    is_fault (evaluate whole ((codes "debt", 100) ∷ (codes "equity", 30) ∷ []) leverage.expression)
    ≡ false
evaluate-is_fault_example =
    evaluate-is_fault whole ((codes "debt", 100) ∷ (codes "equity", 30) ∷ []) leverage.expression
      leverage_allowed

replay-compute_metric_example :
    replay_calculation whole hash (leverage ∷ []) computed 8
    ≡ ok (true, some (renumbered whole hash 8 computed))
replay-compute_metric_example =
    replay-compute_metric whole hash (leverage ∷ []) leverage balance 7 8 computed leverage-computed
      leverage_known balance-IsKeyed computed_same

compute_metric-Explains_example : Explains whole hash leverage balance computed calculated
compute_metric-Explains_example =
    compute_metric-Explains whole hash leverage balance 7 computed leverage-computed
