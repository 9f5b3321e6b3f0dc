-- ===== src/Formulas/Evaluation.antt =====
-- An allowed expression over known names gives a number or an error of arithmetic.
use creditlens.Base.{
  ◌≡◌, refl, Bool, true, false, Option, none, some, List, [], ◌∷◌, ◌&&◌, &&_true, is_some, length,
}
use creditlens.Base.Result.{Result, ok, err, ◌>>=◌}
use creditlens.Base.Text.{Text}
use creditlens.Formulas.Decimal.{Decimal, ArithmeticError}
use creditlens.Formulas.Engine.{
  Operator, Expr, Exprs, binop, name, number, call, other_node, no_args, arg, add, sub, mult, div,
  other_operator, EvalError, arithmetic, not_allowed, unknown_name, calc, apply, variable, sum_from,
  average, is_average, evaluate, evaluate_all, look_up,
}

unfoldable pub is_allowed_operator : Operator → Bool
is_allowed_operator other_operator = false
is_allowed_operator _ = true

-- An error that a formula of the registry is meant not to have.
unfoldable pub is_fault {ℓ} : {A : Type ℓ} → Result EvalError A → Bool
is_fault (err not_allowed) = true
is_fault (err unknown_name) = true
is_fault _ = false

module _ (dec : Decimal) where
  open dec use {D, plus, of_nat, of_literal, divide}

  -- The expression has only what `_SafeEvaluator` allows, over the names of the variables.
  unfoldable mutual
    pub is_allowed : List (Text × D) → Expr → Bool
    is_allowed vars (binop op l r) =
        is_allowed_operator op && (is_allowed vars l && is_allowed vars r)
    is_allowed vars (name n) = is_some (look_up dec n vars)
    is_allowed vars (number literal) = true
    is_allowed vars (call f args) = is_average dec f && are_allowed vars args
    is_allowed vars other_node = false

    pub are_allowed : List (Text × D) → Exprs → Bool
    are_allowed vars no_args = true
    are_allowed vars (arg e rest) = is_allowed vars e && are_allowed vars rest

  calc-is_fault {ℓ} : {A : Type ℓ} (r : Result ArithmeticError A) → is_fault (calc r) ≡ false
  unfolding calc is_fault
  calc-is_fault (ok a) = refl
  calc-is_fault (err e) = refl

  ok_is_no_fault {ℓ} : {A : Type ℓ} (a : A) → is_fault (ok a) ≡ false
  unfolding is_fault
  ok_is_no_fault a = refl

  bind-is_fault {ℓ κ} :
      {A : Type ℓ} {B : Type κ} (r : Result EvalError A) (f : A → Result EvalError B)
      → is_fault r ≡ false
      → ((a : A) → is_fault (f a) ≡ false)
      → is_fault (r >>= f) ≡ false
  unfolding is_fault
  bind-is_fault (ok a) f h k = k a
  bind-is_fault (err (arithmetic e)) f h k = refl
  bind-is_fault (err not_allowed) f h k = h
  bind-is_fault (err unknown_name) f h k = h

  apply-is_fault :
      (op : Operator) (a b : D)
      → is_allowed_operator op ≡ true
      → is_fault (apply dec op a b) ≡ false
  unfolding apply is_allowed_operator
  apply-is_fault add a b h = calc-is_fault _
  apply-is_fault sub a b h = calc-is_fault _
  apply-is_fault mult a b h = calc-is_fault _
  apply-is_fault div a b h = calc-is_fault _
  apply-is_fault other_operator a b h = cc

  variable-is_fault : (o : Option D) → is_some o ≡ true → is_fault (variable dec o) ≡ false
  unfolding variable is_fault
  variable-is_fault none h = cc
  variable-is_fault (some d) h = refl

  sum_from-is_fault : (acc : D) (ds : List D) → is_fault (sum_from dec acc ds) ≡ false
  unfolding sum_from is_fault
  sum_from-is_fault acc [] = refl
  sum_from-is_fault acc (d ∷ ds) =
      bind-is_fault (calc (plus acc d)) (λ next. sum_from dec next ds) (calc-is_fault (plus acc d))
        λ next. sum_from-is_fault next ds

  average-is_fault : (ds : List D) → is_fault (average dec ds) ≡ false
  unfolding average
  average-is_fault ds =
      bind-is_fault (sum_from dec (of_nat 0) ds) (λ total. calc (divide total (of_nat (length ds))))
        (sum_from-is_fault (of_nat 0) ds) λ total. calc-is_fault _

  mutual
    unfolding evaluate is_allowed

    expr-is_fault :
        (vars : List (Text × D)) (e : Expr)
        → is_allowed vars e ≡ true
        → is_fault (evaluate dec vars e) ≡ false
    expr-is_fault vars (binop op l r) h =
        let (op_ok, both) =
          &&_true (is_allowed_operator op) (is_allowed vars l && is_allowed vars r) h in
        let (l_ok, r_ok) = &&_true (is_allowed vars l) (is_allowed vars r) both in
        bind-is_fault (evaluate dec vars l) (λ a. evaluate dec vars r >>= λ b. apply dec op a b)
          (expr-is_fault vars l l_ok)
          λ a.
            bind-is_fault (evaluate dec vars r) (λ b. apply dec op a b) (expr-is_fault vars r r_ok)
              λ b. apply-is_fault op a b op_ok
    expr-is_fault vars (name n) h = variable-is_fault (look_up dec n vars) h
    expr-is_fault vars (number literal) h = calc-is_fault (of_literal literal)
    expr-is_fault vars (call f args) h =
        let (f_ok, args_ok) = &&_true (is_average dec f) (are_allowed vars args) h in
        rw f_ok (
          bind-is_fault (evaluate_all dec vars args) (average dec)
            (exprs-is_fault vars args args_ok) average-is_fault)
    expr-is_fault vars other_node h = cc

    exprs-is_fault :
        (vars : List (Text × D)) (es : Exprs)
        → are_allowed vars es ≡ true
        → is_fault (evaluate_all dec vars es) ≡ false
    exprs-is_fault vars no_args h = ok_is_no_fault []
    exprs-is_fault vars (arg e rest) h =
        let (e_ok, rest_ok) = &&_true (is_allowed vars e) (are_allowed vars rest) h in
        bind-is_fault (evaluate dec vars e) (λ d. evaluate_all dec vars rest >>= λ ds. ok (d ∷ ds))
          (expr-is_fault vars e e_ok)
          λ d.
            bind-is_fault (evaluate_all dec vars rest) (λ ds. ok (d ∷ ds))
              (exprs-is_fault vars rest rest_ok) λ ds. ok_is_no_fault (d ∷ ds)

  -- An expression of the nodes that the evaluator allows, over names that have values, never ends
  -- in the error for a node or the error for a name: it gives a number or an error of arithmetic.
  pub evaluate-is_fault :
      (vars : List (Text × D)) (e : Expr)
      → is_allowed vars e ≡ true
      → is_fault (evaluate dec vars e) ≡ false
  evaluate-is_fault vars e h = expr-is_fault vars e h
