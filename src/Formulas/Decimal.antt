-- ===== src/Formulas/Decimal.antt =====
-- All that formulas/engine.py does with `decimal.Decimal` under the default context, whose
-- precision, rounding and signals are those of an instance: an operation gives a number or raises.
use creditlens.Base.{ℕ, Bool}
use creditlens.Base.Result.{Result}
use creditlens.Base.Text.{Text}

pub data ArithmeticError : Type 0 where
  -- `DivisionByZero`, `InvalidOperation` or `ZeroDivisionError`
  undefined : ArithmeticError
  -- `Overflow`, which the engine does not catch
  overflow : ArithmeticError

pub record Decimal : Type 1 where
  pub D : Type 0
  pub plus : D → D → Result ArithmeticError D
  pub minus : D → D → Result ArithmeticError D
  pub times : D → D → Result ArithmeticError D
  pub divide : D → D → Result ArithmeticError D
  pub quantize : D → D → Result ArithmeticError D
  -- `Decimal(n)`, and `Decimal(str(literal))`
  pub of_nat : ℕ → D
  pub of_literal : Text → Result ArithmeticError D
  pub equal : D → D → Bool
