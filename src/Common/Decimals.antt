-- ===== src/Common/Decimals.antt =====
-- The arithmetic of Python's `decimal` that rounds. A Decimal is an integer number of units, so
-- sums, differences and comparisons are exact; products and quotients are rounded by the decimal
-- context, which is a parameter: the operations, and what the code relies on.
use mathlib.Core.Option.{Option, none, some}
use nse_agent.Common.Tests.{if◌then◌else◌}
use nse_agent.Common.Int.{ℤ, pos, eqb_ℤ, ◌<ℤ◌}

-- `one` is Decimal("1"), which fixes the unit. `quotient` is the rounded quotient at a divisor
-- that is not zero.
pub record Context : Type 0 where
  pub one : ℤ
  pub product : ℤ → ℤ → ℤ
  pub quotient : ℤ → ℤ → ℤ

-- `a / b`: division by zero raises.
unfoldable pub divide : Context → ℤ → ℤ → Option ℤ
divide ctx a b = if eqb_ℤ b (pos 0) then none else some (ctx.quotient a b)

-- What rounding keeps at the values of the program: no positive product or quotient underflows
-- to zero.
pub record IsPositive (ctx : Context) : Type 0 where
  pub product_pos : (a b : ℤ) → pos 0 <ℤ a → pos 0 <ℤ b → pos 0 <ℤ ctx.product a b
  pub quotient_pos : (a b : ℤ) → pos 0 <ℤ a → pos 0 <ℤ b → pos 0 <ℤ ctx.quotient a b
