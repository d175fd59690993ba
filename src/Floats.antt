-- ===== src/Floats.antt =====
-- The float64 operations that the payroll code applies to money, as an interface: the arithmetic of
-- amounts is rounded binary arithmetic, and nothing proved here rests on a law of it. The interface
-- also has the two decimal columns that the payout requests keep amounts in (the schema's
-- `hourly_rate DECIMAL(10,2)` and `gross_amount DECIMAL(12,2)`): what the database makes of a value
-- that is written to one.
use hrbackend.Prelude.{ℕ, Bool, Option}
use hrbackend.Prelude.Int.{ℤ}

pub record Floats : Type 1 where
  pub Float : Type 0
  -- `float64(n)` and the whole constants
  pub of_ℕ : ℕ → Float
  pub of_ℤ : ℤ → Float
  pub ◌+F◌ : Float → Float → Float
  pub ◌*F◌ : Float → Float → Float
  pub ◌/F◌ : Float → Float → Float
  -- `math.Round`
  pub round : Float → Float
  -- `int32(v)`
  pub truncate : Float → ℤ
  -- `v > 0`
  pub is_positive : Float → Bool
  -- `v < 0`
  pub is_negative : Float → Bool
  -- the value as a DECIMAL(10,2) column keeps it, none on a numeric overflow
  pub to_rate : Float → Option Float
  -- the same for a DECIMAL(12,2) column
  pub to_amount : Float → Option Float

module _ (F : Floats) where
  open F use {Float, of_ℕ, ◌*F◌, ◌/F◌, round}

  -- `roundCurrency` of internal/service/salary_payroll.go.
  unfoldable pub round_currency : Float → Float
  round_currency v = ◌/F◌ (round (◌*F◌ v (of_ℕ 100))) (of_ℕ 100)
