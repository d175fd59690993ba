-- ===== src/Examples.antt =====
-- Runs of the modelled code at concrete inputs.
pub mod Times
pub mod Payroll
pub mod Payout
pub mod Swap
pub mod Leave
pub mod Overtime
pub mod Expense
use hrbackend.Prelude.{ℕ, ◌+◌, ◌*◌, ◌/◌, ltb, false, none, some, if◌then◌else◌}
use hrbackend.Prelude.Int.{ℤ, pos, pos_part}
use hrbackend.Floats.{Floats}

-- Whole amounts, in place of float64.
abbrev pub whole : Floats
whole = record {
  Float = ℕ;
  of_ℕ = λ n. n;
  of_ℤ = λ z. pos_part z;
  ◌+F◌ = λ a b. a + b;
  ◌*F◌ = λ a b. a * b;
  ◌/F◌ = λ a b. a / b;
  round = λ a. a;
  truncate = λ a. pos a;
  is_positive = λ a. ltb 0 a;
  is_negative = λ a. false;
  to_rate = λ a. if ltb a 10000000000 then some a else none;
  to_amount = λ a. if ltb a 1000000000000 then some a else none;
}
