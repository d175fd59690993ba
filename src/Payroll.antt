-- ===== src/Payroll.antt =====
-- Payroll: internal/service/salary_payroll.go and the pay periods of internal/domain/salary.go.
pub mod Rates
pub mod Segments
pub mod LineItems
pub mod Periods
pub mod RuleTable
