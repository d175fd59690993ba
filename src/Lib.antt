-- ===== src/Lib.antt =====
-- hrbackend: a model of the core rules of a human-resources backend (Go, PostgreSQL) and their
-- correctness.
--
-- The program. HTTP handlers (internal/handler) call services (internal/service), which hold the
-- rules and read and write the database through repositories (internal/repository), several writes
-- at a time in a transaction (internal/repository/db/store.go). Payroll turns a work item (a
-- shift, an approved overtime entry, a leave payout) into lines, minute by minute, at the
-- irregular-hours rate of the minute; pay periods are four ISO weeks long. Leave payouts turn
-- leave balance into money under an administrator's decision; leave requests are granted from the
-- same balance. Overtime entries are submitted, decided, and paid with a pay period; expense
-- requests are decided and reimbursed. Shift swaps exchange two scheduled shifts of two employees
-- after both the recipient and an administrator agreed.
--
-- The files.
-- - Prelude: shared names; numbers with Go's int32 (Prelude/Int), strings (Prelude/GoText), results,
--   options, lists, Boolean tests.
-- - Time, Time/Calendar: times as seconds since Monday 1 January of the year 1, the proleptic
--   Gregorian calendar and ISO weeks as package time computes them.
-- - Params: keys and parameters that may be missing, as the services treat them.
-- - Clock: times of day as text (pkg/conv/pg.go); time.Parse for the two layouts in use.
-- - Floats: float64 as an interface, with what the payouts' two decimal columns keep of a
--   value. Nothing that is proved rests on a law of it.
-- - Store, Store/Table: database actions, Store.ExecTx, and tables under a primary key.
-- - Payroll/Rates, Payroll/RuleTable: ortRateForMinute, appliedPayrollRateForMinute, GetORTRules.
-- - Payroll/Segments: the minute loop of buildPayrollPreviewLineItems. Its fuel is one round for each
--   minute begun, and the loop never runs out of it.
-- - Payroll/LineItems: parseWorkItemBounds, buildPayrollPreviewLineItems and its siblings, all in
--   internal/service/salary_payroll.go.
-- - Payroll/Periods: the pay periods of internal/domain/salary.go, with a year's weeks as fuel for
--   payrollPeriodOptionsForYear.
-- - Balance: the leave tables and the balance queries of internal/repository/payout_repo.go.
-- - Payout, Payout/Service: internal/service/payout_service.go. Payout/Budget, Creation, Decision,
--   Direct, Atomic, Lifecycle, Settled and Progress hold the proofs; Lifecycle states each call as a
--   step on the requests.
-- - Leave: internal/service/leave_service.go over internal/repository/leave_repo.go. Leave/Minutes has
--   the day loop, whose fuel is the days up to the end, Leave/Accruals the split of used leave,
--   Leave/Updates the normal form of an update, Leave/Queries the writes, Leave/Service the calls.
--   Leave/Steps, Inverts and Lifecycle turn each call into a step on the requests; Leave/Invariant,
--   Budget and Progress draw on the steps.
-- - Settlement: the leave and the payout service in any order on one balance.
-- - Overtime: internal/service/overtime_service.go over internal/repository/overtime_repo.go, with the
--   calls in Overtime/Service and the same division of the proofs.
-- - Expense: internal/service/expense_service.go over internal/repository/expense_repo.go, divided in
--   the same way; Expense/Travel is about the travel fields.
-- - Swap: Swap/Tables, Swap/Queries and Swap/Service model
--   internal/service/schedule_shift_swap.go over internal/repository/schedule_repo.go;
--   Swap/Exchange, Bookings, ByAdmin, Answers and Atomic hold the
--   proofs.
-- - Examples: runs at concrete inputs.
--
-- Not modelled: concurrency of transactions (the services lock the rows that they decide on), lost
-- connections, notifications, listings, HTTP, and the other services (schedules, documents,
-- training and so on). The legal leave of a year, the contract at a date and an employee's
-- contract rate come from the database and are parameters. So is the error of the
-- read of a swap's details after its write, if there is one. Fractions of a second are cut off where the code formats times.
pub mod Prelude
pub mod Time
pub mod Params
pub mod Clock
pub mod Floats
pub mod Store
pub mod Balance
pub mod Leave
pub mod Payout
pub mod Settlement
pub mod Overtime
pub mod Expense
pub mod Swap
pub mod Payroll
pub mod Examples
