-- ===== src/Swap.antt =====
-- Shift swaps: internal/service/schedule_shift_swap.go over the queries of
-- internal/repository/db/query/shift_swap.sql, as internal/repository/schedule_repo.go calls them. The
-- constraints are those of migrations/000001_init.up.sql. Notifications and listings are left out. A call
-- returns the key or the row of the swap in place of its details: an argument `details` has the error
-- of `GetShiftSwapRequestDetailsByID`, which is read after the write, if that returns one. `now` is the clock of the
-- service and of the database.
pub mod Tables
pub mod Queries
pub mod Service
pub mod Exchange
pub mod Bookings
pub mod ByAdmin
pub mod Atomic
pub mod Answers
