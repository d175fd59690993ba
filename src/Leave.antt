-- ===== src/Leave.antt =====
-- Leave requests: internal/service/leave_service.go over internal/repository/leave_repo.go.
pub mod Accruals
pub mod Minutes
pub mod Queries
pub mod Updates
pub mod Service
pub mod Steps
pub mod Inverts
pub mod Lifecycle
pub mod Invariant
pub mod Budget
pub mod Progress
