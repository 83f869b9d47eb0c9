-- ===== src/Service.antt =====
-- internal/service: the limits that the service layer sets to a task.
pub mod Budget
pub mod Retry
mod Tests
