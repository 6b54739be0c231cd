-- ===== src/Scheduler.antt =====
-- pkg/scheduler/scheduler.go
pub mod State
pub mod Submit
pub mod Runtime
pub mod Complete
pub mod Dispatch
pub mod Attempt
pub mod Execute
pub mod Cancel
mod Tests
