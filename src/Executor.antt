-- ===== src/Executor.antt =====
-- internal/engine/executor.go: the run of one execution.
pub mod World
pub mod Effects
mod Keeps
mod KeepsSteps
mod KeepsApprovals
mod KeepsExecute
mod Ensures
pub mod Trace
pub mod History
pub mod Backoff
pub mod Step
pub mod Transition
pub mod Approval
pub mod Execute
