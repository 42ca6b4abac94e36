-- ===== src/Executor/Trace.antt =====
-- The order of the events of `Execute` (internal/engine/executor.go): what is complete when a command runs.
pub mod Events
pub mod Nodes
pub mod Loop
