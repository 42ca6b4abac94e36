-- ===== src/Handlers.antt =====
-- internal/api/handler: the requests that change executions and approvals.
pub mod Execution
pub mod Approval
