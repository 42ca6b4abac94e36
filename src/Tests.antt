-- ===== src/Tests.antt =====
-- Sample workflows and executions, tests of the definitions on them, and the theorems applied to them.
mod Samples
mod Statuses
mod Graphs
mod Runs
mod Definitions
mod Lexing
mod Retries
mod Permissions
mod Sources
mod Evaluations
mod Nodes
mod Requests
