-- ===== src/Lib.antt =====
-- flowctl: a workflow engine. A workflow is a set of steps and approvals with dependencies; the
-- server stores it, an execution of it is picked up by a worker, and the executor runs its nodes in
-- the order of the dependencies.
--
-- Parts, and the files that model them:
--   * Model (Model/*): the records of internal/model/workflow.go and internal/model/execution.go.
--     A Go `any` is `Value`; a map is an association list with one entry for each key; a pointer or
--     a nil map is an Option; time stamps and identifiers are numbers.
--   * StateMachine: internal/engine/statemachine.go, both transition tables and the methods of
--     `StateMachine`. StateMachine/Paths follows lists of requests.
--   * Dag (Dag/*): internal/engine/dag.go. Dag/Graph has `BuildDAG`, Dag/Ready `GetReadyNodes`,
--     Dag/Sort `TopologicalSort`. The order in which Go visits a map is the parameter `MapOrder`:
--     any function that visits each key once, another one for each iteration. Dag/Build, Edges,
--     Unknown, Declared, Degrees and the children of Dag/Sort hold the proofs.
--   * Validator (Validator/*): internal/validator/validator.go. An error's message keeps the text
--     and the quoted argument apart.
--   * Rbac (Rbac/*): internal/auth/rbac.go, its queries as computations on the rows of the tables.
--     Rbac/Middleware: internal/api/middleware/tenant.go and internal/api/middleware/rbac.go.
--   * Huml/Lexer, Huml/Scan: internal/huml/lexer.go. Huml/Scan has the loops over the characters of one
--     token, Huml/Lexer `Tokenize`.
--   * Huml/Chars, Huml/Expr: the expression parser of internal/huml/parser.go; Huml/Chars has the
--     loops over characters. Huml/Ast: internal/huml/ast.go. Huml/Parser: the parser of blocks and
--     assignments, on the tokens that are left. Huml/Convert: internal/huml/convert.go. Huml/Source:
--     `ParseHUML` of internal/huml/huml.go, the composition. `strconv.ParseFloat` and the text that `%v` makes of a
--     node are parameters.
--   * Huml/Evaluate: internal/huml/evaluator.go, `Evaluate` by recursion on the expression; Go's
--     float arithmetic and formatting are the record `Library`. Huml/Interpolate: `EvaluateString`.
--   * Huml/Context: the variables that expressions see (internal/huml/evaluator.go), and evaluation
--     as the interface that the executor uses.
--   * Executor (Executor/*): internal/engine/executor.go, with the interface of
--     internal/runner/runner.go. The executor is a program of actions that can fail (Effects). The
--     answers of the database, the runners, the clock and the context are the record `World`: the
--     interactions are numbered, and each answer may depend on its number. What the executor does
--     is a trace of events, newest first; a statement of the database that fails leaves no event.
--     Step has `executeStep`, Approval `handleApproval`, Transition `transitionExecution`, Execute
--     `Execute` itself. Keeps and its siblings hold the rules for invariants of actions,
--     Ensures those for what depends on an action's result. Trace says which events may stand where.
--   * Store: the table of executions of internal/repository/migrations/001_initial_schema.sql, with
--     its primary key and its unique key, and the statements on one row.
--   * Scheduler (Scheduler/*): internal/engine/scheduler.go, each operation as a function on the tables; a
--     statement may fail, and the advisory lock answers as it likes. Scheduler/Cluster has several
--     nodes as a step relation; `IsTimely` says of a run of the cluster that no node is taken
--     over while it runs something, which the heartbeat is there for and nothing checks.
--   * Handlers (Handlers/*): internal/api/handler/execution.go and internal/api/handler/approval.go, the requests that
--     change rows, from the parsed request to the answer and the new table. Handlers/Execution/Writes is
--     the relation of all writes to the table of executions: requests, schedulers and status changes, but
--     not the rows that go with a deleted workflow or tenant.
--   * Tests: sample workflows, tests at concrete runs, and each theorem with conditions at a
--     concrete input.
--
-- Fuel. `TopologicalSort` gets as many rounds as there are nodes, since each round visits a node or
-- ends with the cycle error; `Execute` gets one round more than there are nodes, since each round
-- completes a node; `Tokenize` gets as many passes as the text has characters, since each takes one
-- at least; the expression parser gets a level of
-- nesting for each character of the text and its loops a round for each character that is left, and
-- the parser of blocks the same in tokens, since each level and each round takes one; waiting
-- for an approval gets a number of polls, `patience`, as nothing in the
-- code bounds it. Running out of fuel is an error of its own (`unfinished`, `waiting`), which is
-- none of the code's errors.
--
-- Not modelled: the HTTP handlers that only read or that change workflows, tenants, secrets and
-- roles, the websocket, the command line, the scheduler's tickers
-- and its map of running executions, the identity providers,
-- the secret store, the runners' processes, the web front end and the SQL schema. `calculateBackoff` keeps the
-- wrap-around of its 64-bit product.
mod Prelude
pub mod Model
pub mod StateMachine
pub mod Dag
pub mod Huml
pub mod Validator
pub mod Rbac
pub mod Executor
pub mod Store
pub mod Scheduler
pub mod Handlers
mod Tests
