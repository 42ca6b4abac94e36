-- ===== src/Handlers/Execution.antt =====
-- internal/api/handler/execution.go: `Start`, `Cancel` and `Retry`, from the parsed request to the answer.
-- Each statement may fail; the rows of the workflows are those of the scheduler's model.
pub mod Used
pub mod Writes
pub mod Keys
pub mod Tenants
use flow_ctl.Prelude.{
  ℕ, String, Bool, true, false, Option, none, some, List, [], ◌∷◌, ◌==◌, ◌&&◌, ◌||◌, not, eqb,
  if◌then◌else◌, Assoc,
}
use flow_ctl.Model.Value.{Value}
use flow_ctl.Model.Execution.{ExecutionStatus}
use flow_ctl.Store.{ExecutionRow, Executions, row_of, update_row, same_key, insert_row}
use flow_ctl.Scheduler.{WorkflowRow, active_version}

-- The HTTP status with the message of an error or what the answer names.
pub data Response : Type 0 where
  failure : (code : ℕ) → (message : String) → Response
  existing : (id : ℕ) → Response
  created : (id : ℕ) → Response
  cancelled : Response

-- Which statements succeed.
pub record Faults : Type 0 where
  pub lookup : Bool
  pub version : Bool
  pub insert : Bool

-- `workflow` is the URL parameter, or else the field of the body, as `parseUUID` reads it.
pub record StartRequest : Type 0 where
  pub workflow : Option ℕ
  pub inputs : Option (Assoc Value)
  pub idempotency_key : String

abbrev pub inputs_or_empty : Option (Assoc Value) → Assoc Value
inputs_or_empty none = []
inputs_or_empty (some m) = m

-- `SELECT id FROM executions WHERE idempotency_key = $1 AND tenant_id = $2`
unfoldable pub find_key : (key : String) (tenant : ℕ) → Executions → Option ℕ
find_key key tenant [] = none
find_key key tenant (r ∷ rows) =
    let rest = find_key key tenant rows in
    if same_key r.idempotency_key (some key) && eqb r.tenant_id tenant then some r.id else rest

-- The check before a new execution; no row and a failed query read the same.
unfoldable pub existing_execution :
    (lookup : Bool) (key : String) (tenant : ℕ) → Executions → Option ℕ
unfolding find_key
existing_execution lookup key tenant rows =
    if key == "" then none else if lookup then find_key key tenant rows else none

abbrev pub new_execution :
    (id tenant workflow version user now : ℕ) (key : Option String) (inputs : Option (Assoc Value))
    (trigger : String)
    → ExecutionRow
new_execution id tenant workflow version user now key inputs trigger = record {
  id = id;
  tenant_id = tenant;
  workflow_id = workflow;
  version_id = version;
  status = ExecutionStatus.queued;
  idempotency_key = key;
  inputs = inputs_or_empty inputs;
  triggered_by = some user;
  trigger_type = trigger;
  created_at = now;
  finished_at = none;
  scheduler_node = none;
  lock_acquired_at = none;
}

-- `INSERT INTO executions`, and the answer.
unfoldable pub create :
    (inserts : Bool) (message : String) → ExecutionRow → Executions → Response × Executions
unfolding insert_row
create inserts message r rows =
    if inserts
    then elim (insert_row r rows) [
      | none ↦ (failure 500 message, rows)
      | some rows' ↦ (created r.id, rows')
    ]
    else (failure 500 message, rows)

-- `SELECT active_version_id …`, which may fail.
abbrev pub published : (reads : Bool) (workflow tenant : ℕ) → List WorkflowRow → Option ℕ
published true workflow tenant workflows = active_version workflow tenant workflows
published false workflow tenant workflows = none

-- `id` is the new identifier; without a key of its own a request inserts the empty text.
unfoldable pub start_new :
    Faults
    → List WorkflowRow
    → (tenant user id now : ℕ) (workflow : ℕ) → StartRequest
    → Executions
    → Response × Executions
unfolding active_version create
start_new faults workflows tenant user id now workflow req rows =
    elim (published faults.version workflow tenant workflows) [
      | none ↦ (failure 400 "workflow has no published version", rows)
      | some version ↦
          create faults.insert "failed to create execution"
            (new_execution id tenant workflow version user now (some req.idempotency_key) req.inputs
              "api")
            rows
    ]

-- `body` is none if it does not decode.
unfoldable pub start :
    Faults
    → List WorkflowRow
    → (tenant user id now : ℕ) → (body : Option StartRequest) → Executions
    → Response × Executions
unfolding existing_execution start_new
start faults workflows tenant user id now none rows = (failure 400 "invalid request body", rows)
start faults workflows tenant user id now (some req) rows = elim req.workflow [
  | none ↦ (failure 400 "invalid workflow_id", rows)
  | some workflow ↦ elim (existing_execution faults.lookup req.idempotency_key tenant rows) [
    | some old ↦ (existing old, rows)
    | none ↦ start_new faults workflows tenant user id now workflow req rows
  ]
]

abbrev pub is_settled : ExecutionStatus → Bool
is_settled ExecutionStatus.succeeded = true
is_settled ExecutionStatus.failed = true
is_settled ExecutionStatus.cancelled = true
is_settled _ = false

-- `WHERE tenant_id = $3 AND status NOT IN ('succeeded', 'failed', 'cancelled')`
abbrev pub may_cancel : (tenant : ℕ) → ExecutionRow → Bool
may_cancel tenant r = eqb r.tenant_id tenant && not (is_settled r.status)

abbrev pub cancel_row : (now : ℕ) → ExecutionRow → ExecutionRow
cancel_row now r = record r { status = ExecutionStatus.cancelled; finished_at = some now }

unfoldable pub cancel :
    (updates : Bool) (tenant now : ℕ) → (id : Option ℕ) → Executions → Response × Executions
unfolding update_row
cancel updates tenant now none rows = (failure 400 "invalid execution ID", rows)
cancel updates tenant now (some id) rows =
    if updates
    then elim (update_row id (may_cancel tenant) (cancel_row now) rows) [
      | none ↦ (failure 409 "execution cannot be cancelled", rows)
      | some rows' ↦ (cancelled, rows')
    ]
    else (failure 500 "failed to cancel execution", rows)

-- `SELECT … FROM executions WHERE id = $1 AND tenant_id = $2`
unfoldable pub find_execution : (id tenant : ℕ) → Executions → Option ExecutionRow
unfolding row_of
find_execution id tenant rows = elim (row_of id rows) [
  | none ↦ none
  | some r ↦ if eqb r.tenant_id tenant then some r else none
]

-- `lookup` and `insert` of the faults are the two statements; `new_id` is the new identifier.
unfoldable pub retry :
    Faults → (tenant user new_id now : ℕ) → (id : Option ℕ) → Executions → Response × Executions
unfolding find_execution create
retry faults tenant user new_id now none rows = (failure 400 "invalid execution ID", rows)
retry faults tenant user new_id now (some id) rows =
    elim (if faults.lookup then find_execution id tenant rows else none) [
      | none ↦ (failure 404 "execution not found", rows)
      | some r ↦
          create faults.insert "failed to retry execution"
            (new_execution new_id tenant r.workflow_id r.version_id user now none (some r.inputs)
              "retry")
            rows
    ]
