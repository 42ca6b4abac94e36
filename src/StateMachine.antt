-- ===== src/StateMachine.antt =====
-- internal/engine/statemachine.go: which status may follow which.
pub mod Paths
use flow_ctl.Prelude.{
  ℕ, String, Bool, true, false, Option, none, some, List, [], ◌∷◌, ◌==◌, ◌&&◌, ◌++◌, if◌then◌else◌,
}
use flow_ctl.Model.Execution.{
  ExecutionStatus, StepStatus, Execution, execution_status_text, step_status_text,
}

-- A `Transition` has no guard in either table.
pub record Transition : Type 0 where
  pub from : ExecutionStatus
  pub to : ExecutionStatus

pub record StepTransition : Type 0 where
  pub from : StepStatus
  pub to : StepStatus

abbrev edge : ExecutionStatus → ExecutionStatus → Transition
edge a b = record { from = a; to = b }

abbrev step_edge : StepStatus → StepStatus → StepTransition
step_edge a b = record { from = a; to = b }

unfoldable pub valid_execution_transitions : List Transition
valid_execution_transitions =
    edge ExecutionStatus.pending ExecutionStatus.queued
    ∷ edge ExecutionStatus.queued ExecutionStatus.running
    ∷ edge ExecutionStatus.running ExecutionStatus.succeeded
    ∷ edge ExecutionStatus.running ExecutionStatus.failed
    ∷ edge ExecutionStatus.running ExecutionStatus.waiting_approval
    ∷ edge ExecutionStatus.running ExecutionStatus.cancelled
    ∷ edge ExecutionStatus.running ExecutionStatus.paused
    ∷ edge ExecutionStatus.waiting_approval ExecutionStatus.running
    ∷ edge ExecutionStatus.waiting_approval ExecutionStatus.cancelled
    ∷ edge ExecutionStatus.paused ExecutionStatus.running
    ∷ edge ExecutionStatus.paused ExecutionStatus.cancelled
    ∷ edge ExecutionStatus.failed ExecutionStatus.retrying
    ∷ edge ExecutionStatus.retrying ExecutionStatus.running
    ∷ edge ExecutionStatus.retrying ExecutionStatus.failed
    ∷ edge ExecutionStatus.pending ExecutionStatus.cancelled
    ∷ edge ExecutionStatus.queued ExecutionStatus.cancelled
    ∷ []

unfoldable pub valid_step_transitions : List StepTransition
valid_step_transitions =
    step_edge StepStatus.pending StepStatus.queued
    ∷ step_edge StepStatus.queued StepStatus.running
    ∷ step_edge StepStatus.running StepStatus.succeeded
    ∷ step_edge StepStatus.running StepStatus.failed
    ∷ step_edge StepStatus.running StepStatus.cancelled
    ∷ step_edge StepStatus.running StepStatus.waiting_approval
    ∷ step_edge StepStatus.pending StepStatus.skipped
    ∷ step_edge StepStatus.failed StepStatus.retrying
    ∷ step_edge StepStatus.retrying StepStatus.running
    ∷ step_edge StepStatus.waiting_approval StepStatus.running
    ∷ step_edge StepStatus.waiting_approval StepStatus.cancelled
    ∷ []

-- The `for` loop over the table: is there an entry with this `From` and this `To`?
unfoldable pub listed : List Transition → ExecutionStatus → ExecutionStatus → Bool
unfolding execution_status_text
listed [] from to = false
listed (t ∷ ts) from to =
    let rest = listed ts from to in
    if execution_status_text t.from == execution_status_text from
      && execution_status_text t.to == execution_status_text to
    then true
    else rest

unfoldable pub step_listed : List StepTransition → StepStatus → StepStatus → Bool
unfolding step_status_text
step_listed [] from to = false
step_listed (t ∷ ts) from to =
    let rest = step_listed ts from to in
    if step_status_text t.from == step_status_text from
      && step_status_text t.to == step_status_text to
    then true
    else rest

-- Go's `error`: `none` is nil.
unfoldable pub validate_execution_transition : ExecutionStatus → ExecutionStatus → Option String
unfolding listed valid_execution_transitions
validate_execution_transition from to =
    if listed valid_execution_transitions from to then none else some "invalid execution transition"

unfoldable pub validate_step_transition : StepStatus → StepStatus → Option String
unfolding step_listed valid_step_transitions
validate_step_transition from to =
    if step_listed valid_step_transitions from to then none else some "invalid step transition"

unfoldable pub can_transition_to : Execution → ExecutionStatus → Bool
can_transition_to exec to = elim (validate_execution_transition exec.status to) [
  | none ↦ true
  | some _ ↦ false
]

-- The new record and the error.
unfoldable pub transition_to : Execution → ExecutionStatus → Execution × Option String
transition_to exec to = elim (validate_execution_transition exec.status to) [
  | some e ↦ (exec, some e)
  | none ↦ (record exec { status = to }, none)
]

unfoldable pub is_terminal : ExecutionStatus → Bool
is_terminal ExecutionStatus.succeeded = true
is_terminal ExecutionStatus.failed = true
is_terminal ExecutionStatus.cancelled = true
is_terminal _ = false

unfoldable pub is_active : ExecutionStatus → Bool
is_active ExecutionStatus.running = true
is_active ExecutionStatus.queued = true
is_active ExecutionStatus.retrying = true
is_active _ = false
