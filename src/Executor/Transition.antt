-- ===== src/Executor/Transition.antt =====
-- internal/engine/executor.go: `transitionExecution`.
use flow_ctl.Prelude.{Bool, true, false, none, some, if◌then◌else◌, ok, has_value, not, ◌&&◌, ◌==◌}
use flow_ctl.Model.Execution.{ExecutionStatus, Execution, execution_status_text}
use flow_ctl.StateMachine.{validate_execution_transition}
use flow_ctl.Executor.World.{World, set_status}
use flow_ctl.Executor.Effects.{Action, invalid_transition, throw, ask, gets, statement, ◌>>=◌, ◌>>◌}

-- `exec.Status = to`
unfoldable pub assign_status : ExecutionStatus → Action Unit
assign_status to s = let e = s.exec in (ok tt, record s { exec = record e { status = to } })

-- The `switch` that sets `finishedAt`.
unfoldable pub finishes : ExecutionStatus → Bool
finishes ExecutionStatus.succeeded = true
finishes ExecutionStatus.failed = true
finishes ExecutionStatus.cancelled = true
finishes _ = false

unfoldable pub starts : Execution → ExecutionStatus → Bool
unfolding execution_status_text
starts exec to = execution_status_text to == "running" && not (has_value exec.started_at)

unfoldable pub transition_execution : World → ExecutionStatus → Action Unit
unfolding assign_status finishes starts
transition_execution w to = do
  exec ← gets (λ s. s.exec)
  elim (validate_execution_transition exec.status to) [
    | some e ↦ throw (invalid_transition e)
    | none ↦ (do
      now ← ask w.now
      statement w (
          set_status to (if starts exec to then some now else none)
            (if finishes to then some now else none))
      assign_status to)
  ]
