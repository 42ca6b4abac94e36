-- ===== src/Tests/Statuses.antt =====
-- Tests of the state machine, and its theorems at concrete executions.
use mathlib.Core.List.{Memᴰ}
use flow_ctl.Prelude.{◌≡◌, refl, inr, List, [], ◌∷◌}
use flow_ctl.Model.Execution.{ExecutionStatus, Execution}
use flow_ctl.StateMachine.{validate_execution_transition, transition_to, is_terminal}
use flow_ctl.StateMachine.Paths.{
  requests, requests_settled, outcome_needs_running, can_still_succeed, is_terminal-leaves,
}
use flow_ctl.Tests.Samples.{queued_execution}

abbrev in_status : ExecutionStatus → Execution
in_status s = let e = queued_execution in record e { status = s }

requests_settled_example :
    requests (in_status ExecutionStatus.cancelled) (ExecutionStatus.running ∷ [])
    ≡ in_status ExecutionStatus.cancelled
requests_settled_example =
    requests_settled (in_status ExecutionStatus.cancelled) (ExecutionStatus.running ∷ []) (inr refl)

abbrev life : List ExecutionStatus
life =
    ExecutionStatus.queued ∷ ExecutionStatus.succeeded ∷ ExecutionStatus.running
    ∷ ExecutionStatus.failed ∷ []

life_fails : (requests (in_status ExecutionStatus.pending) life).status ≡ ExecutionStatus.failed
unfolding requests transition_to validate_execution_transition
life_fails = refl

outcome_needs_running_example : Memᴰ ExecutionStatus.running life
outcome_needs_running_example =
    outcome_needs_running (in_status ExecutionStatus.pending) life refl (λ e. cc life_fails)
      (λ e. cc life_fails) (λ e. cc life_fails)

can_still_succeed_example :
    (tos : List ExecutionStatus) × ((requests (in_status ExecutionStatus.failed) tos).status
      ≡ ExecutionStatus.succeeded)
can_still_succeed_example = can_still_succeed (in_status ExecutionStatus.failed) (λ e. cc)

is_terminal-leaves_example :
    (ExecutionStatus.failed ≡ ExecutionStatus.failed)
    × (ExecutionStatus.retrying ≡ ExecutionStatus.retrying)
unfolding is_terminal validate_execution_transition
is_terminal-leaves_example =
    is_terminal-leaves ExecutionStatus.failed ExecutionStatus.retrying refl refl
