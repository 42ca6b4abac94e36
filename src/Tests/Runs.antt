-- ===== src/Tests/Runs.antt =====
-- Tests of the executor, and its theorems at runs of the sample workflow.
use flow_ctl.Prelude.{◌≡◌, refl, String, some, List, [], ◌∷◌, lookup, insert, get_list, append_at}
use flow_ctl.Model.Execution.{ExecutionStatus, execution_status_text}
use flow_ctl.StateMachine.{validate_execution_transition}
use flow_ctl.Executor.World.{Event, ExecState, set_status, run}
use flow_ctl.Executor.Effects.{◌>>=◌, pure, throw, ask, gets, lift, emit, ignore, try, statement}
use flow_ctl.Executor.Execute.{execute, load_completed_steps}
use flow_ctl.Executor.History.{IsHistory, execute-IsHistory, IsStamped, execute-IsStamped}
use flow_ctl.Executor.Trace.Events.{IsOrdered}
use flow_ctl.Executor.Trace.Loop.{execute-IsOrdered}
use flow_ctl.Tests.Graphs.{release_dag, release_builds}
use flow_ctl.Tests.Samples.{release, as_stored, queued_execution, world, idle}

program : Unit {0}
unfolding execute ◌>>=◌ pure throw ask gets lift emit ignore try statement execution_status_text
    validate_execution_transition lookup insert get_list append_at
program = tt

-- The statuses written, oldest last, and the commands run.
statuses : List Event → List ExecutionStatus
statuses [] = []
statuses (set_status to a b ∷ t) = to ∷ statuses t
statuses (_ ∷ t) = statuses t

ran : List Event → List String
ran [] = []
ran (run name req ∷ t) = req.step_id ∷ ran t
ran (_ ∷ t) = ran t

abbrev final : ExecState
final = (execute (world 0 "approved") as_stored 3 (some (queued_execution, release)) idle).1

runs_release :
    (statuses final.trace
      ≡ ExecutionStatus.succeeded ∷ ExecutionStatus.running ∷ ExecutionStatus.waiting_approval
        ∷ ExecutionStatus.running ∷ [])
    × (ran final.trace ≡ "deploy" ∷ "build" ∷ [])
unfolding program statuses ran
runs_release = (refl, refl)

rejects_release :
    statuses
      (execute (world 0 "rejected") as_stored 3 (some (queued_execution, release)) idle).1.trace
    ≡ ExecutionStatus.cancelled ∷ ExecutionStatus.waiting_approval ∷ ExecutionStatus.running ∷ []
unfolding program statuses
rejects_release = refl

execute-IsHistory_example : IsHistory ExecutionStatus.queued final.trace final.exec.status
execute-IsHistory_example =
    execute-IsHistory (world 0 "approved") as_stored 3 queued_execution release idle refl

execute-IsStamped_example : IsStamped final.trace
execute-IsStamped_example =
    execute-IsStamped (world 0 "approved") as_stored 3 queued_execution release idle refl refl

execute-IsOrdered_example : IsOrdered release_dag [] final.trace
unfolding load_completed_steps
execute-IsOrdered_example =
    execute-IsOrdered (world 0 "approved") as_stored 3 queued_execution release release_dag idle
      release_builds refl
