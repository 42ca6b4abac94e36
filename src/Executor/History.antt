-- ===== src/Executor/History.antt =====
-- The statuses that `Execute` of internal/engine/executor.go writes to the row of its execution.
use flow_ctl.Prelude.{◌≡◌, refl, ℕ, true, none, some, List, [], ◌∷◌, has_value, if◌then◌else◌}
use flow_ctl.Model.Workflow.{WorkflowDefinition}
use flow_ctl.Model.Execution.{ExecutionStatus, Execution}
use flow_ctl.StateMachine.{validate_execution_transition, is_terminal}
use flow_ctl.Dag.{MapOrder}
use flow_ctl.Executor.World.{World, Event, ExecState, set_status}
use flow_ctl.Executor.Keeps.{IsClosed}
use flow_ctl.Executor.KeepsApprovals.{IsMovable, moved}
use flow_ctl.Executor.KeepsExecute.{IsOther, execute_keeps}
use flow_ctl.Executor.Transition.{finishes, starts}
use flow_ctl.Executor.Execute.{execute}

-- Reading the trace from its newest event: each status was written from the one before by a
-- transition that the table allows, the first of them from `start`, and the last is `current`; the
-- finishing time was set exactly with the terminal statuses.
abbrev pub IsHistory : ExecutionStatus → List Event → ExecutionStatus → Type 0
IsHistory start [] current = current ≡ start
IsHistory start (set_status to started finished ∷ trace) current =
    (current ≡ to)
    × (has_value finished ≡ is_terminal to)
    × ((from : ExecutionStatus) × IsHistory start trace from
        × (validate_execution_transition from to ≡ none))
IsHistory start (e ∷ trace) current = IsHistory start trace current

abbrev HasHistory : ExecutionStatus → ExecState → Type 0
HasHistory start s = IsHistory start s.trace s.exec.status

finish_time :
    (to : ExecutionStatus) (now : ℕ)
    → has_value (if finishes to then some now else none) ≡ is_terminal to
unfolding finishes is_terminal
finish_time ExecutionStatus.pending now = refl
finish_time _ now = refl

HasHistory-IsMovable : (w : World) (start : ExecutionStatus) → IsMovable w (HasHistory start)
HasHistory-IsMovable w start = record {
  ticks = λ s h. h;
  moves = λ to s e h. (refl, finish_time to (w.now s.tick), (s.exec.status, h, e));
}

HasHistory-IsClosed : (start : ExecutionStatus) → IsClosed (HasHistory start) IsOther
HasHistory-IsClosed start = record { ticks = λ s h. h; emits = by_event }
  where
    by_event :
        (e : Event) (s : ExecState)
        → IsOther e
        → HasHistory start s
        → HasHistory start (record s { trace = e ∷ s.trace })
    by_event (set_status to a b) s p h = absurd p
    by_event _ s p h = h

-- Whatever the database, the runners and the clock answer, the statuses that `Execute` writes form
-- a path of the transition table from the status that was loaded to the executor's own last
-- status, and the finishing time is set exactly by the terminal ones.
pub execute-IsHistory :
    (w : World) (o : MapOrder) (patience : ℕ) (exec : Execution) (def : WorkflowDefinition)
    (s : ExecState)
    → s.trace ≡ []
    → let s' = (execute w o patience (some (exec, def)) s).1 in
      IsHistory exec.status s'.trace s'.exec.status
execute-IsHistory w o patience exec def s empty =
    execute_keeps w (HasHistory-IsMovable w exec.status) (HasHistory-IsClosed exec.status) o
      patience exec def s (empty_history s.trace empty)
  where
    empty_history : (t : List Event) → t ≡ [] → IsHistory exec.status t exec.status
    empty_history t e = rw e refl

-- Every start of the execution that the trace shows was written with a start time.
abbrev pub IsStamped : List Event → Type 0
IsStamped [] = Unit
IsStamped (set_status ExecutionStatus.running started finished ∷ trace) =
    (has_value started ≡ true) × IsStamped trace
IsStamped (e ∷ trace) = IsStamped trace

abbrev NeverStarted : ExecState → Type 0
NeverStarted s = (s.exec.started_at ≡ none) × IsStamped s.trace

stamped :
    (w : World) (to : ExecutionStatus) (s : ExecState)
    → validate_execution_transition s.exec.status to ≡ none
    → NeverStarted s
    → NeverStarted (moved w to s)
unfolding starts
stamped w ExecutionStatus.running s e (h, k) = (h, (rw h refl, k))
stamped w _ s e (h, k) = (h, k)

NeverStarted-IsClosed : IsClosed NeverStarted IsOther
NeverStarted-IsClosed = record { ticks = λ s h. h; emits = by_event }
  where
    by_event :
        (e : Event) (s : ExecState)
        → IsOther e
        → NeverStarted s
        → NeverStarted (record s { trace = e ∷ s.trace })
    by_event (set_status to a b) s p h = absurd p
    by_event _ s p h = h

-- An execution is loaded without its start time, and `Execute` never sets it in its variable. So
-- every time that it writes `running`, also after an approval, it writes a new start time.
pub execute-IsStamped :
    (w : World) (o : MapOrder) (patience : ℕ) (exec : Execution) (def : WorkflowDefinition)
    (s : ExecState)
    → exec.started_at ≡ none
    → s.trace ≡ []
    → IsStamped (execute w o patience (some (exec, def)) s).1.trace
execute-IsStamped w o patience exec def s unset empty =
    (execute_keeps w (record { ticks = λ s h. h; moves = stamped w }) NeverStarted-IsClosed o
      patience exec def s (unset, no_events s.trace empty)).1
  where
    no_events : (t : List Event) → t ≡ [] → IsStamped t
    no_events t e = rw e tt
