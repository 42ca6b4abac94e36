-- ===== src/Executor/World.antt =====
-- What `Executor` (internal/engine/executor.go) meets: the answers of the database, the runners,
-- the clock and the context, and the trace of what it does to them.
use flow_ctl.Prelude.{ℕ, String, Bool, Option, List, Assoc, Result}
use flow_ctl.Model.Value.{Value, ℤ}
use flow_ctl.Model.Execution.{ExecutionStatus, StepStatus, StepResult, Execution}
use flow_ctl.Huml.Context.{EvaluateString}

-- internal/runner/runner.go
pub record Request : Type 0 where
  pub execution_id : ℕ
  pub step_id : String
  pub command : String
  pub image : String
  pub host : String
  pub env : Assoc String
  pub config : Assoc Value

pub record RunResult : Type 0 where
  pub exit_code : ℤ
  pub stdout : String
  pub stderr : String

-- `(*Result, error)` of `Runner.Run`: one of the two is nil.
abbrev pub RunOutcome : Type 0
RunOutcome = Result String RunResult

-- The factory's map: a runner's answer to the interaction numbered `n`.
abbrev pub Runners : Type 0
Runners = Assoc (ℕ → Request → RunOutcome)

-- The interactions with the outside are numbered; each answer may depend on its number.
pub record World : Type 0 where
  pub statement_ok : ℕ → Bool  -- does `pool.Exec`, or `Acquire`, succeed
  pub context_done : ℕ → Bool  -- is `ctx`, or the step's context, done
  pub approval_status : ℕ → Option String  -- the row's status; `none` if the query fails
  pub now : ℕ → ℕ
  pub new_uuid : ℕ → ℕ
  pub runners : Runners
  pub evaluate_string : EvaluateString
  -- `time.ParseDuration`: the bit pattern of an int64 number of nanoseconds.
  pub parse_duration : String → Option ℕ
  pub whole_seconds : ℕ → ℤ  -- `int(d.Seconds())`
  pub exit_text : ℤ → String  -- `fmt.Sprintf("exit code %d", code)`

-- What the executor does. A statement that fails leaves no event.
pub data Event : Type 0 where
  set_status : ExecutionStatus → (started finished : Option ℕ) → Event
  insert_step :
      (row : ℕ)
      → (step runner : String) → (config : Assoc Value) → (retries seconds : ℤ) → (started : ℕ)
      → Event
  finish_step : (row : ℕ) → StepStatus → (error : String) → (outputs : Assoc Value) → ℕ → Event
  run : (runner : String) → Request → Event
  wait : (backoff : ℕ) → Event  -- `time.After(backoff)`
  insert_approval : (row : ℕ) → (step : String) → (roles : List String) → Event
  save_checkpoint : Assoc StepResult → Event
  log_failure : (step : String) → Event
  audit_failure : (step : String) → Event
  complete : (node : String) → Event  -- the assignment to `completed[nodeID]`

-- The executor's own variable `exec`, the number of interactions, and the events, newest first.
pub record ExecState : Type 0 where
  pub exec : Execution
  pub tick : ℕ
  pub trace : List Event
