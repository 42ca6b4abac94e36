-- ===== src/Executor/Step.antt =====
-- internal/engine/executor.go: `executeStep` and `runCompensation`.
pub mod Attempts
use Prim.Native.String.{◌++◌ as text_append}
use flow_ctl.Prelude.{
  ℕ, zero, suc, ◌+◌, String, Bool, true, false, Option, none, some, List, [], ◌∷◌, ◌==◌, ◌||◌, eqb,
  lookup, if◌then◌else◌, Assoc, Result, ok, err,
}
use flow_ctl.Model.Value.{Value, int, text, ℤ, pos, negsuc}
use flow_ctl.Model.Workflow.{StepDef, CompensationDef, RetryPolicy}
use flow_ctl.Model.Execution.{StepStatus, StepResult, Execution}
use flow_ctl.Huml.Context.{EvalContext}
use flow_ctl.Executor.World.{
  World, Request, RunResult, RunOutcome, Runners, Event, ExecState, run, wait, insert_step,
  finish_step,
}
use flow_ctl.Executor.Effects.{
  Action, ExecError, evaluation, no_runner, step_failed, context, pure, throw, ask, gets, lift,
  emit, ignore, statement, ◌>>=◌, ◌>>◌,
}
use flow_ctl.Executor.Backoff.{calculate_backoff, retry_count, timeout_seconds}

-- `Factory.Get` of internal/runner/runner.go.
unfoldable pub get_runner : World → String → Result ExecError (ℕ → Request → RunOutcome)
get_runner w name = elim (lookup name w.runners) [ none ↦ err (no_runner name) | some r ↦ ok r ]

unfoldable pub evaluate : World → String → EvalContext → Result ExecError String
evaluate w s c = elim (w.evaluate_string s c) [ ok t ↦ ok t | err m ↦ err (evaluation m) ]

-- With the error dropped the text is empty.
unfoldable pub evaluate_str : World → String → EvalContext → String
evaluate_str w s c = if s == "" then "" else elim (w.evaluate_string s c) [ ok t ↦ t | err _ ↦ "" ]

unfoldable pub evaluate_env : World → Assoc String → EvalContext → Assoc String
unfolding evaluate_str
evaluate_env w [] c = []
evaluate_env w ((k, v) ∷ env) c = (k, evaluate_str w v c) ∷ evaluate_env w env c

abbrev pub exited_zero : ℤ → Bool
exited_zero (pos zero) = true
exited_zero _ = false

-- `err == nil && result.ExitCode == 0`
abbrev pub succeeds : RunOutcome → Bool
succeeds (ok r) = exited_zero r.exit_code
succeeds (err _) = false

abbrev pub rounds : ℤ → ℕ
rounds (pos n) = n
rounds (negsuc _) = 0

-- How often the loop may run: `attempt <= maxAttempts` from 1.
unfoldable pub max_attempts : Option RetryPolicy → ℕ
max_attempts none = 1
max_attempts (some r) = rounds r.max_attempts

abbrev pub step_result : String → StepStatus → Option (Assoc Value) → ℕ → StepResult
step_result id status outputs finished = record {
  step_id = id;
  status = status;
  outputs = outputs;
  error = "";
  finished_at = finished;
}

module _ (w : World) where
  -- One call of `Run`.
  unfoldable pub run_once : String → (ℕ → Request → RunOutcome) → Request → Action RunOutcome
  run_once name r req = do outcome ← ask (λ n. r n req); emit (run name req); pure outcome

  -- The retry loop, by recursion on the attempts that are left. The result is the last outcome, or
  -- none if nothing ran.
  unfoldable pub run_attempts :
      (name : String)
      → (ℕ → Request → RunOutcome)
      → Request
      → Option RetryPolicy
      → (left attempt : ℕ) → Option RunOutcome
      → Action (Option RunOutcome)
  unfolding run_once calculate_backoff
  run_attempts name r req retry zero attempt last = pure last
  run_attempts name r req retry (suc left) attempt last =
      let again =
        λ (outcome : RunOutcome). run_attempts name r req retry left (attempt + 1) (some outcome) in
      do
        outcome ← run_once name r req
        if succeeds outcome || eqb left 0 then pure (some outcome) else (do
          emit (wait (calculate_backoff w attempt retry))
          done ← ask w.context_done
          if done then throw context else again outcome)

  -- The message of a failed run; a run that was never made counts as no failure.
  unfoldable pub failure_text : Option RunOutcome → Option String
  failure_text none = none
  failure_text (some (err m)) = some m
  failure_text (some (ok r)) =
      if exited_zero r.exit_code then none else some (w.exit_text r.exit_code)

  unfoldable pub outputs_of : Option RunOutcome → Assoc Value
  outputs_of (some (ok r)) =
      ("stdout", text r.stdout) ∷ ("stderr", text r.stderr) ∷ ("exit_code", int r.exit_code) ∷ []
  outputs_of _ = []

  unfoldable pub run_compensation :
      Execution → StepDef → CompensationDef → EvalContext → Action Unit
  unfolding get_runner run_once
  run_compensation exec def comp c =
      let command : String = elim (w.evaluate_string comp.command c) [ ok t ↦ t | err _ ↦ "" ] in
      let name = if comp.runner == "" then def.runner else comp.runner in
      ignore (do
        r ← lift (get_runner w name)
        run_once name r (record {
          execution_id = exec.id;
          step_id = text_append def.id "_compensation";
          command = command;
          image = "";
          host = "";
          env = [];
          config = comp.config;
        }))

  unfoldable pub compensate : Execution → StepDef → EvalContext → Action Unit
  unfolding run_compensation
  compensate exec def c = elim def.compensation [
    | none ↦ pure tt
    | some comp ↦ run_compensation exec def comp c
  ]

  -- What follows the loop.
  unfoldable pub conclude :
      StepDef → EvalContext → (row : ℕ) → Option RunOutcome → Action StepResult
  unfolding failure_text outputs_of compensate
  conclude def c row last = do
    finished ← ask w.now
    exec ← gets (λ s. s.exec)
    elim (failure_text last) [
      | some message ↦ (do
        ignore (statement w (finish_step row StepStatus.failed message [] finished))
        compensate exec def c
        throw (step_failed message))
      | none ↦ (do
        ignore (statement w (finish_step row StepStatus.succeeded "" (outputs_of last) finished))
        pure (step_result def.id StepStatus.succeeded (some (outputs_of last)) finished))
    ]

  unfoldable pub run_command : StepDef → EvalContext → Action StepResult
  unfolding evaluate get_runner evaluate_str evaluate_env run_attempts max_attempts conclude
  run_command def c = do
    command ← lift (evaluate w def.command c)
    row ← ask w.new_uuid
    now ← ask w.now
    statement w (
        insert_step row def.id def.runner def.config (retry_count def.retry)
          (timeout_seconds w def.timeout) now)
    r ← lift (get_runner w def.runner)
    exec ← gets (λ s. s.exec)
    last ←
        run_attempts def.runner r
          (record {
            execution_id = exec.id;
            step_id = def.id;
            command = command;
            image = evaluate_str w def.image c;
            host = evaluate_str w def.host c;
            env = evaluate_env w def.env c;
            config = def.config;
          })
          def.retry (max_attempts def.retry) 1 none
    conclude def c row last

  unfoldable pub skip : StepDef → Action StepResult
  skip def = do now ← ask w.now; pure (step_result def.id StepStatus.skipped none now)

  unfoldable pub execute_step : StepDef → EvalContext → Action StepResult
  unfolding evaluate run_command skip
  execute_step def c = if def.when == "" then run_command def c else (do
    condition ← lift (evaluate w def.when c)
    if condition == "false" || condition == "" then skip def else run_command def c)
