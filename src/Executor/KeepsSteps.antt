-- ===== src/Executor/KeepsSteps.antt =====
-- Which events each handler of internal/engine/executor.go can cause: an invariant that bears these
-- events is kept by the handler.
use Prim.Native.String.{◌++◌ as text_append}
use flow_ctl.Prelude.{
  ◌≡◌, refl, ◌⊎◌, inl, inr, ℕ, zero, suc, ◌+◌, String, Option, none, some, ◌==◌, ◌||◌, eqb, [],
}
use flow_ctl.Model.Workflow.{StepDef, CompensationDef, RetryPolicy}
use flow_ctl.Model.Execution.{StepStatus, Execution}
use flow_ctl.Huml.Context.{EvalContext}
use flow_ctl.Executor.World.{
  World, Request, RunOutcome, Event, ExecState, run, wait, insert_step, finish_step,
}
use flow_ctl.Executor.Effects.{context, step_failed, pure, throw, ignore, statement, ◌>>◌}
use flow_ctl.Executor.Keeps.{
  Keeps, IsClosed, Keeps-pure, Keeps-throw, Keeps-gets, Keeps-lift, Keeps-bind, Keeps-if, Keeps-ask,
  Keeps-emit, Keeps-statement, Keeps-ignore,
}
use flow_ctl.Executor.Backoff.{calculate_backoff}
use flow_ctl.Executor.Step.{
  run_once, run_attempts, run_compensation, compensate, conclude, run_command, skip, execute_step,
  succeeds, failure_text, outputs_of, step_result,
}

-- The events that a step's execution can cause. What it runs carries its own identifier, or that of
-- its compensation.
abbrev pub StepEvent : String → Event → Type 0
StepEvent id (run name req) = (req.step_id ≡ id) ⊎ (req.step_id ≡ text_append id "_compensation")
StepEvent id (wait d) = Unit
StepEvent id (insert_step row step name config n m t) = Unit
StepEvent id (finish_step row status e o t) = Unit
StepEvent id _ = ⊥

module _ {I : ExecState → Type 0} (w : World) (def : StepDef)
    (c : IsClosed I (StepEvent def.id)) where
  run_once-Keeps :
      (name : String) (r : ℕ → Request → RunOutcome) (req : Request)
      → StepEvent def.id (run name req)
      → Keeps I (run_once w name r req)
  unfolding run_once
  run_once-Keeps name r req p =
      Keeps-bind _ _ (Keeps-ask c (λ n. r n req))
        λ outcome. Keeps-bind _ _ (Keeps-emit c (run name req) p) λ _. Keeps-pure outcome

  run_attempts-Keeps :
      (name : String) (r : ℕ → Request → RunOutcome) (req : Request) (retry : Option RetryPolicy)
      → StepEvent def.id (run name req)
      → (left attempt : ℕ) (last : Option RunOutcome)
      → Keeps I (run_attempts w name r req retry left attempt last)
  unfolding run_attempts
  run_attempts-Keeps name r req retry p zero attempt last = Keeps-pure last
  run_attempts-Keeps name r req retry p (suc left) attempt last =
      Keeps-bind _ _ (run_once-Keeps name r req p) λ outcome.
        Keeps-if (succeeds outcome || eqb left 0) _ _ (Keeps-pure (some outcome)) (
          Keeps-bind _ _ (Keeps-emit c (wait (calculate_backoff w attempt retry)) tt) λ _.
            Keeps-bind _ _ (Keeps-ask c w.context_done) λ done.
              Keeps-if done _ _ (Keeps-throw context)
                (run_attempts-Keeps name r req retry p left (attempt + 1) (some outcome)))

  run_compensation-Keeps :
      (exec : Execution) (comp : CompensationDef) (x : EvalContext)
      → Keeps I (run_compensation w exec def comp x)
  unfolding run_compensation
  run_compensation-Keeps exec comp x =
      Keeps-ignore _ (Keeps-bind _ _ (Keeps-lift _) λ r. run_once-Keeps _ r _ (inr refl))

  compensate-Keeps : (exec : Execution) (x : EvalContext) → Keeps I (compensate w exec def x)
  unfolding compensate
  compensate-Keeps exec x = by_cases def.compensation
    where
      by_cases :
          (o : Option CompensationDef)
          → Keeps I (elim o [ none ↦ pure tt | some comp ↦ run_compensation w exec def comp x ])
      by_cases none = Keeps-pure tt
      by_cases (some comp) = run_compensation-Keeps exec comp x

  conclude-Keeps :
      (x : EvalContext) (row : ℕ) (last : Option RunOutcome) → Keeps I (conclude w def x row last)
  unfolding conclude
  conclude-Keeps x row last =
      Keeps-bind _ _ (Keeps-ask c w.now) λ finished.
        Keeps-bind _ _ (Keeps-gets _) λ exec. by_cases (failure_text w last) finished exec
    where
      by_cases :
          (o : Option String) (finished : ℕ) (exec : Execution)
          → Keeps I (elim o [
            | some message ↦ (do
              ignore (statement w (finish_step row StepStatus.failed message [] finished))
              compensate w exec def x
              throw (step_failed message))
            | none ↦ (do
              ignore (
                  statement w
                    (finish_step row StepStatus.succeeded "" (outputs_of w last) finished))
              pure (step_result def.id StepStatus.succeeded (some (outputs_of w last)) finished))
          ])
      by_cases (some message) finished exec =
          Keeps-bind _ _ (Keeps-ignore _ (Keeps-statement c w _ tt))
            λ _. Keeps-bind _ _ (compensate-Keeps exec x) λ _. Keeps-throw _
      by_cases none finished exec =
          Keeps-bind _ _ (Keeps-ignore _ (Keeps-statement c w _ tt)) λ _. Keeps-pure _

  run_command-Keeps : (x : EvalContext) → Keeps I (run_command w def x)
  unfolding run_command
  run_command-Keeps x = Keeps-bind _ _ (Keeps-lift _) λ command.
      Keeps-bind _ _ (Keeps-ask c w.new_uuid) λ row. Keeps-bind _ _ (Keeps-ask c w.now) λ now.
        Keeps-bind _ _ (Keeps-statement c w _ tt) λ _. Keeps-bind _ _ (Keeps-lift _) λ r.
          Keeps-bind _ _ (Keeps-gets _) λ exec.
            Keeps-bind _ _ (run_attempts-Keeps _ r _ def.retry (inl refl) _ 1 none)
              λ last. conclude-Keeps x row last

  skip-Keeps : Keeps I (skip w def)
  unfolding skip
  skip-Keeps = Keeps-bind _ _ (Keeps-ask c w.now) λ now. Keeps-pure _

  pub execute_step-Keeps : (x : EvalContext) → Keeps I (execute_step w def x)
  unfolding execute_step
  execute_step-Keeps x = Keeps-if (def.when == "") _ _ (run_command-Keeps x) (
      Keeps-bind _ _ (Keeps-lift _) λ condition.
        Keeps-if (condition == "false" || condition == "") _ _ skip-Keeps (run_command-Keeps x))
