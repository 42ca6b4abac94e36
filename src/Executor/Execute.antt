-- ===== src/Executor/Execute.antt =====
-- internal/engine/executor.go: `Execute`, its loop and the checkpoint.
use flow_ctl.Prelude.{
  ℕ, zero, suc, String, Bool, Option, none, some, List, [], ◌∷◌, ◌==◌, eqb, length, is_empty,
  if◌then◌else◌, Assoc, lookup, insert, has, Result, ok, err,
}
use flow_ctl.Model.Value.{Value}
use flow_ctl.Model.Workflow.{StepDef, ApprovalDef, WorkflowDefinition}
use flow_ctl.Model.Execution.{ExecutionStatus, StepStatus, StepResult, Execution}
use flow_ctl.Huml.Context.{EvalContext, new_eval_context}
use flow_ctl.Dag.{Dag, DagNode, MapOrder, build_dag, get_ready_nodes}
use flow_ctl.Executor.World.{World, save_checkpoint, log_failure, audit_failure, complete}
use flow_ctl.Executor.Effects.{
  Action, ExecError, load_failed, build_failed, context, panic, unfinished, pure, throw, ask, gets,
  lift, emit, ignore, try, statement, ◌>>=◌, ◌>>◌,
}
use flow_ctl.Executor.Step.{execute_step, step_result}
use flow_ctl.Executor.Transition.{transition_execution}
use flow_ctl.Executor.Approval.{handle_approval}

-- The variables `completed` and `evalCtx` of `Execute`.
pub record Progress : Type 0 where
  pub completed : Assoc StepResult
  pub eval_ctx : EvalContext

-- What a node leads to: the loop goes on, or `Execute` returns nil.
pub data Flow : Type 0 where
  go_on : Progress → Flow
  return : Flow

-- A nil map of outputs reads as an empty one.
abbrev pub outputs_or_empty : Option (Assoc Value) → Assoc Value
outputs_or_empty none = []
outputs_or_empty (some m) = m

unfoldable pub load_completed_steps : Execution → Assoc StepResult
load_completed_steps exec = elim exec.checkpoint [
  | none ↦ []
  | some cp ↦ elim cp.completed_steps [ none ↦ [] | some m ↦ m ]
]

-- The loop over `completed`: results without outputs leave no entry.
unfoldable pub step_contexts : Assoc StepResult → Assoc (Assoc Value) → Assoc (Assoc Value)
step_contexts [] m = m
step_contexts ((id, r) ∷ rest) m =
    step_contexts rest (elim r.outputs [ none ↦ m | some o ↦ insert id o m ])

unfoldable pub build_eval_context : Execution → Assoc StepResult → EvalContext
unfolding step_contexts new_eval_context
build_eval_context exec completed =
    let c = new_eval_context in
    record c {
      inputs = elim exec.inputs [ none ↦ [] | some m ↦ m ];
      steps = step_contexts completed [];
    }

abbrev pub completed_set : Progress → String → Bool
completed_set p id = has id p.completed

-- `completed[id] = r`, and the step's outputs in the context of later steps.
abbrev pub with_step : String → StepResult → Progress → Progress
with_step id r p =
    let c = p.eval_ctx in
    record p {
      completed = insert id r p.completed;
      eval_ctx = record c { steps = insert id (outputs_or_empty r.outputs) c.steps };
    }

abbrev pub with_approval : String → ℕ → Progress → Progress
with_approval id now p = record p {
  completed = insert id (step_result id StepStatus.succeeded none now) p.completed;
}

abbrev pub start_progress : Execution → Progress
start_progress exec =
    let completed = load_completed_steps exec in
    record { completed = completed; eval_ctx = build_eval_context exec completed }

-- `exec, def, err := e.loadExecution(…)`: the row and its decoded definition, or none.
abbrev pub LoadedExecution : Type 0
LoadedExecution = Option (Execution × WorkflowDefinition)

unfoldable pub load_execution : LoadedExecution → Action (Execution × WorkflowDefinition)
load_execution none s = (err load_failed, s)
load_execution (some (exec, def)) s = (ok (exec, def), record s { exec = exec })

unfoldable pub built : WorkflowDefinition → Result ExecError Dag
unfolding build_dag
built def = elim (build_dag def) [ ok d ↦ ok d | err e ↦ err (build_failed e) ]

module _ (w : World) where
  unfoldable pub handle_step_failure : StepDef → Action Unit
  handle_step_failure def = do
    emit (log_failure def.id)
    ignore (statement w (audit_failure def.id))

  -- A completed node, with the checkpoint that follows; its failure is only logged.
  unfoldable pub completes : String → Progress → Action Flow
  completes id p = do
    emit (complete id)
    ignore (statement w (save_checkpoint p.completed))
    pure (go_on p)

  unfoldable pub run_step : String → StepDef → Progress → Action Flow
  unfolding handle_step_failure completes transition_execution execute_step
  run_step id def p = do
    result ← try (execute_step w def p.eval_ctx)
    elim result [
      | err e ↦ (do
        handle_step_failure def
        transition_execution w ExecutionStatus.failed
        pure return)
      | ok r ↦ completes id (with_step id r p)
    ]

  unfoldable pub run_approval : (patience : ℕ) → String → ApprovalDef → Progress → Action Flow
  unfolding completes transition_execution handle_approval
  run_approval patience id approval p = do
    approved ← handle_approval w patience approval p.eval_ctx
    if approved
        then (do now ← ask w.now; completes id (with_approval id now p))
        else (do transition_execution w ExecutionStatus.cancelled; pure return)

  -- A nil pointer in the node is a panic.
  unfoldable pub run_step_node : String → Option StepDef → Progress → Action Flow
  unfolding run_step
  run_step_node id none p = throw panic
  run_step_node id (some def) p = run_step id def p

  unfoldable pub run_approval_node :
      (patience : ℕ) → String → Option ApprovalDef → Progress → Action Flow
  unfolding run_approval
  run_approval_node patience id none p = throw panic
  run_approval_node patience id (some a) p = run_approval patience id a p

  unfoldable pub run_found : (patience : ℕ) → String → Option DagNode → Progress → Action Flow
  unfolding run_step_node run_approval_node
  run_found patience id none p = throw panic
  run_found patience id (some node) p =
      if node.type == "step"
      then run_step_node id node.step_def p
      else run_approval_node patience id node.approval p

  -- The body of `for _, nodeID := range ready`.
  unfoldable pub run_node : (patience : ℕ) → Dag → String → Progress → Action Flow
  unfolding run_found
  run_node patience d id p = run_found patience id (lookup id d.nodes) p

  unfoldable pub run_nodes : (patience : ℕ) → Dag → List String → Progress → Action Flow
  unfolding run_node
  run_nodes patience d [] p = pure (go_on p)
  run_nodes patience d (id ∷ ids) p = do
    flow ← run_node patience d id p
    elim flow [ go_on p' ↦ run_nodes patience d ids p' | return ↦ pure return ]

  -- The `for` loop, on fuel.
  unfoldable pub execute_loop :
      MapOrder → (patience : ℕ) → Dag → (fuel : ℕ) → Progress → Action Unit
  unfolding run_nodes transition_execution get_ready_nodes
  execute_loop o patience d zero p = throw unfinished
  execute_loop o patience d (suc fuel) p = do
    done ← ask w.context_done
    if done then throw context else pure tt
    n ← gets (λ s. s.tick)
    let ready = get_ready_nodes o n d (completed_set p)
    if is_empty ready
        then (if eqb (length p.completed) (length d.nodes)
            then transition_execution w ExecutionStatus.succeeded
            else transition_execution w ExecutionStatus.failed)
        else (do
          flow ← run_nodes patience d ready p
          elim flow [ go_on p' ↦ execute_loop o patience d fuel p' | return ↦ pure tt ])

  -- What follows `BuildDAG`. Each round completes a node, so one round more than there are nodes
  -- suffices.
  unfoldable pub run_dag : MapOrder → (patience : ℕ) → Execution → Dag → Action Unit
  unfolding execute_loop build_eval_context load_completed_steps
  run_dag o patience exec d = do
    transition_execution w ExecutionStatus.running
    execute_loop o patience d (suc (length d.nodes)) (start_progress exec)

  unfoldable pub execute : MapOrder → (patience : ℕ) → LoadedExecution → Action Unit
  unfolding load_execution built run_dag
  execute o patience loaded = do
    (exec, def) ← load_execution loaded
    d ← lift (built def)
    run_dag o patience exec d
