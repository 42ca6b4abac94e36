-- ===== src/Executor/KeepsExecute.antt =====
-- The invariants that `Execute` of internal/engine/executor.go keeps: those that bear the allowed
-- transitions and every event that is no change of the status.
use flow_ctl.Prelude.{
  ℕ, zero, suc, String, Option, none, some, List, [], ◌∷◌, ◌==◌, eqb, length, is_empty, lookup,
  Result, ok, err,
}
use flow_ctl.Model.Workflow.{StepDef, ApprovalDef, WorkflowDefinition}
use flow_ctl.Model.Execution.{ExecutionStatus, StepResult, Execution}
use flow_ctl.Dag.{Dag, DagNode, MapOrder, get_ready_nodes}
use flow_ctl.Executor.World.{
  World, Event, ExecState, set_status, run, wait, insert_step, finish_step, insert_approval,
}
use flow_ctl.Executor.Effects.{ExecError, context, panic, unfinished, pure, lift, ◌>>=◌, ◌>>◌}
use flow_ctl.Executor.Keeps.{
  Keeps, IsClosed, Keeps-pure, Keeps-throw, Keeps-bind, Keeps-if, Keeps-ask, Keeps-emit,
  Keeps-statement, Keeps-ignore, Keeps-lift, Keeps-try, Keeps-gets,
}
use flow_ctl.Executor.KeepsSteps.{StepEvent, execute_step-Keeps}
use flow_ctl.Executor.KeepsApprovals.{
  IsMovable, IsApprovalEvent, transition-Keeps, handle_approval-Keeps,
}
use flow_ctl.Executor.Transition.{transition_execution}
use flow_ctl.Executor.Execute.{
  Progress, Flow, go_on, return, completed_set, with_step, with_approval, handle_step_failure,
  completes, run_step, run_approval, run_step_node, run_approval_node, run_found, run_node,
  run_nodes, execute_loop, start_progress, built, run_dag, execute,
}

-- Any event but a change of the execution's status.
abbrev pub IsOther : Event → Type 0
IsOther (set_status to a b) = ⊥
IsOther _ = Unit

module _ {I : ExecState → Type 0} (w : World) (v : IsMovable w I) (c : IsClosed I IsOther) where
  steps_closed : (id : String) → IsClosed I (StepEvent id)
  steps_closed id = record { ticks = c.ticks; emits = by_event }
    where
      by_event :
          (e : Event) (s : ExecState) → StepEvent id e → I s → I (record s { trace = e ∷ s.trace })
      by_event (run name req) s p = c.emits _ s tt
      by_event (wait d) s p = c.emits _ s tt
      by_event (insert_step row step name config n m t) s p = c.emits _ s tt
      by_event (finish_step row status e o t) s p = c.emits _ s tt
      by_event _ s p = absurd p

  approvals_closed : IsClosed I IsApprovalEvent
  approvals_closed = record { ticks = c.ticks; emits = by_event }
    where
      by_event :
          (e : Event) (s : ExecState)
          → IsApprovalEvent e
          → I s
          → I (record s { trace = e ∷ s.trace })
      by_event (insert_approval row step roles) s p = c.emits _ s tt
      by_event _ s p = absurd p

  handle_step_failure-Keeps : (def : StepDef) → Keeps I (handle_step_failure w def)
  unfolding handle_step_failure
  handle_step_failure-Keeps def =
      Keeps-bind _ _ (Keeps-emit c _ tt) λ _. Keeps-ignore _ (Keeps-statement c w _ tt)

  completes-Keeps : (id : String) (p : Progress) → Keeps I (completes w id p)
  unfolding completes
  completes-Keeps id p =
      Keeps-bind _ _ (Keeps-emit c _ tt)
        λ _. Keeps-bind _ _ (Keeps-ignore _ (Keeps-statement c w _ tt)) λ _. Keeps-pure (go_on p)

  run_step-Keeps : (id : String) (def : StepDef) (p : Progress) → Keeps I (run_step w id def p)
  unfolding run_step
  run_step-Keeps id def p =
      Keeps-bind _ _ (Keeps-try _ (execute_step-Keeps w def (steps_closed def.id) p.eval_ctx))
        by_result
    where
      by_result :
          (result : Result ExecError StepResult)
          → Keeps I (elim result [
            | err e ↦ (do
              handle_step_failure w def
              transition_execution w ExecutionStatus.failed
              pure return)
            | ok r ↦ completes w id (with_step id r p)
          ])
      by_result (err e) =
          Keeps-bind _ _ (handle_step_failure-Keeps def)
            λ _. Keeps-bind _ _ (transition-Keeps w v ExecutionStatus.failed) λ _. Keeps-pure return
      by_result (ok r) = completes-Keeps id (with_step id r p)

  run_approval-Keeps :
      (patience : ℕ) (id : String) (a : ApprovalDef) (p : Progress)
      → Keeps I (run_approval w patience id a p)
  unfolding run_approval
  run_approval-Keeps patience id a p =
      Keeps-bind _ _ (handle_approval-Keeps w v approvals_closed patience a p.eval_ctx) λ approved.
        Keeps-if approved _ _
          (Keeps-bind _ _ (Keeps-ask c w.now) λ now. completes-Keeps id (with_approval id now p))
          (Keeps-bind _ _ (transition-Keeps w v ExecutionStatus.cancelled) λ _. Keeps-pure return)

  run_step_node-Keeps :
      (id : String) (def : Option StepDef) (p : Progress) → Keeps I (run_step_node w id def p)
  unfolding run_step_node
  run_step_node-Keeps id none p = Keeps-throw panic
  run_step_node-Keeps id (some def) p = run_step-Keeps id def p

  run_approval_node-Keeps :
      (patience : ℕ) (id : String) (a : Option ApprovalDef) (p : Progress)
      → Keeps I (run_approval_node w patience id a p)
  unfolding run_approval_node
  run_approval_node-Keeps patience id none p = Keeps-throw panic
  run_approval_node-Keeps patience id (some a) p = run_approval-Keeps patience id a p

  run_found-Keeps :
      (patience : ℕ) (id : String) (node : Option DagNode) (p : Progress)
      → Keeps I (run_found w patience id node p)
  unfolding run_found
  run_found-Keeps patience id none p = Keeps-throw panic
  run_found-Keeps patience id (some node) p =
      Keeps-if (node.type == "step") _ _ (run_step_node-Keeps id node.step_def p)
        (run_approval_node-Keeps patience id node.approval p)

  run_node-Keeps :
      (patience : ℕ) (d : Dag) (id : String) (p : Progress) → Keeps I (run_node w patience d id p)
  unfolding run_node
  run_node-Keeps patience d id p = run_found-Keeps patience id (lookup id d.nodes) p

  run_nodes-Keeps :
      (patience : ℕ) (d : Dag) (ids : List String) (p : Progress)
      → Keeps I (run_nodes w patience d ids p)
  unfolding run_nodes
  run_nodes-Keeps patience d [] p = Keeps-pure (go_on p)
  run_nodes-Keeps patience d (id ∷ ids) p =
      Keeps-bind _ _ (run_node-Keeps patience d id p) (by_flow (run_nodes-Keeps patience d ids))
    where
      by_flow :
          ((q : Progress) → Keeps I (run_nodes w patience d ids q))
          → (flow : Flow)
          → Keeps I (elim flow [ go_on q ↦ run_nodes w patience d ids q | return ↦ pure return ])
      by_flow more (go_on q) = more q
      by_flow more return = Keeps-pure return

  execute_loop-Keeps :
      (o : MapOrder) (patience : ℕ) (d : Dag) (fuel : ℕ) (p : Progress)
      → Keeps I (execute_loop w o patience d fuel p)
  unfolding execute_loop
  execute_loop-Keeps o patience d zero p = Keeps-throw unfinished
  execute_loop-Keeps o patience d (suc fuel) p = Keeps-bind _ _ (Keeps-ask c w.context_done) λ done.
      Keeps-bind _ _ (Keeps-if done _ _ (Keeps-throw context) (Keeps-pure tt)) λ _.
        Keeps-bind _ _ (Keeps-gets (λ s. s.tick)) λ n.
          let ready = get_ready_nodes o n d (completed_set p) in
          Keeps-if (is_empty ready) _ _
            (Keeps-if (eqb (length p.completed) (length d.nodes)) _ _
              (transition-Keeps w v ExecutionStatus.succeeded)
              (transition-Keeps w v ExecutionStatus.failed))
            (Keeps-bind _ _ (run_nodes-Keeps patience d ready p)
              (by_flow (execute_loop-Keeps o patience d fuel)))
    where
      by_flow :
          ((q : Progress) → Keeps I (execute_loop w o patience d fuel q))
          → (flow : Flow)
          → Keeps I (elim flow [ go_on q ↦ execute_loop w o patience d fuel q | return ↦ pure tt ])
      by_flow more (go_on q) = more q
      by_flow more return = Keeps-pure tt

  run_dag-Keeps :
      (o : MapOrder) (patience : ℕ) (exec : Execution) (d : Dag)
      → Keeps I (run_dag w o patience exec d)
  unfolding run_dag
  run_dag-Keeps o patience exec d =
      Keeps-bind _ _ (transition-Keeps w v ExecutionStatus.running)
        λ _. execute_loop-Keeps o patience d (suc (length d.nodes)) (start_progress exec)

  -- The whole call keeps what holds when the execution is loaded.
  pub execute_keeps :
      (o : MapOrder) (patience : ℕ) (exec : Execution) (def : WorkflowDefinition) (s : ExecState)
      → I (record s { exec = exec })
      → I (execute w o patience (some (exec, def)) s).1
  unfolding execute ◌>>=◌
  execute_keeps o patience exec def s h =
      (Keeps-bind (lift (built def)) (run_dag w o patience exec) (Keeps-lift _)
          (run_dag-Keeps o patience exec)).at
        (record s { exec = exec }) h
