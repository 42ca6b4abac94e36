-- ===== src/Executor/Trace/Loop.antt =====
-- The order in which `Execute` (internal/engine/executor.go) runs the commands of the nodes.
use flow_ctl.Prelude.{
  ◌≡◌, refl, sym, subst, ◌<◌, ℕ, zero, suc, String, some, List, [], ◌∷◌, eqb, eq_refl, arith, count,
  Assoc, All, length, is_empty, if◌then◌else◌, Result, ok, err,
}
use flow_ctl.Model.Workflow.{WorkflowDefinition}
use flow_ctl.Model.Execution.{ExecutionStatus, StepResult, Execution}
use flow_ctl.Dag.{Dag, MapOrder, IsDag, build_dag, get_ready_nodes}
use flow_ctl.Dag.Edges.{build_dag-IsDag}
use flow_ctl.Dag.Progress.{ready_sound}
use flow_ctl.Executor.World.{World, ExecState}
use flow_ctl.Executor.Effects.{
  ExecError, context, unfinished, build_failed, pure, throw, lift, and_then, ◌>>=◌,
}
use flow_ctl.Executor.Keeps.{Keeps-pure, Keeps-throw, Keeps-if, Keeps-ask, Keeps-gets}
use flow_ctl.Executor.KeepsApprovals.{transition-Keeps}
use flow_ctl.Executor.Ensures.{
  Post, Ensures, Ensures-pure, Ensures-throw, Ensures-if, Ensures_of_Keeps, Ensures-bind,
}
use flow_ctl.Executor.Transition.{transition_execution}
use flow_ctl.Executor.Execute.{
  Progress, Flow, go_on, return, completed_set, run_nodes, execute_loop, start_progress,
  load_completed_steps, load_execution, built, run_dag, execute,
}
use flow_ctl.Executor.Trace.Events.{DepsDone, IsOrdered, AtWork, AtWork-IsQuiet, AtWork-moves}
use flow_ctl.Executor.Trace.Nodes.{AfterFlow, run_nodes-Ordered}

-- What holds of every name that a list holds.
All-count :
    (P : String → Type 0) (xs : List String) → ((k : String) → 0 < count k xs → P k) → All P xs
All-count P [] h = tt
All-count P (x ∷ xs) h =
    (h x (ground (arith, eq_refl x)), All-count P xs (λ k p. h k (ground (arith, p))))

module _ (w : World) (d : Dag) (g : IsDag d) (base : Assoc StepResult) where
  abbrev Ordered : ExecState → Type 0
  Ordered s = IsOrdered d base s.trace

  -- The nodes that are ready have their dependencies done.
  ready-AtWork :
      (o : MapOrder) (n : ℕ) (p : Progress) (s : ExecState)
      → AtWork d base [] p.completed s
      → AtWork d base (get_ready_nodes o n d (completed_set p)) p.completed s
  ready-AtWork o n p s h = record {
    ordered = h.ordered;
    deps =
        All-count (λ id. DepsDone d base id s.trace) (get_ready_nodes o n d (completed_set p))
          (λ k q a r. h.synced a ((ready_sound o n d g (completed_set p) k q).2 a r));
    synced = h.synced;
  }

  execute_loop-Ordered :
      (o : MapOrder) (patience fuel : ℕ) (p : Progress)
      → Ensures
          (AtWork d base [] p.completed)
          (execute_loop w o patience d fuel p)
          (λ _ s. Ordered s)
          Ordered
  unfolding execute_loop AfterFlow
  execute_loop-Ordered o patience zero p = Ensures-throw unfinished (λ s h. h.ordered)
  execute_loop-Ordered o patience (suc fuel) p =
      Ensures-bind _ _
        (Ensures_of_Keeps _ (Keeps-ask (AtWork-IsQuiet d base [] p.completed) w.context_done))
        (λ done.
          Ensures-bind _ _
            (Ensures_of_Keeps _
              (Keeps-if done (throw context) (pure tt) (Keeps-throw context) (Keeps-pure tt)))
            (λ _.
              Ensures-bind _ _ (Ensures_of_Keeps _ (Keeps-gets (λ (s : ExecState). s.tick)))
                (λ n. round n (λ p'. execute_loop-Ordered o patience fuel p')) (λ s h. h.ordered))
            (λ s h. h.ordered))
        (λ s h. h.ordered)
    where
      ends :
          (to : ExecutionStatus)
          → Ensures
              (AtWork d base [] p.completed)
              (transition_execution w to)
              (λ _ s. Ordered s)
              Ordered
      ends to = record {
        at = λ s h.
            after (transition_execution w to s).0 (transition_execution w to s).1
              (((transition-Keeps w (AtWork-moves d base [] p.completed w) to).at s h).ordered);
      }
        where
          after :
              (r : Result ExecError Unit) (s : ExecState)
              → Ordered s
              → Post (λ _ s. Ordered s) Ordered r s
          after (ok a) s h = h
          after (err e) s h = h

      Rest : Type 0
      Rest =
          (p' : Progress)
          → Ensures (AtWork d base [] p'.completed) (execute_loop w o patience d fuel p')
              (λ _ s. Ordered s) Ordered

      by_flow :
          Rest
          → (flow : Flow)
          → Ensures
              (AfterFlow w d base [] flow)
              (elim flow [ go_on p' ↦ execute_loop w o patience d fuel p' | return ↦ pure tt ])
              (λ _ s. Ordered s)
              Ordered
      by_flow rest (go_on p') = rest p'
      by_flow rest return = Ensures-pure tt (λ s h. h)

      ran :
          (n : ℕ)
          → Ensures
              (AtWork d base [] p.completed)
              (run_nodes w patience d (get_ready_nodes o n d (completed_set p)) p)
              (AfterFlow w d base [])
              Ordered
      ran n = record {
        at = λ s h.
            (run_nodes-Ordered w d base patience (get_ready_nodes o n d (completed_set p)) p).at s
              (ready-AtWork o n p s h);
      }

      round :
          (n : ℕ)
          → Rest
          → Ensures
              (AtWork d base [] p.completed)
              (let ready = get_ready_nodes o n d (completed_set p) in
                if is_empty ready
                then (if eqb (length p.completed) (length d.nodes)
                    then transition_execution w ExecutionStatus.succeeded
                    else transition_execution w ExecutionStatus.failed)
                else (do
                  flow ← run_nodes w patience d ready p
                  elim flow [ go_on p' ↦ execute_loop w o patience d fuel p' | return ↦ pure tt ]))
              (λ _ s. Ordered s)
              Ordered
      round n rest =
          Ensures-if (is_empty (get_ready_nodes o n d (completed_set p))) _ _
            (Ensures-if (eqb (length p.completed) (length d.nodes)) _ _
              (ends ExecutionStatus.succeeded) (ends ExecutionStatus.failed))
            (Ensures-bind _ _ (ran n) (by_flow rest) (λ s h. h))

  run_dag-Ordered :
      (o : MapOrder) (patience : ℕ) (exec : Execution)
      → base ≡ load_completed_steps exec
      → Ensures
          (AtWork d base [] (load_completed_steps exec))
          (run_dag w o patience exec d)
          (λ _ s. Ordered s)
          Ordered
  unfolding run_dag
  run_dag-Ordered o patience exec e =
      Ensures-bind _ _
        (Ensures_of_Keeps _ (
          transition-Keeps w (AtWork-moves d base [] (load_completed_steps exec) w)
            ExecutionStatus.running))
        (λ _. execute_loop-Ordered o patience (suc (length d.nodes)) (start_progress exec))
        (λ s h. h.ordered)

Post-Ordered :
    (d : Dag) (base : Assoc StepResult) (r : Result ExecError Unit) (s : ExecState)
    → Post (λ _ s. IsOrdered d base s.trace) (λ s. IsOrdered d base s.trace) r s
    → IsOrdered d base s.trace
Post-Ordered d base (ok a) s h = h
Post-Ordered d base (err e) s h = h

-- Whatever the database, the runners and the clock answer, Execute runs a command only for the step of a
-- node of the graph, or for its compensation, and when every dependency of the node was complete
-- in the loaded checkpoint or is completed by an earlier event of the run.
pub execute-IsOrdered :
    (w : World) (o : MapOrder) (patience : ℕ) (exec : Execution) (def : WorkflowDefinition)
    (d : Dag) (s : ExecState)
    → build_dag def ≡ ok d
    → s.trace ≡ []
    → IsOrdered d (load_completed_steps exec) (execute w o patience (some (exec, def)) s).1.trace
unfolding execute load_execution built ◌>>=◌ and_then lift
execute-IsOrdered w o patience exec def d s b e =
    let base = load_completed_steps exec in
    let loaded : ExecState = record s { exec = exec } in
    let start : AtWork d base [] base loaded = record {
      ordered = subst (IsOrdered d base) (sym e) tt;
      deps = tt;
      synced = λ k h. ground (arith, h);
    } in
    subst
      (λ r.
        IsOrdered d base
          (and_then (elim r [ ok g ↦ ok g | err x ↦ err (build_failed x) ])
            (run_dag w o patience exec) loaded).1.trace)
      (sym b)
      (Post-Ordered d base (run_dag w o patience exec d loaded).0
        (run_dag w o patience exec d loaded).1
        ((run_dag-Ordered w d (build_dag-IsDag def d b) base o patience exec refl).at loaded start))
