-- ===== src/Executor/Trace/Nodes.antt =====
-- The events of one node of `Execute` (internal/engine/executor.go), and of the nodes of one round.
use flow_ctl.Prelude.{
  ◌≡◌, refl, sym, ◌∙◌, subst, ℕ, String, Bool, true, false, Option, none, some, List, [], ◌∷◌, ◌||◌,
  ◌==◌, arith, has, insert, has-insert, Assoc, All-imp, lookup, if◌then◌else◌, Result, ok, err,
}
use flow_ctl.Model.Workflow.{StepDef, ApprovalDef}
use flow_ctl.Model.Execution.{ExecutionStatus, StepResult}
use flow_ctl.Dag.{Dag, DagNode}
use flow_ctl.Executor.World.{
  World, ExecState, complete, save_checkpoint, log_failure, audit_failure,
}
use flow_ctl.Executor.Effects.{ExecError, panic, pure, throw, emit, ◌>>=◌, ◌>>◌}
use flow_ctl.Executor.Keeps.{
  Keeps, Keeps-bind, Keeps-ask, Keeps-emit, Keeps-statement, Keeps-ignore, Keeps-try,
}
use flow_ctl.Executor.KeepsSteps.{execute_step-Keeps}
use flow_ctl.Executor.KeepsApprovals.{transition-Keeps, handle_approval-Keeps}
use flow_ctl.Executor.Ensures.{
  Ensures, Ensures-pure, Ensures-throw, Ensures-if, Ensures_of_Keeps, Ensures-bind,
}
use flow_ctl.Executor.Transition.{transition_execution}
use flow_ctl.Executor.Execute.{
  Progress, Flow, go_on, return, with_step, with_approval, handle_step_failure, completes, run_step,
  run_approval, run_step_node, run_approval_node, run_found, run_node, run_nodes,
}
use flow_ctl.Executor.Trace.Events.{
  is_done, completed_in, DepsDone, Defines, IsOrdered, AtWork, is_done-cons, AtWork-IsQuiet,
  AtWork-approvals, AtWork-moves, AtWork-steps,
}

module _ (w : World) (d : Dag) (base : Assoc StepResult) where
  abbrev pub Ordered : ExecState → Type 0
  Ordered s = IsOrdered d base s.trace

  -- With `ids` left to run, or after a return.
  unfoldable pub AfterFlow : List String → Flow → ExecState → Type 0
  AfterFlow ids (go_on p) s = AtWork d base ids p.completed s
  AfterFlow ids return s = Ordered s

  transition-Ordered :
      {A : Type 0} {Q : A → ExecState → Type 0} (ids : List String) (m : Assoc StepResult)
      (to : ExecutionStatus) (a : A)
      → ((s : ExecState) → AtWork d base ids m s → Q a s)
      → Ensures (AtWork d base ids m) (transition_execution w to >>= λ _. pure a) Q Ordered
  transition-Ordered ids m to a h =
      Ensures-bind _ _ (Ensures_of_Keeps _ (transition-Keeps w (AtWork-moves d base ids m w) to))
        (λ _. Ensures-pure a h) (λ s k. k.ordered)

  -- `completed[id] = r`, and the event of it.
  completed-AtWork :
      (id : String) (ids : List String) (m : Assoc StepResult) (r : StepResult) (s : ExecState)
      → AtWork d base (id ∷ ids) m s
      → AtWork d base ids (insert id r m) (record s { trace = complete id ∷ s.trace })
  completed-AtWork id ids m r s h = record {
    ordered = h.ordered;
    deps =
        All-imp (λ j. DepsDone d base j s.trace) (λ j. DepsDone d base j (complete id ∷ s.trace))
          (λ j k a p. is_done-cons d base a (complete id) s.trace (k a p)) ids h.deps.1;
    synced = synced;
  }
    where
      synced :
          (k : String)
          → has k (insert id r m) ≡ true
          → is_done d base k (complete id ∷ s.trace) ≡ true
      synced k q = by (id == k) (has k m) (sym (has-insert id k r m) ∙ q) (h.synced k)
        where
          by :
              (a b : Bool)
              → (if a then true else b) ≡ true
              → (b ≡ true → is_done d base k s.trace ≡ true)
              → has k base || (a || completed_in k s.trace) ≡ true
          by true b e f = ground arith
          by false true e f = f refl
          by false false e f = absurd cc

  completes-Ordered :
      (id : String) (ids : List String) (m : Assoc StepResult) (r : StepResult) (p : Progress)
      → p.completed ≡ insert id r m
      → Ensures (AtWork d base (id ∷ ids) m) (completes w id p) (AfterFlow ids) Ordered
  unfolding completes AfterFlow emit
  completes-Ordered id ids m r p e =
      Ensures-bind {Q = λ _ s. AtWork d base ids p.completed s} {X = Ordered} _ _ emitted
        (λ _.
          Ensures-bind _ _
            (Ensures_of_Keeps _ (
              Keeps-ignore _ (
                Keeps-statement (AtWork-IsQuiet d base ids p.completed) w
                  (save_checkpoint p.completed) tt)))
            (λ _. Ensures-pure (go_on p) (λ s h. h)) (λ s h. h.ordered))
        (λ s h. h)
    where
      emitted :
          Ensures
            (AtWork d base (id ∷ ids) m)
            (emit (complete id))
            (λ _ s. AtWork d base ids p.completed s)
            Ordered
      emitted = record {
        at = λ s h.
            subst (λ x. AtWork d base ids x (record s { trace = complete id ∷ s.trace })) (sym e)
              (completed-AtWork id ids m r s h);
      }

  run_step-Ordered :
      (id : String) (ids : List String) (def : StepDef) (p : Progress)
      → Defines d base id def
      → Ensures (AtWork d base (id ∷ ids) p.completed) (run_step w id def p) (AfterFlow ids) Ordered
  unfolding run_step AfterFlow handle_step_failure
  run_step-Ordered id ids def p q =
      Ensures-bind _ _
        (Ensures_of_Keeps _ (
          Keeps-try _
            (execute_step-Keeps w def (AtWork-steps d base id def q ids p.completed) p.eval_ctx)))
        by_result (λ s h. h.ordered)
    where
      failed : Keeps (AtWork d base (id ∷ ids) p.completed) (handle_step_failure w def)
      failed =
          Keeps-bind _ _
            (Keeps-emit (AtWork-IsQuiet d base (id ∷ ids) p.completed) (log_failure def.id) tt)
            λ _. Keeps-ignore _ (
              Keeps-statement (AtWork-IsQuiet d base (id ∷ ids) p.completed) w
                (audit_failure def.id) tt)

      by_result :
          (result : Result ExecError StepResult)
          → Ensures
              (AtWork d base (id ∷ ids) p.completed)
              (elim result [
                | err e ↦ (do
                  handle_step_failure w def
                  transition_execution w ExecutionStatus.failed
                  pure return)
                | ok r ↦ completes w id (with_step id r p)
              ])
              (AfterFlow ids)
              Ordered
      by_result (ok r) = completes-Ordered id ids p.completed r (with_step id r p) refl
      by_result (err e) =
          Ensures-bind _ _ (Ensures_of_Keeps _ failed)
            (λ _.
              transition-Ordered (id ∷ ids) p.completed ExecutionStatus.failed return
                (λ s h. h.ordered))
            (λ s h. h.ordered)

  run_approval-Ordered :
      (patience : ℕ) (id : String) (ids : List String) (a : ApprovalDef) (p : Progress)
      → Ensures
          (AtWork d base (id ∷ ids) p.completed)
          (run_approval w patience id a p)
          (AfterFlow ids)
          Ordered
  unfolding run_approval AfterFlow
  run_approval-Ordered patience id ids a p =
      Ensures-bind _ _
        (Ensures_of_Keeps _ (
          handle_approval-Keeps w (AtWork-moves d base (id ∷ ids) p.completed w)
            (AtWork-approvals d base (id ∷ ids) p.completed) patience a p.eval_ctx))
        (λ approved.
          Ensures-if approved _ _
            (Ensures-bind _ _
              (Ensures_of_Keeps _ (Keeps-ask (AtWork-IsQuiet d base (id ∷ ids) p.completed) w.now))
              (λ now. completes-Ordered id ids p.completed _ (with_approval id now p) refl)
              (λ s h. h.ordered))
            (transition-Ordered (id ∷ ids) p.completed ExecutionStatus.cancelled return
              (λ s h. h.ordered)))
        (λ s h. h.ordered)

  panics :
      (ids : List String) (p : Progress) (jds : List String)
      → Ensures (AtWork d base ids p.completed) (throw panic) (AfterFlow jds) Ordered
  panics ids p jds = Ensures-throw panic (λ s h. h.ordered)

  run_node-Ordered :
      (patience : ℕ) (id : String) (ids : List String) (p : Progress)
      → Ensures
          (AtWork d base (id ∷ ids) p.completed)
          (run_node w patience d id p)
          (AfterFlow ids)
          Ordered
  unfolding run_node run_found run_step_node run_approval_node
  run_node-Ordered patience id ids p = by_lookup (lookup id d.nodes) refl
    where
      by_step :
          (n : DagNode) (o : Option StepDef)
          → lookup id d.nodes ≡ some n
          → n.step_def ≡ o
          → Ensures
              (AtWork d base (id ∷ ids) p.completed)
              (run_step_node w id o p)
              (AfterFlow ids)
              Ordered
      by_step n none e f = panics (id ∷ ids) p ids
      by_step n (some def) e f =
          run_step-Ordered id ids def p (record { node = n; found = e; defined = f })

      by_approval :
          (o : Option ApprovalDef)
          → Ensures
              (AtWork d base (id ∷ ids) p.completed)
              (run_approval_node w patience id o p)
              (AfterFlow ids)
              Ordered
      by_approval none = panics (id ∷ ids) p ids
      by_approval (some a) = run_approval-Ordered patience id ids a p

      by_lookup :
          (o : Option DagNode)
          → lookup id d.nodes ≡ o
          → Ensures
              (AtWork d base (id ∷ ids) p.completed)
              (run_found w patience id o p)
              (AfterFlow ids)
              Ordered
      by_lookup none e = panics (id ∷ ids) p ids
      by_lookup (some n) e =
          Ensures-if (n.type == "step") _ _ (by_step n n.step_def e refl) (by_approval n.approval)

  pub run_nodes-Ordered :
      (patience : ℕ) (ids : List String) (p : Progress)
      → Ensures
          (AtWork d base ids p.completed)
          (run_nodes w patience d ids p)
          (AfterFlow [])
          Ordered
  unfolding run_nodes AfterFlow
  run_nodes-Ordered patience [] p = Ensures-pure (go_on p) (λ s h. h)
  run_nodes-Ordered patience (id ∷ ids) p =
      Ensures-bind _ _ (run_node-Ordered patience id ids p)
        (by_flow (λ p'. run_nodes-Ordered patience ids p')) (λ s h. h)
    where
      by_flow :
          ((p' : Progress)
            → Ensures
                (AtWork d base ids p'.completed)
                (run_nodes w patience d ids p')
                (AfterFlow [])
                Ordered)
          → (flow : Flow)
          → Ensures
              (AfterFlow ids flow)
              (elim flow [ go_on p' ↦ run_nodes w patience d ids p' | return ↦ pure return ])
              (AfterFlow [])
              Ordered
      by_flow rest (go_on p') = rest p'
      by_flow rest return = Ensures-pure return (λ s h. h)
