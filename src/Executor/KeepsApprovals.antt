-- ===== src/Executor/KeepsApprovals.antt =====
-- `transitionExecution` and `handleApproval` of internal/engine/executor.go: their outcomes, and the
-- invariants that they keep.
use flow_ctl.Prelude.{
  ◌≡◌, inl, inr, ℕ, zero, suc, String, Bool, true, false, Option, none, some, ◌==◌, ◌||◌, arith,
  Bool-cases, Option-cases, if◌then◌else◌, Result, ok, err, ◌∷◌,
}
use flow_ctl.Model.Workflow.{ApprovalDef}
use flow_ctl.Model.Execution.{ExecutionStatus, Execution}
use flow_ctl.StateMachine.{validate_execution_transition}
use flow_ctl.Huml.Context.{EvalContext}
use flow_ctl.Executor.World.{World, Event, ExecState, insert_approval, set_status}
use flow_ctl.Executor.Effects.{
  ExecError, invalid_transition, database, context, waiting, throw, ask, gets, emit, statement,
  ◌>>=◌,
}
use flow_ctl.Executor.Keeps.{
  Keeps, IsClosed, Keeps-pure, Keeps-throw, Keeps-bind, Keeps-if, Keeps-ask, Keeps-statement,
  Keeps-ignore, Keeps-lift,
}
use flow_ctl.Executor.Transition.{transition_execution, starts, finishes}
use flow_ctl.Executor.Approval.{
  check_approval_status, resolve, await_answer, listen, request_approval, handle_approval,
}

abbrev pub times_of : Execution → ExecutionStatus → ℕ → Option ℕ × Option ℕ
times_of exec to now =
    (if starts exec to then some now else none, if finishes to then some now else none)

-- The state after a transition that was written.
abbrev pub moved : World → ExecutionStatus → ExecState → ExecState
moved w to s =
    let e = s.exec in
    let t = times_of e to (w.now s.tick) in
    record s {
      exec = record e { status = to };
      tick = suc (suc s.tick);
      trace = set_status to t.0 t.1 ∷ s.trace;
    }

-- The transition is refused by the table, or its statement fails, or it is made.
pub data TransitionCases (w : World) (to : ExecutionStatus) (s : ExecState)
    : Result ExecError Unit × ExecState → Type 0 where
  refused :
      (m : String)
      → validate_execution_transition s.exec.status to ≡ some m
      → TransitionCases w to s (err (invalid_transition m), s)
  unwritten :
      validate_execution_transition s.exec.status to ≡ none
      → w.statement_ok (suc s.tick) ≡ false
      → TransitionCases w to s (err database, record s { tick = suc (suc s.tick) })
  made :
      validate_execution_transition s.exec.status to ≡ none
      → w.statement_ok (suc s.tick) ≡ true
      → TransitionCases w to s (ok tt, moved w to s)

module _ (w : World) (to : ExecutionStatus) (s : ExecState) where
  pub transition_refused :
      (m : String)
      → validate_execution_transition s.exec.status to ≡ some m
      → transition_execution w to s ≡ (err (invalid_transition m), s)
  unfolding transition_execution statement ◌>>=◌ throw ask gets emit
  transition_refused m e = ground arith

  pub transition_unwritten :
      validate_execution_transition s.exec.status to ≡ none
      → w.statement_ok (suc s.tick) ≡ false
      → transition_execution w to s ≡ (err database, record s { tick = suc (suc s.tick) })
  unfolding transition_execution statement ◌>>=◌ throw ask gets emit
  transition_unwritten e f = ground arith

  pub transition_made :
      validate_execution_transition s.exec.status to ≡ none
      → w.statement_ok (suc s.tick) ≡ true
      → transition_execution w to s ≡ (ok tt, moved w to s)
  unfolding transition_execution statement ◌>>=◌ throw ask gets emit
  transition_made e f = ground arith

  pub transition_cases : TransitionCases w to s (transition_execution w to s)
  transition_cases = elim (Option-cases (validate_execution_transition s.exec.status to)) [
    | inr (m, e) ↦ rw (transition_refused m e) (refused m e)
    | inl e ↦ elim (Bool-cases (w.statement_ok (suc s.tick))) [
      | inl f ↦ rw (transition_made e f) (made e f)
      | inr f ↦ rw (transition_unwritten e f) (unwritten e f)
    ]
  ]

-- An invariant that bears the transitions that the table allows.
pub record IsMovable (w : World) (I : ExecState → Type 0) : Type 0 where
  pub ticks : (s : ExecState) → I s → I (record s { tick = suc s.tick })
  pub moves :
      (to : ExecutionStatus) (s : ExecState)
      → validate_execution_transition s.exec.status to ≡ none
      → I s
      → I (moved w to s)

module _ {I : ExecState → Type 0} (w : World) (v : IsMovable w I) where
  pub transition-Keeps : (to : ExecutionStatus) → Keeps I (transition_execution w to)
  transition-Keeps to = record {
    at = λ s h. by_cases s h (transition_execution w to s) (transition_cases w to s);
  }
    where
      by_cases :
          (s : ExecState)
          → I s
          → (r : Result ExecError Unit × ExecState) → TransitionCases w to s r
          → I r.1
      by_cases s h r (refused m e) = h
      by_cases s h r (unwritten e f) = v.ticks _ (v.ticks s h)
      by_cases s h r (made e f) = v.moves to s e h

-- An invariant that bears all that an approval can cause.
abbrev pub IsApprovalEvent : Event → Type 0
IsApprovalEvent (insert_approval row step roles) = Unit
IsApprovalEvent _ = ⊥

module _ {I : ExecState → Type 0} (w : World) (v : IsMovable w I)
    (c : IsClosed I IsApprovalEvent) where
  resolve-Keeps : (approved : Bool) → Keeps I (resolve w approved)
  unfolding resolve
  resolve-Keeps true =
      Keeps-bind _ _ (Keeps-ignore _ (transition-Keeps w v ExecutionStatus.running))
        λ _. Keeps-pure true
  resolve-Keeps false = Keeps-pure false

  check-Keeps : Keeps I (check_approval_status w)
  unfolding check_approval_status
  check-Keeps = Keeps-ask c _

  await_answer-Keeps : (patience : ℕ) → Keeps I (await_answer w patience)
  unfolding await_answer
  await_answer-Keeps zero = Keeps-throw waiting
  await_answer-Keeps (suc patience) = Keeps-bind _ _ (Keeps-ask c w.context_done) λ done.
      Keeps-if done _ _ (Keeps-throw context)
        (Keeps-bind _ _ check-Keeps (answered (await_answer-Keeps patience)))
    where
      answered :
          Keeps I (await_answer w patience)
          → (answer : Option Bool)
          → Keeps I
              (elim answer [ none ↦ await_answer w patience | some approved ↦ resolve w approved ])
      answered again none = again
      answered again (some approved) = resolve-Keeps approved

  listen-Keeps : Keeps I (listen w)
  unfolding listen
  listen-Keeps = Keeps-bind _ _ (Keeps-ask c w.statement_ok) λ acquired.
      Keeps-bind _ _ (Keeps-if acquired _ _ (Keeps-pure tt) (Keeps-throw database)) λ _.
        Keeps-bind _ _ (Keeps-ask c w.statement_ok)
          λ listening. Keeps-if listening _ _ (Keeps-pure tt) (Keeps-throw database)

  request_approval-Keeps :
      (patience : ℕ) (approval : ApprovalDef) → Keeps I (request_approval w patience approval)
  unfolding request_approval
  request_approval-Keeps patience approval = Keeps-bind _ _ (Keeps-ask c w.new_uuid) λ row.
      Keeps-bind _ _ (Keeps-statement c w _ tt) λ _.
        Keeps-bind _ _ (Keeps-ignore _ (transition-Keeps w v ExecutionStatus.waiting_approval))
          λ _. Keeps-bind _ _ listen-Keeps λ _. Keeps-bind _ _ check-Keeps answered
    where
      answered :
          (answer : Option Bool)
          → Keeps I
              (elim answer [ none ↦ await_answer w patience | some approved ↦ resolve w approved ])
      answered none = await_answer-Keeps patience
      answered (some approved) = resolve-Keeps approved

  pub handle_approval-Keeps :
      (patience : ℕ) (approval : ApprovalDef) (x : EvalContext)
      → Keeps I (handle_approval w patience approval x)
  unfolding handle_approval
  handle_approval-Keeps patience approval x =
      Keeps-if (approval.when == "") _ _ (request_approval-Keeps patience approval) (
        Keeps-bind _ _ (Keeps-lift _) λ condition.
          Keeps-if (condition == "false" || condition == "") _ _ (Keeps-pure true)
            (request_approval-Keeps patience approval))
