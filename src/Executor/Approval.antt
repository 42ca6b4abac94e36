-- ===== src/Executor/Approval.antt =====
-- internal/engine/executor.go: `handleApproval` and `checkApprovalStatus`.
use flow_ctl.Prelude.{
  ℕ, zero, suc, String, Bool, true, false, Option, none, some, ◌==◌, ◌||◌, if◌then◌else◌,
}
use flow_ctl.Model.Workflow.{ApprovalDef}
use flow_ctl.Model.Execution.{ExecutionStatus}
use flow_ctl.Huml.Context.{EvalContext}
use flow_ctl.Executor.World.{World, insert_approval}
use flow_ctl.Executor.Effects.{
  Action, context, database, waiting, pure, throw, ask, lift, ignore, statement, ◌>>=◌, ◌>>◌,
}
use flow_ctl.Executor.Step.{evaluate}
use flow_ctl.Executor.Transition.{transition_execution}

-- The pair (approved, resolved): `none` is not resolved.
unfoldable pub answer_of : Option String → Option Bool
answer_of none = none
answer_of (some status) =
    if status == "approved" then some true else if status == "rejected" then some false else none

module _ (w : World) where
  unfoldable pub check_approval_status : Action (Option Bool)
  unfolding answer_of
  check_approval_status = ask (λ n. answer_of (w.approval_status n))

  -- What follows a resolved check.
  unfoldable pub resolve : Bool → Action Bool
  unfolding transition_execution
  resolve true = do ignore (transition_execution w ExecutionStatus.running); pure true
  resolve false = pure false

  -- The waiting loop, for as many rounds as `patience` says: the code waits for ever.
  unfoldable pub await_answer : (patience : ℕ) → Action Bool
  unfolding check_approval_status resolve
  await_answer zero = throw waiting
  await_answer (suc patience) = do
    done ← ask w.context_done
    if done then throw context else (do
      answer ← check_approval_status
      elim answer [ none ↦ await_answer patience | some approved ↦ resolve approved ])

  -- `Acquire` and `LISTEN` both can fail.
  unfoldable pub listen : Action Unit
  listen = do
    acquired ← ask w.statement_ok
    if acquired then pure tt else throw database
    listening ← ask w.statement_ok
    if listening then pure tt else throw database

  unfoldable pub request_approval : (patience : ℕ) → ApprovalDef → Action Bool
  unfolding transition_execution listen check_approval_status await_answer resolve
  request_approval patience approval = do
    row ← ask w.new_uuid
    statement w (insert_approval row approval.id approval.required_roles)
    ignore (transition_execution w ExecutionStatus.waiting_approval)
    listen
    answer ← check_approval_status
    elim answer [ none ↦ await_answer patience | some approved ↦ resolve approved ]

  unfoldable pub handle_approval : (patience : ℕ) → ApprovalDef → EvalContext → Action Bool
  unfolding evaluate request_approval
  handle_approval patience approval c =
      if approval.when == "" then request_approval patience approval else (do
        condition ← lift (evaluate w approval.when c)
        if condition == "false" || condition == ""
            then pure true
            else request_approval patience approval)
