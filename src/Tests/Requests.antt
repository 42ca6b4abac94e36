-- ===== src/Tests/Requests.antt =====
-- Tests of the handlers, and their theorems at sample requests.
use flow_ctl.Prelude.{◌≡◌, refl, String, true, none, some, List, [], ◌∷◌}
use flow_ctl.Model.Execution.{ExecutionStatus, ApprovalStatus}
use flow_ctl.Store.{ExecutionRow, Executions}
use flow_ctl.Scheduler.{WorkflowRow, poll_for_work}
use flow_ctl.Handlers.Execution.{existing, Faults, StartRequest, start, cancel}
use flow_ctl.Handlers.Execution.Writes.{Write, Writes}
use flow_ctl.Handlers.Execution.Keys.{IsFailure, start_again, start_without_key}
use flow_ctl.Handlers.Execution.Tenants.{
  others, Call, call_all, others-call_all, IsCancel, cancel-IsCancel,
}
use flow_ctl.Handlers.Approval.{ApprovalRow, approval_of, call_all_answered}
use flow_ctl.Handlers.Approval

abbrev fine : Faults
fine = record { lookup = true; version = true; insert = true }

abbrev workflows : List WorkflowRow
workflows = record { id = 5; tenant_id = 1; active_version_id = some 2 } ∷ []

abbrev request : (key : String) → StartRequest
request key = record { workflow = some 5; inputs = none; idempotency_key = key }

-- Another tenant's running execution.
abbrev foreign : ExecutionRow
foreign = record {
  id = 90;
  tenant_id = 9;
  workflow_id = 6;
  version_id = 3;
  status = ExecutionStatus.running;
  idempotency_key = some "k";
  inputs = [];
  triggered_by = none;
  trigger_type = "cron";
  created_at = 0;
  finished_at = none;
  scheduler_node = some 1;
  lock_acquired_at = some 1;
}

abbrev after_start : (key : String) → Executions
unfolding start
after_start key = (start fine workflows 1 2 30 100 (some (request key)) (foreign ∷ [])).1

start_again_example :
    start fine workflows 1 3 31 101 (some (request "k")) (after_start "k")
    ≡ (existing 30, after_start "k")
unfolding start
start_again_example =
    start_again fine fine workflows workflows 1 2 3 30 31 30 100 101 5 (request "k") (request "k")
      (foreign ∷ []) (after_start "k") refl refl refl refl refl

-- The execution is cancelled, another one is started with a key, and a node polls.
abbrev cancelled_rows : Executions
unfolding cancel
cancelled_rows = (cancel true 1 105 (some 30) (after_start "")).1

abbrev keyed_rows : Executions
unfolding start
keyed_rows = (start fine workflows 1 2 40 106 (some (request "k")) cancelled_rows).1

abbrev polled_rows : Executions
unfolding poll_for_work
polled_rows = (poll_for_work (λ id. some true) (λ id. true) 8 107 keyed_rows).1

between : Writes (after_start "") polled_rows
unfolding start cancel poll_for_work
between =
    Writes.later
      (Writes.later (Writes.later Writes.done (Write.cancels true 1 105 (some 30)))
        (Write.starts fine workflows 1 2 40 106 (some (request "k"))))
      (Write.polls (λ id. some true) (λ id. true) 8 107)

start_without_key_example :
    IsFailure (start fine workflows 1 3 31 108 (some (request "")) polled_rows).0
    × ((start fine workflows 1 3 31 108 (some (request "")) polled_rows).1 ≡ polled_rows)
unfolding start
start_without_key_example =
    start_without_key fine fine workflows workflows 1 2 3 30 31 30 100 108 (request "") (request "")
      (foreign ∷ []) (after_start "") polled_rows refl refl between refl

abbrev calls : List Call
calls =
    Call.starting fine workflows 2 30 100 (some (request "k"))
    ∷ Call.cancelling true 101 (some 90)
    ∷ Call.retrying fine 2 31 102 (some 30)
    ∷ []

others-call_all_example : others 1 (call_all 1 calls (foreign ∷ [])) ≡ foreign ∷ []
others-call_all_example = others-call_all 1 calls (foreign ∷ [])

cancel-IsCancel_example :
    IsCancel 9 50 90 (foreign ∷ []) (cancel true 9 50 (some 90) (foreign ∷ []))
cancel-IsCancel_example = cancel-IsCancel true 9 50 90 (foreign ∷ [])

abbrev answer : ApprovalRow
answer = record {
  id = 4;
  tenant_id = 1;
  execution_id = 30;
  status = ApprovalStatus.rejected;
  responded_at = some 10;
  responded_by = some 2;
  comment = "no";
}

abbrev approval_request : Approval.Request
approval_request = record { tenant = 1; user = 3; now = 20; approval = some 4; comment = "yes" }

call_all_answered_example :
    approval_of 4
      (Approval.call_all (Approval.Call.approving true approval_request ∷ []) (answer ∷ []))
    ≡ some answer
unfolding approval_of
call_all_answered_example =
    call_all_answered (Approval.Call.approving true approval_request ∷ []) (answer ∷ []) 4 answer
      refl refl
