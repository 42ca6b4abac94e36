-- ===== src/Handlers/Execution/Writes.antt =====
-- What writes to the table of executions: internal/api/handler/execution.go,
-- internal/engine/scheduler.go and the status of internal/engine/executor.go.
use flow_ctl.Prelude.{◌≡◌, refl, subst, ℕ, Bool, true, Option, some, List}
use flow_ctl.Model.Execution.{ExecutionStatus}
use flow_ctl.Store.{ExecutionRow, Executions, update_row}
use flow_ctl.Store.Rows.{After}
use flow_ctl.Scheduler.{
  WorkflowRow, CronRow, NodeRow, handle_new_execution, poll_for_work, perform_takeover,
  process_cron_schedules,
}
use flow_ctl.Handlers.Execution.{Faults, StartRequest, start, cancel, retry}
use flow_ctl.Handlers.Execution.Used.{
  KeepsKeys, update_row-KeepsKeys, start-KeepsKeys, cancel-KeepsKeys, retry-KeepsKeys,
}
use flow_ctl.Handlers.Execution.Used.Scheduled.{
  handle_new_execution-KeepsKeys, poll_for_work-KeepsKeys, perform_takeover-KeepsKeys,
  process_cron_schedules-KeepsKeys,
}

abbrev pub with_status : ExecutionStatus → ExecutionRow → ExecutionRow
with_status status r = record r { status = status }

-- One request of any tenant, one operation of any node's scheduler, or one status written by an executor.
pub data Write (rows : Executions) : Executions → Type 0 where
  starts :
      (faults : Faults) (workflows : List WorkflowRow) (tenant user id now : ℕ)
      (body : Option StartRequest)
      → Write rows (start faults workflows tenant user id now body rows).1
  cancels :
      (updates : Bool) (tenant now : ℕ) (id : Option ℕ)
      → Write rows (cancel updates tenant now id rows).1
  retries :
      (faults : Faults) (tenant user new_id now : ℕ) (id : Option ℕ)
      → Write rows (retry faults tenant user new_id now id rows).1
  polls :
      (lock : ℕ → Option Bool) (writes : ℕ → Bool) (node now : ℕ)
      → Write rows (poll_for_work lock writes node now rows).1
  notifies :
      (lock : Option Bool) (writes : Bool) (node now : ℕ) (payload : Option ℕ)
      → Write rows (handle_new_execution lock writes node now payload rows).1
  takes_over :
      (reassigns deletes : ℕ → Bool) (node now threshold : ℕ) (nodes : List NodeRow)
      → Write rows (perform_takeover reassigns deletes node now threshold (rows, nodes)).0
  fires :
      (ids : ℕ → ℕ) (now : ℕ) (workflows : List WorkflowRow) (crons : List CronRow)
      → Write rows (process_cron_schedules ids now workflows (crons, rows)).1
  moves :
      (id : ℕ) (status : ExecutionStatus) (after : Executions)
      → update_row id (λ r. true) (with_status status) rows ≡ some after
      → Write rows after

pub data Writes (rows : Executions) : Executions → Type 0 where
  done : Writes rows rows
  later : {middle after : Executions} → Writes rows middle → Write middle after → Writes rows after

Write-KeepsKeys : {rows after : Executions} → Write rows after → KeepsKeys rows after
Write-KeepsKeys {rows} (starts faults workflows tenant user id now body) =
    start-KeepsKeys faults workflows tenant user id now body rows
Write-KeepsKeys {rows} (cancels updates tenant now id) = cancel-KeepsKeys updates tenant now id rows
Write-KeepsKeys {rows} (retries faults tenant user new_id now id) =
    retry-KeepsKeys faults tenant user new_id now id rows
Write-KeepsKeys {rows} (polls lock writes node now) =
    poll_for_work-KeepsKeys lock writes node now rows
Write-KeepsKeys {rows} (notifies lock writes node now payload) =
    handle_new_execution-KeepsKeys lock writes node now payload rows
Write-KeepsKeys {rows} (takes_over reassigns deletes node now threshold nodes) =
    perform_takeover-KeepsKeys reassigns deletes node now threshold (rows, nodes)
Write-KeepsKeys {rows} (fires ids now workflows crons) =
    process_cron_schedules-KeepsKeys ids now workflows (crons, rows)
Write-KeepsKeys {rows} (moves id status after e) =
    subst (After (KeepsKeys rows)) e
      (update_row-KeepsKeys id (λ r. true) (with_status status) rows (λ r. (refl, refl)))

pub Writes-KeepsKeys : {rows after : Executions} → Writes rows after → KeepsKeys rows after
Writes-KeepsKeys done key tenant u = u
Writes-KeepsKeys (later ws w) key tenant u =
    Write-KeepsKeys w key tenant (Writes-KeepsKeys ws key tenant u)
