-- ===== src/Model/Execution.antt =====
-- internal/model/execution.go: executions, their statuses and their checkpoints.
use flow_ctl.Prelude.{ℕ, String, Option, Assoc}
use flow_ctl.Model.Value.{Value}

pub data ExecutionStatus : Type 0 where
  pending queued running waiting_approval paused : ExecutionStatus
  succeeded failed cancelled retrying : ExecutionStatus

pub data StepStatus : Type 0 where
  pending queued running waiting_approval succeeded : StepStatus
  failed skipped cancelled retrying : StepStatus

pub data ApprovalStatus : Type 0 where
  pending approved rejected : ApprovalStatus

-- The texts of the constants, which Go compares and the database stores.
unfoldable pub execution_status_text : ExecutionStatus → String
execution_status_text ExecutionStatus.pending = "pending"
execution_status_text ExecutionStatus.queued = "queued"
execution_status_text ExecutionStatus.running = "running"
execution_status_text ExecutionStatus.waiting_approval = "waiting_approval"
execution_status_text ExecutionStatus.paused = "paused"
execution_status_text ExecutionStatus.succeeded = "succeeded"
execution_status_text ExecutionStatus.failed = "failed"
execution_status_text ExecutionStatus.cancelled = "cancelled"
execution_status_text ExecutionStatus.retrying = "retrying"

unfoldable pub step_status_text : StepStatus → String
step_status_text StepStatus.pending = "pending"
step_status_text StepStatus.queued = "queued"
step_status_text StepStatus.running = "running"
step_status_text StepStatus.waiting_approval = "waiting_approval"
step_status_text StepStatus.succeeded = "succeeded"
step_status_text StepStatus.failed = "failed"
step_status_text StepStatus.skipped = "skipped"
step_status_text StepStatus.cancelled = "cancelled"
step_status_text StepStatus.retrying = "retrying"

pub record StepResult : Type 0 where
  pub step_id : String
  pub status : StepStatus
  pub outputs : Option (Assoc Value)
  pub error : String
  pub finished_at : ℕ

-- A nil map is `none`.
pub record Checkpoint : Type 0 where
  pub completed_steps : Option (Assoc StepResult)
  pub context : Option (Assoc Value)
  pub version : ℕ

-- The fields that the engine reads or writes.
pub record Execution : Type 0 where
  pub id : ℕ
  pub tenant_id : ℕ
  pub status : ExecutionStatus
  pub inputs : Option (Assoc Value)
  pub context : Option (Assoc Value)
  pub started_at : Option ℕ
  pub checkpoint : Option Checkpoint
