-- ===== src/Model/Workflow.antt =====
-- internal/model/workflow.go: a workflow's definition.
use flow_ctl.Prelude.{String, Bool, Option, List, Assoc}
use flow_ctl.Model.Value.{Value, ℤ}

-- `InputType` is a Go string: any text may stand there until it is validated.
pub record InputDef : Type 0 where
  pub name : String
  pub type : String
  pub required : Bool
  pub default : Value
  pub description : String
  pub enum : List Value

pub record RetryPolicy : Type 0 where
  pub max_attempts : ℤ
  pub backoff : String
  pub initial_wait : String
  pub max_wait : String

pub record CompensationDef : Type 0 where
  pub runner : String
  pub config : Assoc Value
  pub command : String

pub record StepDef : Type 0 where
  pub id : String
  pub name : String
  pub runner : String
  pub depends_on : List String
  pub when : String
  pub config : Assoc Value
  pub command : String
  pub image : String
  pub host : String
  pub timeout : String
  pub retry : Option RetryPolicy
  pub compensation : Option CompensationDef
  pub inputs : Assoc Value
  pub env : Assoc String

pub record ApprovalDef : Type 0 where
  pub id : String
  pub depends_on : List String
  pub when : String
  pub required_roles : List String
  pub message : String

pub record WorkflowDefinition : Type 0 where
  pub name : String
  pub version : String
  pub description : String
  pub inputs : List InputDef
  pub steps : List StepDef
  pub approvals : List ApprovalDef
