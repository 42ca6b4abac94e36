-- ===== src/Tests/Samples.antt =====
-- The workflow of the tests: `build`, then the approval `gate`, then `deploy`.
use flow_ctl.Prelude.{ℕ, String, true, false, none, some, List, [], ◌∷◌, refl, ok}
use flow_ctl.Model.Value.{pos}
use flow_ctl.Model.Workflow.{StepDef, ApprovalDef, WorkflowDefinition}
use flow_ctl.Model.Execution.{ExecutionStatus, Execution}
use flow_ctl.Dag.{MapOrder}
use flow_ctl.Executor.World.{World, Request, RunOutcome, ExecState}

abbrev pub step : String → List String → StepDef
step id deps = record {
  id = id;
  name = "";
  runner = "local";
  depends_on = deps;
  when = "";
  config = [];
  command = "make";
  image = "";
  host = "";
  timeout = "";
  retry = none;
  compensation = none;
  inputs = [];
  env = [];
}

abbrev pub approval : String → List String → ApprovalDef
approval id deps = record {
  id = id;
  depends_on = deps;
  when = "";
  required_roles = "lead" ∷ [];
  message = "";
}

abbrev pub workflow : List StepDef → List ApprovalDef → WorkflowDefinition
workflow steps approvals = record {
  name = "release";
  version = "1";
  description = "";
  inputs = [];
  steps = steps;
  approvals = approvals;
}

abbrev pub release : WorkflowDefinition
release =
    workflow (step "build" [] ∷ step "deploy" ("gate" ∷ []) ∷ [])
      (approval "gate" ("build" ∷ []) ∷ [])

-- Two steps that depend on each other.
abbrev pub circular : WorkflowDefinition
circular = workflow (step "a" ("b" ∷ []) ∷ step "b" ("a" ∷ []) ∷ []) []

abbrev pub dangling : WorkflowDefinition
dangling = workflow (step "a" ("ghost" ∷ []) ∷ []) []

abbrev pub as_stored : MapOrder
as_stored = record { walk = λ n l. l; visits = λ n k l. refl }

abbrev pub queued_execution : Execution
queued_execution = record {
  id = 1;
  tenant_id = 7;
  status = ExecutionStatus.queued;
  inputs = none;
  context = none;
  started_at = none;
  checkpoint = none;
}

abbrev pub exits : ℕ → ℕ → Request → RunOutcome
exits code n req = ok (record { exit_code = pos code; stdout = "done"; stderr = "" })

-- Everything succeeds, commands exit with `code`, and the approval's row reads `answer`.
abbrev pub world : ℕ → String → World
world code answer = record {
  statement_ok = λ n. true;
  context_done = λ n. false;
  approval_status = λ n. some answer;
  now = λ n. n;
  new_uuid = λ n. n;
  runners = ("local", exits code) ∷ [];
  evaluate_string = λ s c. ok s;
  parse_duration = λ s. none;
  whole_seconds = λ d. pos 300;
  exit_text = λ c. "exit code";
}

abbrev pub idle : ExecState
idle = record { exec = queued_execution; tick = 0; trace = [] }
