-- ===== src/Validator.antt =====
-- internal/validator/validator.go: `ValidateWorkflow` and the checks that it runs in turn.
pub mod Valid
pub mod Expressions
pub mod Accepted
use Prim.Native.String.{◌++◌ as text_append}
use flow_ctl.Prelude.{
  ℕ, suc, String, Bool, true, false, Option, none, some, List, [], ◌∷◌, ◌++◌, ◌==◌, ◌||◌, ◌&&◌, not,
  map, mem, is_empty, if◌then◌else◌, Result, ok, err,
}
use flow_ctl.Model.Value.{ℤ, pos, negsuc}
use flow_ctl.Model.Workflow.{InputDef, StepDef, RetryPolicy, ApprovalDef, WorkflowDefinition}
use flow_ctl.Dag.{DagError, MapOrder, build_dag}
use flow_ctl.Dag.Build.{step_ids, approval_ids}
use flow_ctl.Dag.Sort.{detect_cycles}

-- A message's text: fixed, with a quoted argument (`%q`), or that of an error of the graph.
pub data Message : Type 0 where
  says : String → Message
  quotes : String → String → Message
  tells : DagError → Message

pub record ValidationError : Type 0 where
  pub field : String
  pub message : Message

pub record ValidationResult : Type 0 where
  pub valid : Bool
  pub errors : List ValidationError

unfoldable pub add_error : String → Message → ValidationResult → ValidationResult
add_error field message r = record r {
  valid = false;
  errors = r.errors ++ record { field = field; message = message } ∷ [];
}

-- `if bad { result.addError(…) }`
unfoldable pub add_if : Bool → String → Message → ValidationResult → ValidationResult
unfolding add_error
add_if bad field message r = if bad then add_error field message r else r

abbrev pub field_of : String → String → String → String
field_of group name rest = text_append group (text_append name rest)

abbrev pub is_input_type : String → Bool
is_input_type t = t == "string" || t == "number" || t == "boolean" || t == "object" || t == "array"

-- The `switch` on `input.Type`.
unfoldable pub validate_input_type : InputDef → ValidationResult → ValidationResult
unfolding add_error
validate_input_type input r =
    let field = field_of "inputs." input.name ".type" in
    if is_input_type input.type
    then r
    else if input.type == ""
    then add_error field (says "type is required") r
    else add_error field (quotes "invalid type " input.type) r

-- `seen` lists the keys of the map of that name.
unfoldable pub validate_inputs : List String → List InputDef → ValidationResult → ValidationResult
unfolding add_error add_if validate_input_type
validate_inputs seen [] r = r
validate_inputs seen (input ∷ inputs) r =
    let unnamed =
      validate_inputs seen inputs (add_error "inputs" (says "input name is required") r) in
    let next = validate_inputs (input.name ∷ seen) inputs (
      validate_input_type input (
        add_if (mem input.name seen) (text_append "inputs." input.name)
          (says "duplicate input name") r)) in
    if input.name == "" then unnamed else next

abbrev pub is_runner : String → Bool
is_runner name = name == "docker" || name == "local" || name == "ssh"

unfoldable pub validate_runner : StepDef → ValidationResult → ValidationResult
unfolding add_error
validate_runner step r =
    let field = field_of "steps." step.id ".runner" in
    if is_runner step.runner
    then r
    else if step.runner == ""
    then add_error field (says "runner is required") r
    else add_error field (quotes "unknown runner " step.runner) r

-- `n >= 1`
abbrev pub is_positive : ℤ → Bool
is_positive (pos (suc n)) = true
is_positive _ = false

abbrev pub is_backoff : String → Bool
is_backoff b = b == "exponential" || b == "linear" || b == "fixed" || b == ""

unfoldable pub validate_retry : StepDef → Option RetryPolicy → ValidationResult → ValidationResult
unfolding add_if
validate_retry step none r = r
validate_retry step (some retry) r =
    add_if (not (is_backoff retry.backoff)) (field_of "steps." step.id ".retry.backoff")
      (quotes "invalid backoff " retry.backoff)
      (add_if (not (is_positive retry.max_attempts))
        (field_of "steps." step.id ".retry.max_attempts") (says "must be >= 1") r)

-- What the body of the loop checks of one step with an id; the first check stands innermost.
unfoldable pub validate_step : List String → StepDef → ValidationResult → ValidationResult
unfolding add_if validate_runner validate_retry
validate_step seen step r = validate_retry step step.retry (
    add_if (step.runner == "ssh" && step.host == "") (field_of "steps." step.id ".host")
      (says "host is required for ssh runner")
      (add_if (step.runner == "docker" && step.image == "") (field_of "steps." step.id ".image")
        (says "image is required for docker runner")
        (add_if (step.command == "") (field_of "steps." step.id ".command")
          (says "command is required")
          (validate_runner step (
            add_if (mem step.id seen) (text_append "steps." step.id) (says "duplicate step id")
              r)))))

unfoldable pub validate_steps : List String → List StepDef → ValidationResult → ValidationResult
unfolding add_error validate_step
validate_steps seen [] r = r
validate_steps seen (step ∷ steps) r =
    let unnamed = validate_steps seen steps (add_error "steps" (says "step id is required") r) in
    let next = validate_steps (step.id ∷ seen) steps (validate_step seen step r) in
    if step.id == "" then unnamed else next

unfoldable pub validate_approvals :
    List String → List ApprovalDef → ValidationResult → ValidationResult
unfolding add_error add_if
validate_approvals seen [] r = r
validate_approvals seen (approval ∷ approvals) r =
    let unnamed =
      validate_approvals seen approvals
        (add_error "approvals" (says "approval id is required") r) in
    let next = validate_approvals (approval.id ∷ seen) approvals (
      add_if (is_empty approval.required_roles)
        (field_of "approvals." approval.id ".required_roles") (says "at least one role is required")
        (add_if (mem approval.id seen) (text_append "approvals." approval.id)
          (says "duplicate approval id") r)) in
    if approval.id == "" then unnamed else next

unfoldable pub validate_dag : MapOrder → WorkflowDefinition → ValidationResult → ValidationResult
unfolding add_error build_dag detect_cycles
validate_dag o def r = elim (build_dag def) [
  | err e ↦ add_error "dag" (tells e) r
  | ok d ↦ elim (detect_cycles o d) [ none ↦ r | some e ↦ add_error "dag" (tells e) r ]
]

abbrev pub known_steps : WorkflowDefinition → List String
known_steps def = step_ids def.steps ++ approval_ids def.approvals

unfoldable pub validate_deps :
    List String → String → List String → ValidationResult → ValidationResult
unfolding add_if
validate_deps known field [] r = r
validate_deps known field (dep ∷ deps) r =
    validate_deps known field deps
      (add_if (not (mem dep known)) field (quotes "unknown dependency " dep) r)

unfoldable pub validate_step_deps : List String → List StepDef → ValidationResult → ValidationResult
unfolding validate_deps
validate_step_deps known [] r = r
validate_step_deps known (s ∷ ss) r =
    validate_step_deps known ss
      (validate_deps known (field_of "steps." s.id ".depends_on") s.depends_on r)

unfoldable pub validate_approval_deps :
    List String → List ApprovalDef → ValidationResult → ValidationResult
unfolding validate_deps
validate_approval_deps known [] r = r
validate_approval_deps known (a ∷ rest) r =
    validate_approval_deps known rest
      (validate_deps known (field_of "approvals." a.id ".depends_on") a.depends_on r)

unfoldable pub validate_expressions : WorkflowDefinition → ValidationResult → ValidationResult
unfolding validate_step_deps validate_approval_deps
validate_expressions def r =
    validate_approval_deps (known_steps def) def.approvals
      (validate_step_deps (known_steps def) def.steps r)

unfoldable pub validate_workflow : MapOrder → WorkflowDefinition → ValidationResult
unfolding add_if validate_inputs validate_steps validate_approvals validate_dag validate_expressions
validate_workflow o def = validate_expressions def (
    validate_dag o def (
      validate_approvals [] def.approvals (
        validate_steps [] def.steps (
          validate_inputs [] def.inputs (
            add_if (def.name == "") "name" (says "workflow name is required")
              (record { valid = true; errors = [] }))))))
