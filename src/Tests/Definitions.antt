-- ===== src/Tests/Definitions.antt =====
-- Tests of the validator, and its theorem at the sample workflow.
use flow_ctl.Prelude.{◌≡◌, ◌↔◌, refl, true, [], ◌∷◌, lookup, insert, get_list, append_at}
use flow_ctl.Dag.{build_dag}
use flow_ctl.Dag.Degrees.{get_int, minus_one, lower_all}
use flow_ctl.Dag.Sort.{topological_sort}
use flow_ctl.Validator.{Message, validate_workflow}
use flow_ctl.Validator.Accepted.{IsWellFormed, validate_workflow-IsWellFormed}
use flow_ctl.Tests.Samples.{release, workflow, step, approval, as_stored}

program : Unit {0}
unfolding validate_workflow build_dag topological_sort lookup insert get_list append_at get_int
    minus_one lower_all
program = tt

release_is_valid : (validate_workflow as_stored release).valid ≡ true
unfolding program
release_is_valid = refl

-- A step and an approval of one name pass: the approval's node replaces the step's.
shared_name_is_valid :
    (validate_workflow as_stored (workflow (step "a" [] ∷ []) (approval "a" [] ∷ []))).valid ≡ true
unfolding program
shared_name_is_valid = refl

repeated_name_is_reported :
    (validate_workflow as_stored (workflow (step "a" [] ∷ step "a" [] ∷ []) [])).errors
    ≡ record { field = "steps.a"; message = Message.says "duplicate step id" } ∷ []
unfolding program
repeated_name_is_reported = refl

validate_workflow-IsWellFormed_example :
    (validate_workflow as_stored release).valid ≡ true ↔ IsWellFormed as_stored release
validate_workflow-IsWellFormed_example = validate_workflow-IsWellFormed as_stored release
