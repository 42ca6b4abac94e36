-- ===== src/Validator/Valid.antt =====
-- internal/validator/validator.go: when each check leaves the result valid, as a Boolean test.
use Prim.Native.String.{◌++◌ as text_append}
use flow_ctl.Prelude.{
  Result, ◌↔◌, ◌≡◌, refl, ◌∙◌, String, Bool, true, false, Option, none, some, List, [], ◌∷◌, ◌==◌,
  ◌&&◌, not, mem, is_empty, if◌then◌else◌, arith, ok, err,
}
use flow_ctl.Model.Workflow.{InputDef, StepDef, RetryPolicy, ApprovalDef, WorkflowDefinition}
use flow_ctl.Dag.{Dag, DagError, MapOrder, build_dag}
use flow_ctl.Dag.Edges.{ok-injective}
use flow_ctl.Dag.Sort.{topological_sort, detect_cycles}
use flow_ctl.Validator.{
  Message, field_of, ValidationResult, add_error, add_if, is_input_type, validate_input_type,
  validate_inputs, is_runner, validate_runner, is_positive, is_backoff, validate_retry,
  validate_step, validate_steps, validate_approvals, validate_dag,
}

abbrev pub retry_fine : Option RetryPolicy → Bool
retry_fine none = true
retry_fine (some r) = is_positive r.max_attempts && is_backoff r.backoff

abbrev pub step_fine : StepDef → Bool
step_fine s =
    is_runner s.runner
    && not (s.command == "")
    && not (s.runner == "docker" && s.image == "")
    && not (s.runner == "ssh" && s.host == "")
    && retry_fine s.retry

abbrev pub steps_fine : List String → List StepDef → Bool
steps_fine seen [] = true
steps_fine seen (s ∷ ss) =
    not (s.id == "") && (not (mem s.id seen) && (step_fine s && steps_fine (s.id ∷ seen) ss))

abbrev pub inputs_fine : List String → List InputDef → Bool
inputs_fine seen [] = true
inputs_fine seen (i ∷ is) =
    not (i.name == "")
    && (not (mem i.name seen) && (is_input_type i.type && inputs_fine (i.name ∷ seen) is))

abbrev pub approvals_fine : List String → List ApprovalDef → Bool
approvals_fine seen [] = true
approvals_fine seen (a ∷ rest) =
    not (a.id == "")
    && (not (mem a.id seen)
        && (not (is_empty a.required_roles) && approvals_fine (a.id ∷ seen) rest))

abbrev is_ok : Result DagError (List (List String)) → Bool
is_ok (ok layers) = true
is_ok (err e) = false

abbrev sorts : MapOrder → Result DagError Dag → Bool
sorts o (ok d) = is_ok (topological_sort o d)
sorts o (err e) = false

abbrev pub graph_fine : MapOrder → WorkflowDefinition → Bool
graph_fine o def = sorts o (build_dag def)

pub add_if-valid :
    (b : Bool) (f : String) (m : Message) (r : ValidationResult)
    → (add_if b f m r).valid ≡ not b && r.valid
unfolding add_if add_error
add_if-valid true f m r = refl
add_if-valid false f m r = refl

validate_input_type-valid :
    (i : InputDef) (r : ValidationResult)
    → (validate_input_type i r).valid ≡ is_input_type i.type && r.valid
unfolding validate_input_type add_error
validate_input_type-valid i r = ground arith

validate_runner-valid :
    (s : StepDef) (r : ValidationResult)
    → (validate_runner s r).valid ≡ is_runner s.runner && r.valid
unfolding validate_runner add_error
validate_runner-valid s r = ground arith

validate_retry-valid :
    (s : StepDef) (p : Option RetryPolicy) (r : ValidationResult)
    → (validate_retry s p r).valid ≡ retry_fine p && r.valid
unfolding validate_retry add_if add_error
validate_retry-valid s none r = refl
validate_retry-valid s (some p) r = ground arith

validate_step-valid :
    (seen : List String) (s : StepDef) (r : ValidationResult)
    → (validate_step seen s r).valid ≡ not (mem s.id seen) && (step_fine s && r.valid)
unfolding validate_step
validate_step-valid seen s r =
    rw
      (
        validate_retry-valid, add_if-valid, add_if-valid, add_if-valid, validate_runner-valid,
        add_if-valid,
      )
      (ground arith)

-- The two ways through a loop's body: without a name, and with one.
named_or_not :
    (b : Bool) (u n : ValidationResult) (x y z v rest : Bool)
    → u.valid ≡ y && false
    → n.valid ≡ rest && (not x && (z && v))
    → (if b then u else n).valid ≡ (not b && (not x && (z && rest))) && v
named_or_not true u n x y z v rest hu hn = rw hu (ground arith)
named_or_not false u n x y z v rest hu hn = rw hn (ground arith)

and_valid : (y : Bool) (r : ValidationResult) (b : Bool) → r.valid ≡ b → y && r.valid ≡ y && b
and_valid y r b h = rw h

pub validate_steps-valid :
    (seen : List String) (ss : List StepDef) (r : ValidationResult)
    → (validate_steps seen ss r).valid ≡ steps_fine seen ss && r.valid
unfolding validate_steps add_error
validate_steps-valid seen [] r = refl
validate_steps-valid seen (s ∷ ss) r =
    named_or_not (s.id == "") _ _ (mem s.id seen) (steps_fine seen ss) (step_fine s) r.valid
      (steps_fine (s.id ∷ seen) ss)
      (validate_steps-valid seen ss (add_error "steps" (Message.says "step id is required") r))
      (validate_steps-valid (s.id ∷ seen) ss (validate_step seen s r)
        ∙ and_valid (steps_fine (s.id ∷ seen) ss) (validate_step seen s r) _
            (validate_step-valid seen s r))

pub validate_inputs-valid :
    (seen : List String) (is : List InputDef) (r : ValidationResult)
    → (validate_inputs seen is r).valid ≡ inputs_fine seen is && r.valid
unfolding validate_inputs add_error
validate_inputs-valid seen [] r = refl
validate_inputs-valid seen (i ∷ is) r =
    let here =
      add_if (mem i.name seen) (text_append "inputs." i.name) (Message.says "duplicate input name")
        r in
    named_or_not (i.name == "") _ _ (mem i.name seen) (inputs_fine seen is) (is_input_type i.type)
      r.valid (inputs_fine (i.name ∷ seen) is)
      (validate_inputs-valid seen is (add_error "inputs" (Message.says "input name is required") r))
      (validate_inputs-valid (i.name ∷ seen) is (validate_input_type i here)
        ∙ and_valid (inputs_fine (i.name ∷ seen) is) (validate_input_type i here) _
            (rw (validate_input_type-valid i here, add_if-valid) (ground arith)))

pub validate_approvals-valid :
    (seen : List String) (rest : List ApprovalDef) (r : ValidationResult)
    → (validate_approvals seen rest r).valid ≡ approvals_fine seen rest && r.valid
unfolding validate_approvals add_error
validate_approvals-valid seen [] r = refl
validate_approvals-valid seen (a ∷ rest) r =
    let here =
      add_if (is_empty a.required_roles) (field_of "approvals." a.id ".required_roles")
        (Message.says "at least one role is required")
        (add_if (mem a.id seen) (text_append "approvals." a.id)
          (Message.says "duplicate approval id") r) in
    named_or_not (a.id == "") _ _ (mem a.id seen) (approvals_fine seen rest)
      (not (is_empty a.required_roles)) r.valid (approvals_fine (a.id ∷ seen) rest)
      (validate_approvals-valid seen rest
        (add_error "approvals" (Message.says "approval id is required") r))
      (validate_approvals-valid (a.id ∷ seen) rest here
        ∙ and_valid (approvals_fine (a.id ∷ seen) rest) here _
            (rw (add_if-valid, add_if-valid) (ground arith)))

pub validate_dag-valid :
    (o : MapOrder) (def : WorkflowDefinition) (r : ValidationResult)
    → (validate_dag o def r).valid ≡ graph_fine o def && r.valid
unfolding validate_dag add_error detect_cycles
validate_dag-valid o def r = by_build (build_dag def)
  where
    after_sort : Result DagError (List (List String)) → ValidationResult
    after_sort s =
        let e : Option DagError = elim s [ ok layers ↦ none | err e ↦ some e ] in
        elim e [ none ↦ r | some e ↦ add_error "dag" (Message.tells e) r ]

    after_build : Result DagError Dag → ValidationResult
    after_build (ok d) = after_sort (topological_sort o d)
    after_build (err e) = add_error "dag" (Message.tells e) r

    by_sort : (s : Result DagError (List (List String))) → (after_sort s).valid ≡ is_ok s && r.valid
    by_sort (ok layers) = refl
    by_sort (err e) = refl

    by_build : (b : Result DagError Dag) → (after_build b).valid ≡ sorts o b && r.valid
    by_build (ok d) = by_sort (topological_sort o d)
    by_build (err e) = refl

pub graph_fine-sorts :
    (o : MapOrder) (def : WorkflowDefinition)
    → (graph_fine o def ≡ true) ↔ (
        (d : Dag) × (layers : List (List String)) × (build_dag def ≡ ok d)
        × (topological_sort o d ≡ ok layers))
graph_fine-sorts o def = by_build (build_dag def) refl
  where
    by_sort :
        (d : Dag) (s : Result DagError (List (List String)))
        → is_ok s ≡ true ↔ ((layers : List (List String)) × (s ≡ ok layers))
    by_sort d (ok layers) = (λ h. (layers, refl), λ h. refl)
    by_sort d (err e) = (λ h. absurd (ground arith), λ (l, h). absurd (ground (arith, h)))

    by_build :
        (b : Result DagError Dag)
        → build_dag def ≡ b
        → sorts o b ≡ true ↔ (
            (d : Dag) × (layers : List (List String)) × (b ≡ ok d)
            × (topological_sort o d ≡ ok layers))
    by_build (ok d) e = (
      λ h. let (l, p) = (by_sort d (topological_sort o d)).0 h in (d, l, refl, p),
      λ (d', l, p, q). (by_sort d (topological_sort o d)).1 (l, rw (ok-injective p) q),
    )
    by_build (err e) q = (λ h. absurd (ground arith), λ (d, l, p, r). absurd (ground (arith, p)))
