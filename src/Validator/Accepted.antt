-- ===== src/Validator/Accepted.antt =====
-- internal/validator/validator.go: the workflows that `ValidateWorkflow` accepts.
use flow_ctl.Prelude.{
  ◌≡◌, refl, sym, ◌∙◌, ◌≤◌, ◌<◌, ◌↔◌, String, Bool, true, false, List, [], ◌∷◌, ◌==◌, ◌&&◌, not,
  mem, count, All, is_empty, arith, &&-eq-true, ok, count-cons_self, ==-cases, inl, inr,
}
use flow_ctl.Model.Workflow.{InputDef, StepDef, ApprovalDef, WorkflowDefinition}
use flow_ctl.Dag.{Dag, MapOrder, build_dag}
use flow_ctl.Dag.Build.{step_ids, approval_ids}
use flow_ctl.Dag.Sort.{topological_sort}
use flow_ctl.Validator.{
  Message, ValidationResult, add_if, is_input_type, validate_inputs, validate_steps,
  validate_approvals, validate_dag, validate_workflow,
}
use flow_ctl.Validator.Valid.{
  add_if-valid, step_fine, steps_fine, inputs_fine, approvals_fine, graph_fine,
  validate_inputs-valid, validate_steps-valid, validate_approvals-valid, validate_dag-valid,
  graph_fine-sorts,
}
use flow_ctl.Validator.Expressions.{validate_expressions-valid, validate_expressions-keeps}

abbrev pub input_names : List InputDef → List String
input_names [] = []
input_names (i ∷ is) = i.name ∷ input_names is

abbrev pub IsDistinct : List String → Type 0
IsDistinct ids = (k : String) → count k ids ≤ 1

-- The rules of a definition, group by group.
pub record IsWellFormed (o : MapOrder) (def : WorkflowDefinition) : Type 0 where
  pub named : (def.name == "") ≡ false
  pub inputs :
      All (λ (i : InputDef). ((i.name == "") ≡ false) × (is_input_type i.type ≡ true)) def.inputs
  pub distinct_inputs : IsDistinct (input_names def.inputs)
  pub steps : All (λ (s : StepDef). ((s.id == "") ≡ false) × (step_fine s ≡ true)) def.steps
  pub distinct_steps : IsDistinct (step_ids def.steps)
  pub approvals :
      All
        (λ (a : ApprovalDef). ((a.id == "") ≡ false) × (not (is_empty a.required_roles) ≡ true))
        def.approvals
  pub distinct_approvals : IsDistinct (approval_ids def.approvals)
  pub graph :
      (d : Dag) × (layers : List (List String)) × (build_dag def ≡ ok d)
      × (topological_sort o d ≡ ok layers)

-- No element of `xs` stands in `seen`, or earlier in `xs`.
abbrev fresh : List String → List String → Bool
fresh seen [] = true
fresh seen (x ∷ xs) = not (mem x seen) && fresh (x ∷ seen) xs

fresh-count :
    (seen xs : List String)
    → fresh seen xs ≡ true
    → (k : String) → (count k xs ≤ 1) × (0 < count k seen → count k xs ≡ 0)
fresh-count seen [] h k = (omega arith, λ p. refl)
fresh-count seen (x ∷ xs) h k =
    let parts = &&-eq-true (not (mem x seen)) (fresh (x ∷ seen) xs) h in
    let later = fresh-count (x ∷ seen) xs parts.1 k in
    elim (==-cases x k) [
      | inl e ↦ (
        ground (arith, e.0, later.1, later.0),
        λ p. absurd (ground (arith, parts.0, e.1, p, same e.1)),
      )
      | inr e ↦ (ground (arith, e.0, later.0), λ p. ground (arith, e.0, later.1, p))
    ]
  where
    same : x ≡ k → count x seen ≡ count k seen
    same e = rw e

count-fresh :
    (seen xs : List String)
    → ((k : String) → (count k xs ≤ 1) × (0 < count k seen → count k xs ≡ 0))
    → fresh seen xs ≡ true
count-fresh seen [] h = refl
count-fresh seen (x ∷ xs) h =
    let head : 0 < count x (x ∷ xs) = omega (arith, count-cons_self x xs) in
    let first : mem x seen ≡ false = ground (arith, h x, head) in
    rw first (count-fresh (x ∷ seen) xs (λ k. (ground (arith, h k), later k)))
  where
    later : (k : String) → 0 < count k (x ∷ seen) → count k xs ≡ 0
    later k p = elim (==-cases x k) [
      | inl e ↦ ground (arith, e.0, h k, p)
      | inr e ↦ ground (arith, e.0, h k, p)
    ]

fresh_iff : (xs : List String) → fresh [] xs ≡ true ↔ IsDistinct xs
fresh_iff xs = (
  λ h k. (fresh-count [] xs h k).0,
  λ h. count-fresh [] xs (λ k. (h k, λ p. absurd (omega arith))),
)

-- One element of a loop: it has a name, the name is new, and the element is fine.
loop_iff :
    (unnamed seen fine rest new : Bool) {A : Type 0}
    → (rest ≡ true ↔ A × (new ≡ true))
    → (not unnamed && (not seen && (fine && rest)) ≡ true)
      ↔ ((((unnamed ≡ false) × (fine ≡ true)) × A) × (not seen && new ≡ true))
loop_iff false false true rest new i =
    (λ h. let (a, n) = i.0 h in (((refl, refl), a), n), λ ((p, a), n). i.1 (a, n))
loop_iff true b c rest new i =
    (λ h. absurd (ground (arith, h)), λ ((p, a), n). absurd (ground (arith, p.0)))
loop_iff false true c rest new i =
    (λ h. absurd (ground (arith, h)), λ ((p, a), n). absurd (ground (arith, n)))
loop_iff false false false rest new i =
    (λ h. absurd (ground (arith, h)), λ ((p, a), n). absurd (ground (arith, p.1)))

steps_fine_iff :
    (seen : List String) (ss : List StepDef)
    → steps_fine seen ss ≡ true
      ↔ All (λ (s : StepDef). ((s.id == "") ≡ false) × (step_fine s ≡ true)) ss
        × (fresh seen (step_ids ss) ≡ true)
steps_fine_iff seen [] = (λ h. (tt, refl), λ h. refl)
steps_fine_iff seen (s ∷ ss) =
    loop_iff (s.id == "") (mem s.id seen) (step_fine s) _ _ (steps_fine_iff (s.id ∷ seen) ss)

inputs_fine_iff :
    (seen : List String) (is : List InputDef)
    → inputs_fine seen is ≡ true
      ↔ All (λ (i : InputDef). ((i.name == "") ≡ false) × (is_input_type i.type ≡ true)) is
        × (fresh seen (input_names is) ≡ true)
inputs_fine_iff seen [] = (λ h. (tt, refl), λ h. refl)
inputs_fine_iff seen (i ∷ is) =
    loop_iff (i.name == "") (mem i.name seen) (is_input_type i.type) _ _
      (inputs_fine_iff (i.name ∷ seen) is)

approvals_fine_iff :
    (seen : List String) (rest : List ApprovalDef)
    → approvals_fine seen rest ≡ true
      ↔ All
          (λ (a : ApprovalDef). ((a.id == "") ≡ false) × (not (is_empty a.required_roles) ≡ true))
          rest
        × (fresh seen (approval_ids rest) ≡ true)
approvals_fine_iff seen [] = (λ h. (tt, refl), λ h. refl)
approvals_fine_iff seen (a ∷ rest) =
    loop_iff (a.id == "") (mem a.id seen) (not (is_empty a.required_roles)) _ _
      (approvals_fine_iff (a.id ∷ seen) rest)

-- The result before the check of the expressions.
before_expressions : (o : MapOrder) (def : WorkflowDefinition) → ValidationResult
before_expressions o def = validate_dag o def (
    validate_approvals [] def.approvals (
      validate_steps [] def.steps (
        validate_inputs [] def.inputs (
          add_if (def.name == "") "name" (Message.says "workflow name is required")
            (record { valid = true; errors = [] })))))

before-valid :
    (o : MapOrder) (def : WorkflowDefinition)
    → (before_expressions o def).valid
      ≡ graph_fine o def
        && (approvals_fine [] def.approvals
            && (steps_fine [] def.steps
                && (inputs_fine [] def.inputs && (not (def.name == "") && true))))
unfolding before_expressions
before-valid o def =
    rw
      (
        validate_dag-valid, validate_approvals-valid, validate_steps-valid, validate_inputs-valid,
        add_if-valid,
      )
      refl

-- ValidateWorkflow reports a definition as valid exactly when it is well formed.
pub validate_workflow-IsWellFormed :
    (o : MapOrder) (def : WorkflowDefinition)
    → (validate_workflow o def).valid ≡ true ↔ IsWellFormed o def
unfolding validate_workflow before_expressions
validate_workflow-IsWellFormed o def = (accepted, accepts)
  where
    accepted : (validate_workflow o def).valid ≡ true → IsWellFormed o def
    accepted h =
        let all =
          sym (before-valid o def) ∙ validate_expressions-keeps def (before_expressions o def) h in
        let graph = &&-eq-true (graph_fine o def) _ all in
        let approvals = &&-eq-true (approvals_fine [] def.approvals) _ graph.1 in
        let steps = &&-eq-true (steps_fine [] def.steps) _ approvals.1 in
        let inputs = &&-eq-true (inputs_fine [] def.inputs) _ steps.1 in
        let a = (approvals_fine_iff [] def.approvals).0 approvals.0 in
        let s = (steps_fine_iff [] def.steps).0 steps.0 in
        let i = (inputs_fine_iff [] def.inputs).0 inputs.0 in
        record {
          named = ground (arith, inputs.1);
          inputs = i.0;
          distinct_inputs = (fresh_iff (input_names def.inputs)).0 i.1;
          steps = s.0;
          distinct_steps = (fresh_iff (step_ids def.steps)).0 s.1;
          approvals = a.0;
          distinct_approvals = (fresh_iff (approval_ids def.approvals)).0 a.1;
          graph = (graph_fine-sorts o def).0 graph.0;
        }

    accepts : IsWellFormed o def → (validate_workflow o def).valid ≡ true
    accepts w =
        let (d, layers, built, sorted) = w.graph in
        validate_expressions-valid def d (before_expressions o def) built
        ∙ before-valid o def
        ∙ rw
            (
              (graph_fine-sorts o def).1 w.graph,
              (approvals_fine_iff [] def.approvals).1
                  (w.approvals, (fresh_iff (approval_ids def.approvals)).1 w.distinct_approvals),
              (steps_fine_iff [] def.steps).1
                  (w.steps, (fresh_iff (step_ids def.steps)).1 w.distinct_steps),
              (inputs_fine_iff [] def.inputs).1
                  (w.inputs, (fresh_iff (input_names def.inputs)).1 w.distinct_inputs),
              w.named,
            )
            refl
