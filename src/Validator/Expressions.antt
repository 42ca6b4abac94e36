-- ===== src/Validator/Expressions.antt =====
-- internal/validator/validator.go: `validateExpressions` after the graph was built.
use flow_ctl.Prelude.{
  ◌≡◌, refl, ◌∙◌, String, Bool, true, false, List, [], ◌∷◌, ◌&&◌, not, mem, has, arith, ok,
  >>=-eq-ok, count-append, Bool-cases, sym, inl, inr, &&-eq-true,
}
use flow_ctl.Model.Workflow.{StepDef, ApprovalDef, WorkflowDefinition}
use flow_ctl.Dag.{Dag, link_deps, link_steps, link_approvals, bare_dag, build_dag}
use flow_ctl.Dag.Build.{link, step_ids, approval_ids, has-bare_dag}
use flow_ctl.Dag.Edges.{link_deps-nodes, link_steps-nodes}
use flow_ctl.Validator.{
  Message, ValidationResult, add_error, add_if, known_steps, validate_deps, validate_step_deps,
  validate_approval_deps, validate_expressions,
}

abbrev deps_known : List String → List String → Bool
deps_known known [] = true
deps_known known (dep ∷ deps) = mem dep known && deps_known known deps

abbrev step_deps_known : List String → List StepDef → Bool
step_deps_known known [] = true
step_deps_known known (s ∷ ss) = deps_known known s.depends_on && step_deps_known known ss

abbrev approval_deps_known : List String → List ApprovalDef → Bool
approval_deps_known known [] = true
approval_deps_known known (a ∷ rest) =
    deps_known known a.depends_on && approval_deps_known known rest

validate_deps-valid :
    (known : List String) (f : String) (deps : List String) (r : ValidationResult)
    → (validate_deps known f deps r).valid ≡ deps_known known deps && r.valid
unfolding validate_deps add_if add_error
validate_deps-valid known f [] r = refl
validate_deps-valid known f (dep ∷ deps) r =
    rw (validate_deps-valid known f deps _) (by_known (mem dep known))
  where
    by_known :
        (b : Bool)
        → deps_known known deps
            && (add_if (not b) f (Message.quotes "unknown dependency " dep) r).valid
          ≡ (b && deps_known known deps) && r.valid
    by_known true = refl
    by_known false = ground arith

validate_step_deps-valid :
    (known : List String) (ss : List StepDef) (r : ValidationResult)
    → (validate_step_deps known ss r).valid ≡ step_deps_known known ss && r.valid
unfolding validate_step_deps
validate_step_deps-valid known [] r = refl
validate_step_deps-valid known (s ∷ ss) r =
    rw (validate_step_deps-valid known ss _, validate_deps-valid) (ground arith)

validate_approval_deps-valid :
    (known : List String) (rest : List ApprovalDef) (r : ValidationResult)
    → (validate_approval_deps known rest r).valid ≡ approval_deps_known known rest && r.valid
unfolding validate_approval_deps
validate_approval_deps-valid known [] r = refl
validate_approval_deps-valid known (a ∷ rest) r =
    rw (validate_approval_deps-valid known rest _, validate_deps-valid) (ground arith)

link_deps-known :
    (known : List String) (id : String) (deps : List String) (d d' : Dag)
    → ((k : String) → has k d.nodes ≡ true → mem k known ≡ true)
    → link_deps id deps d ≡ ok d'
    → deps_known known deps ≡ true
unfolding link_deps
link_deps-known known id [] d d' h e = refl
link_deps-known known id (dep ∷ deps) d d' h e = elim (Bool-cases (has dep d.nodes)) [
  | inl node ↦
      rw (h dep node) (link_deps-known known id deps (link id dep d) d' h (ground (arith, node, e)))
  | inr no_node ↦ absurd (ground (arith, no_node, e))
]

link_steps-known :
    (known : List String) (ss : List StepDef) (d d' : Dag)
    → ((k : String) → has k d.nodes ≡ true → mem k known ≡ true)
    → link_steps ss d ≡ ok d'
    → step_deps_known known ss ≡ true
unfolding link_steps
link_steps-known known [] d d' h e = refl
link_steps-known known (s ∷ ss) d d' h e =
    let (d₁, first, others) = >>=-eq-ok (link_deps s.id s.depends_on d) (link_steps ss) e in
    rw (link_deps-known known s.id s.depends_on d d₁ h first) (
      link_steps-known known ss d₁ d'
        (λ k p. h k (rw (← link_deps-nodes s.id s.depends_on d d₁ first) p)) others)

link_approvals-known :
    (known : List String) (rest : List ApprovalDef) (d d' : Dag)
    → ((k : String) → has k d.nodes ≡ true → mem k known ≡ true)
    → link_approvals rest d ≡ ok d'
    → approval_deps_known known rest ≡ true
unfolding link_approvals
link_approvals-known known [] d d' h e = refl
link_approvals-known known (a ∷ rest) d d' h e =
    let (d₁, first, others) = >>=-eq-ok (link_deps a.id a.depends_on d) (link_approvals rest) e in
    rw (link_deps-known known a.id a.depends_on d d₁ h first) (
      link_approvals-known known rest d₁ d'
        (λ k p. h k (rw (← link_deps-nodes a.id a.depends_on d d₁ first) p)) others)

-- A node is a known step.
bare_dag-known :
    (def : WorkflowDefinition) (k : String)
    → has k (bare_dag def).nodes ≡ true
    → mem k (known_steps def) ≡ true
bare_dag-known def k h =
    ground (
      arith,
      h,
      has-bare_dag k def,
      count-append k (step_ids def.steps) (approval_ids def.approvals),
    )

-- The check of the expressions never makes a valid result invalid once the graph was built, and it
-- never makes an invalid one valid.
pub validate_expressions-valid :
    (def : WorkflowDefinition) (d : Dag) (r : ValidationResult)
    → build_dag def ≡ ok d
    → (validate_expressions def r).valid ≡ r.valid
unfolding validate_expressions build_dag
validate_expressions-valid def d r h =
    let known = bare_dag-known def in
    let (d₁, first, others) =
      >>=-eq-ok (link_steps def.steps (bare_dag def)) (link_approvals def.approvals) h in
    rw
      (
        validate_approval_deps-valid,
        validate_step_deps-valid,
        link_steps-known (known_steps def) def.steps (bare_dag def) d₁ known first,
        link_approvals-known (known_steps def) def.approvals d₁ d
            (λ k p. known k (rw (← link_steps-nodes def.steps (bare_dag def) d₁ first) p)) others,
      )
      refl

pub validate_expressions-keeps :
    (def : WorkflowDefinition) (r : ValidationResult)
    → (validate_expressions def r).valid ≡ true
    → r.valid ≡ true
unfolding validate_expressions
validate_expressions-keeps def r h =
    let known = known_steps def in
    let both = &&-eq-true (approval_deps_known known def.approvals) _ (
      sym (validate_approval_deps-valid known def.approvals (validate_step_deps known def.steps r))
      ∙ h) in
    (&&-eq-true (step_deps_known known def.steps) r.valid
      (sym (validate_step_deps-valid known def.steps r) ∙ both.1)).1
