-- ===== src/Dag/Declared.antt =====
-- `BuildDAG` of internal/engine/dag.go against the declarations of the workflow: the nodes and their
-- dependencies, and the error.
use flow_ctl.Prelude.{
  ◌≡◌, refl, ap, ◌∙◌, inl, inr, ◌<◌, String, false, Option, none, some, List, [], ◌∷◌, ◌==◌,
  if◌then◌else◌, Assoc, insert, lookup, lookup-insert, arith, get_list, mem, count, ==-cases, ok,
  err,
}
use flow_ctl.Model.Workflow.{StepDef, ApprovalDef, WorkflowDefinition}
use flow_ctl.Dag.Graph.{
  Dag, DagNode, DagError, unknown_node, step_node, approval_node, step_nodes, approval_nodes,
  bare_dag, build_dag,
}
use flow_ctl.Dag.Build.{step_ids, approval_ids, has-bare_dag}
use flow_ctl.Dag.Edges.{build_dag-Linked, declared_deps}
use flow_ctl.Dag.Unknown.{build_dag-Blames}

-- The last step, and the last approval, with an identifier.
abbrev pub last_step : (id : String) → List StepDef → Option StepDef
last_step id [] = none
last_step id (s ∷ ss) = elim (last_step id ss) [
  | some t ↦ some t
  | none ↦ if s.id == id then some s else none
]

abbrev pub last_approval : (id : String) → List ApprovalDef → Option ApprovalDef
last_approval id [] = none
last_approval id (a ∷ rest) = elim (last_approval id rest) [
  | some b ↦ some b
  | none ↦ if a.id == id then some a else none
]

-- The node that the declarations give to an identifier: an approval's before a step's.
abbrev pub declared_node : WorkflowDefinition → (id : String) → Option DagNode
declared_node def id = elim (last_approval id def.approvals) [
  | some a ↦ some (record { id = id; type = "approval"; step_def = none; approval = some a })
  | none ↦ elim (last_step id def.steps) [
    | some s ↦ some (record { id = id; type = "step"; step_def = some s; approval = none })
    | none ↦ none
  ]
]

-- The graph has the declared nodes and no others, and each has the declared dependencies.
pub record IsDeclared (def : WorkflowDefinition) (d : Dag) : Type 0 where
  pub nodes : (id : String) → lookup id d.nodes ≡ declared_node def id
  pub upstream : (id : String) → get_list id d.in_edges ≡ declared_deps def id

abbrev step_or : String → Option StepDef → Option DagNode → Option DagNode
step_or id none o = o
step_or id (some s) o = some (record { id = id; type = "step"; step_def = some s; approval = none })

abbrev approval_or : String → Option ApprovalDef → Option DagNode → Option DagNode
approval_or id none o = o
approval_or id (some a) o =
    some (record { id = id; type = "approval"; step_def = none; approval = some a })

lookup-step_nodes :
    (id : String) (ss : List StepDef) (m : Assoc DagNode)
    → lookup id (step_nodes ss m) ≡ step_or id (last_step id ss) (lookup id m)
unfolding step_nodes
lookup-step_nodes id [] m = refl
lookup-step_nodes id (s ∷ ss) m =
    lookup-step_nodes id ss (insert s.id (step_node s) m) ∙ by_last (last_step id ss)
  where
    by_last :
        (o : Option StepDef)
        → step_or id o (lookup id (insert s.id (step_node s) m))
          ≡ step_or id
              (elim o [ some t ↦ some t | none ↦ if s.id == id then some s else none ])
              (lookup id m)
    by_last (some t) = refl
    by_last none = elim (==-cases s.id id) [
      | inl e ↦
          rw (lookup-insert s.id id (step_node s) m, e.0)
            (λ i. some (record { id = e.1 i; type = "step"; step_def = some s; approval = none }))
      | inr e ↦ rw (lookup-insert s.id id (step_node s) m, e.0) refl
    ]

lookup-approval_nodes :
    (id : String) (rest : List ApprovalDef) (m : Assoc DagNode)
    → lookup id (approval_nodes rest m) ≡ approval_or id (last_approval id rest) (lookup id m)
unfolding approval_nodes
lookup-approval_nodes id [] m = refl
lookup-approval_nodes id (a ∷ rest) m =
    lookup-approval_nodes id rest (insert a.id (approval_node a) m)
    ∙ by_last (last_approval id rest)
  where
    by_last :
        (o : Option ApprovalDef)
        → approval_or id o (lookup id (insert a.id (approval_node a) m))
          ≡ approval_or id
              (elim o [ some t ↦ some t | none ↦ if a.id == id then some a else none ])
              (lookup id m)
    by_last (some t) = refl
    by_last none = elim (==-cases a.id id) [
      | inl e ↦
          rw (lookup-insert a.id id (approval_node a) m, e.0)
            (λ i.
              some (record { id = e.1 i; type = "approval"; step_def = none; approval = some a }))
      | inr e ↦ rw (lookup-insert a.id id (approval_node a) m, e.0) refl
    ]

lookup-bare_dag :
    (def : WorkflowDefinition) (id : String) → lookup id (bare_dag def).nodes ≡ declared_node def id
unfolding lookup
lookup-bare_dag def id =
    lookup-approval_nodes id def.approvals (step_nodes def.steps [])
    ∙ ap (approval_or id (last_approval id def.approvals)) (lookup-step_nodes id def.steps [])
    ∙ by_last (last_approval id def.approvals) (last_step id def.steps)
  where
    by_last :
        (o : Option ApprovalDef) (p : Option StepDef)
        → approval_or id o (step_or id p none) ≡ elim o [
          | some a ↦
              some (record { id = id; type = "approval"; step_def = none; approval = some a })
          | none ↦ elim p [
            | some s ↦ some (record { id = id; type = "step"; step_def = some s; approval = none })
            | none ↦ none
          ]
        ]
    by_last (some a) p = refl
    by_last none (some s) = refl
    by_last none none = refl

-- In a graph that BuildDAG returns, the node of an identifier holds the last approval declared with it, or
-- else the last step, with its type, and no other identifier has a node; the upstream list of an
-- identifier is the declared dependencies in the order of the text.
pub build_dag-IsDeclared :
    (def : WorkflowDefinition) (d : Dag) → build_dag def ≡ ok d → IsDeclared def d
unfolding get_list lookup
build_dag-IsDeclared def d h =
    let linked = build_dag-Linked def d h in
    record {
      nodes = λ id. ap (lookup id) linked.same_nodes ∙ lookup-bare_dag def id;
      upstream = λ id. linked.upstream id;
    }

-- The error names a dependency that `owner` declares and that nothing is declared as.
pub record IsUndeclared (def : WorkflowDefinition) (e : DagError) : Type 0 where
  pub owner : String
  pub dep : String
  pub names : e ≡ unknown_node owner dep
  pub declares : 0 < count dep (declared_deps def owner)
  pub no_step : mem dep (step_ids def.steps) ≡ false
  pub no_approval : mem dep (approval_ids def.approvals) ≡ false

-- If BuildDAG fails, its error names the identifier of a declared step or approval and a dependency that
-- is declared for it, and no declared step or approval has that dependency as its identifier.
pub build_dag_error :
    (def : WorkflowDefinition) (e : DagError) → build_dag def ≡ err e → IsUndeclared def e
build_dag_error def e h =
    let b = build_dag-Blames def e h in
    record {
      owner = b.owner;
      dep = b.dep;
      names = b.names;
      declares = b.declared;
      no_step = ground (arith, b.absent, has-bare_dag b.dep def);
      no_approval = ground (arith, b.absent, has-bare_dag b.dep def);
    }
