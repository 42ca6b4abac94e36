-- ===== src/Dag/Graph.antt =====
-- internal/engine/dag.go: the graph's data, `BuildDAG`, and the order of a Go map's iteration.
use flow_ctl.Prelude.{
  ℕ, String, true, Option, none, some, List, [], ◌∷◌, ◌≡◌, ◌<◌, if◌then◌else◌, Assoc, insert, has,
  IsMap, count, get_list, append_at, Result, ok, err, ◌>>=◌,
}
use flow_ctl.Model.Workflow.{StepDef, ApprovalDef, WorkflowDefinition}

-- `Type` is "step" or "approval", and the pointer of that kind is set.
pub record DagNode : Type 0 where
  pub id : String
  pub type : String
  pub step_def : Option StepDef
  pub approval : Option ApprovalDef

pub record Dag : Type 0 where
  pub nodes : Assoc DagNode
  pub edges : Assoc (List String)  -- from -> [to]
  pub in_edges : Assoc (List String)  -- to -> [from]

pub data DagError : Type 0 where
  unknown_node : String → String → DagError
  cycle : List String → DagError
  unfinished : DagError

-- Go visits the keys of a map in an order of its own choosing, another one each time. `walk n l`
-- is the order that the iteration numbered `n` takes through the keys `l`: each key comes as often
-- as it is there.
pub record MapOrder : Type 0 where
  pub walk : ℕ → List String → List String
  pub visits : (n : ℕ) (k : String) (l : List String) → count k (walk n l) ≡ count k l

abbrev pub step_node : StepDef → DagNode
step_node s = record { id = s.id; type = "step"; step_def = some s; approval = none }

abbrev pub approval_node : ApprovalDef → DagNode
approval_node a = record { id = a.id; type = "approval"; step_def = none; approval = some a }

-- The first two loops of `BuildDAG`.
unfoldable pub step_nodes : List StepDef → Assoc DagNode → Assoc DagNode
step_nodes [] m = m
step_nodes (s ∷ ss) m = step_nodes ss (insert s.id (step_node s) m)

unfoldable pub approval_nodes : List ApprovalDef → Assoc DagNode → Assoc DagNode
approval_nodes [] m = m
approval_nodes (a ∷ rest) m = approval_nodes rest (insert a.id (approval_node a) m)

-- The inner loop over `DependsOn` of the step or approval `id`.
unfoldable pub link_deps : String → List String → Dag → Result DagError Dag
link_deps id [] d = ok d
link_deps id (dep ∷ deps) d =
    if has dep d.nodes
    then link_deps id deps
        (record d { edges = append_at dep id d.edges; in_edges = append_at id dep d.in_edges })
    else err (unknown_node id dep)

unfoldable pub link_steps : List StepDef → Dag → Result DagError Dag
unfolding link_deps
link_steps [] d = ok d
link_steps (s ∷ ss) d = do d' ← link_deps s.id s.depends_on d; link_steps ss d'

unfoldable pub link_approvals : List ApprovalDef → Dag → Result DagError Dag
unfolding link_deps
link_approvals [] d = ok d
link_approvals (a ∷ rest) d = do d' ← link_deps a.id a.depends_on d; link_approvals rest d'

-- The graph with its nodes and no edge.
abbrev pub bare_dag : WorkflowDefinition → Dag
bare_dag def = record {
  nodes = approval_nodes def.approvals (step_nodes def.steps []);
  edges = [];
  in_edges = [];
}

unfoldable pub build_dag : WorkflowDefinition → Result DagError Dag
unfolding step_nodes approval_nodes link_steps link_approvals
build_dag def = do d ← link_steps def.steps (bare_dag def); link_approvals def.approvals d

unfoldable pub get_downstream : Dag → String → List String
get_downstream d id = get_list id d.edges

unfoldable pub get_upstream : Dag → String → List String
get_upstream d id = get_list id d.in_edges

-- What `BuildDAG` guarantees: each edge is recorded at both of its ends, as often, and both ends
-- are nodes.
pub record IsDag (d : Dag) : Type 0 where
  pub nodes_map : IsMap d.nodes
  pub mirrored : (a b : String) → count b (get_list a d.edges) ≡ count a (get_list b d.in_edges)
  pub closed :
      (a b : String)
      → 0 < count a (get_list b d.in_edges)
      → (has a d.nodes ≡ true) × (has b d.nodes ≡ true)
